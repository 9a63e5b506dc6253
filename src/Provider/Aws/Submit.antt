-- ===== src/Provider/Aws/Submit.antt =====
-- `ApplyChanges` and `submitChanges` of provider/aws/aws.go.
use mathlib.Core.List.{map}
use external_dns.Prelude.{
  Bool, List, Map, Option, Text, [], any, false, if◌then◌else◌, insert, int_eq, is_nil, length,
  lookup, ltb, nat_eq, none, not, some, text_eq, true, ℕ, ◌&&◌, ◌++◌, ◌==◌, ◌||◌, ◌∷◌,
}
use external_dns.Endpoint.Create.{new_endpoint}
use external_dns.Endpoint.Properties.{get_provider_specific_property}
use external_dns.Endpoint.Types.{Endpoint, or_empty, record_type_a}
use external_dns.Plan.Rows.{at}
use external_dns.Plan.Types.{Changes}
use external_dns.Provider.Aws.Adjust.{is_set}
use external_dns.Provider.Aws.Batch.{Limits, batch_change_set, changes_or_none, group_changes}
use external_dns.Provider.Aws.Change.{new_changes}
use external_dns.Provider.Aws.Types.{
  AwsProvider, Numbers, ProfiledZone, ResourceRecordSet, Route53Change, Route53Changes,
  action_create, action_delete, action_upsert, provider_specific_alias, provider_specific_failover,
  provider_specific_geolocation_continent_code, provider_specific_geolocation_country_code,
  provider_specific_geolocation_subdivision_code, provider_specific_region,
  provider_specific_weight,
}
use external_dns.Provider.Aws.Zones.{HostedZones, changes_by_zone}

-- the clients of the profiles: `ChangeResourceRecordSets` of the actions and the record sets in a
-- zone, and whether there was no error
pub record Client : Type 1 where
  pub World : Type 0
  pub change_resource_record_sets :
      World → Text → Text → List (Text × ResourceRecordSet) → World × Bool

abbrev pub both_or_neither : Bool → Bool → Bool
both_or_neither true b = b
both_or_neither false b = not b

unfoldable pub policy_differs : Endpoint → Endpoint → List Text → Bool
unfolding get_provider_specific_property
policy_differs old new_endpoint [] = false
policy_differs old new_endpoint (k ∷ ks) =
    let rest = policy_differs old new_endpoint ks in
    if both_or_neither (is_set (get_provider_specific_property k old))
      (is_set (get_provider_specific_property k new_endpoint))
    then rest
    else true

abbrev pub alias_text : Endpoint → Text
alias_text ep = or_empty (get_provider_specific_property provider_specific_alias ep)

unfoldable pub requires_delete_create : Endpoint → Endpoint → Bool
unfolding policy_differs get_provider_specific_property
requires_delete_create old new_endpoint =
    if not (old.record_type == new_endpoint.record_type)
    then true
    else if old.record_type == record_type_a && not (alias_text old == alias_text new_endpoint)
    then true
    else if not (old.set_identifier == new_endpoint.set_identifier)
    then true
    else policy_differs old new_endpoint (
        provider_specific_weight ∷ provider_specific_region ∷ provider_specific_failover
        ∷ provider_specific_failover ∷ provider_specific_geolocation_continent_code
        ∷ provider_specific_geolocation_country_code
        ∷ provider_specific_geolocation_subdivision_code ∷ [])

-- `creates`, `updates` and `deletes`
pub record Updates : Type 0 where
  pub creates : List Endpoint
  pub updates : List Endpoint
  pub deletes : List Endpoint

-- the loop of `createUpdateChanges`
unfoldable pub sort_updates : List Endpoint → List Endpoint → Updates
unfolding requires_delete_create
sort_updates [] olds = record { creates = []; updates = []; deletes = [] }
sort_updates (e ∷ es) [] = record { creates = []; updates = []; deletes = [] }
sort_updates (e ∷ es) (old ∷ olds) =
    let rest = sort_updates es olds in
    if requires_delete_create old e
    then record rest { creates = e ∷ rest.creates; deletes = old ∷ rest.deletes }
    else record rest { updates = e ∷ rest.updates }

module _ (numbers : Numbers) (p : AwsProvider) where
  -- `createUpdateChanges`, and the next free address
  unfoldable pub create_update_changes : ℕ → List Endpoint → List Endpoint → Route53Changes × ℕ
  unfolding sort_updates new_changes
  create_update_changes at news olds =
      let u = sort_updates news olds in
      let (created, at1) = new_changes numbers p at action_create u.creates in
      let (upserted, at2) = new_changes numbers p at1 action_upsert u.updates in
      let (deleted, at3) = new_changes numbers p at2 action_delete u.deletes in
      (created ++ upserted ++ deleted, at3)

  -- the changes that `ApplyChanges` submits
  unfoldable pub combined_changes : ℕ → Changes → Route53Changes × ℕ
  unfolding create_update_changes new_changes
  combined_changes at c =
      let (updated, at1) = create_update_changes at c.update_new c.update_old in
      let (created, at2) = new_changes numbers p at1 action_create c.create in
      let (deleted, at3) = new_changes numbers p at2 action_delete c.delete in
      (created ++ deleted ++ updated, at3)

-- `slices.Contains(queue, c)` compares pointers
unfoldable pub is_queued : Route53Changes → Route53Change → Bool
unfolding any
is_queued queue c = any (λ q. q.address == c.address) queue

-- `findChangesInQueue`: the changes that are in the queue, and the others
unfoldable pub find_changes_in_queue :
    Route53Changes → Route53Changes → Route53Changes × Route53Changes
unfolding is_queued
find_changes_in_queue [] queue = ([], [])
find_changes_in_queue (c ∷ cs) queue =
    let (found, others) = find_changes_in_queue cs queue in
    if is_queued queue c then (c ∷ found, others) else (found, c ∷ others)

abbrev pub limits_of : AwsProvider → Limits
limits_of p = record {
  size = p.batch_change_size;
  bytes = p.batch_change_size_bytes;
  values = p.batch_change_size_values;
}

module _ (client : Client) where
  open client use {World, change_resource_record_sets}

  -- the clients, the changes of the zone to retry, and `failedUpdate`
  pub record Submitting : Type 0 where
    pub world : World
    pub failed : Route53Changes
    pub failed_update : Bool

  abbrev pub payload : Route53Changes → List (Text × ResourceRecordSet)
  payload cs = map (λ (c : Route53Change). (c.action, c.record_set)) cs

  abbrev pub after_group : Route53Changes → Submitting → World × Bool → Submitting
  after_group cs s (w, true) = record s { world = w }
  after_group cs s (w, false) = record { world = w; failed = s.failed ++ cs; failed_update = true }

  -- the loop over the groups of a batch that failed, in the order of the map, which Go leaves open
  unfoldable pub submit_groups : ProfiledZone → Map Text Route53Changes → Submitting → Submitting
  submit_groups z [] s = s
  submit_groups z ((k, cs) ∷ groups) s =
      submit_groups z groups
        (after_group cs s (change_resource_record_sets s.world z.profile z.id (payload cs)))

  abbrev pub retry_groups : ProfiledZone → Map Text Route53Changes → Submitting → Submitting
  retry_groups z groups s =
      if ltb 1 (length groups) then submit_groups z groups s else record s { failed_update = true }

  abbrev pub after_submit : ProfiledZone → Route53Changes → Submitting → World × Bool → Submitting
  after_submit z b s (w, true) = record s { world = w }
  after_submit z b s (w, false) = retry_groups z (group_changes b) (record s { world = w })

  -- the body of the loop over the batches
  unfoldable pub submit_batch : Bool → ProfiledZone → Route53Changes → Submitting → Submitting
  unfolding submit_groups group_changes
  submit_batch dry_run z b s =
      if is_nil b
      then s
      else if dry_run
      then s
      else after_submit z b s (change_resource_record_sets s.world z.profile z.id (payload b))

  unfoldable pub submit_batches :
      Bool → ProfiledZone → List Route53Changes → Submitting → Submitting
  unfolding submit_batch
  submit_batches dry_run z [] s = s
  submit_batches dry_run z (b ∷ bs) s = submit_batches dry_run z bs (submit_batch dry_run z b s)

  -- the batches of a zone: those of the new changes, then those of the retried ones
  unfoldable pub batches_of_zone :
      AwsProvider → Route53Changes → Route53Changes → List Route53Changes
  unfolding find_changes_in_queue batch_change_set
  batches_of_zone p cs queue =
      let (retried, others) = find_changes_in_queue cs queue in
      batch_change_set (limits_of p) others ++ batch_change_set (limits_of p) retried

  -- the world, the provider with its queue, and whether a zone failed
  pub record Submitted : Type 0 where
    pub world : World
    pub provider : AwsProvider
    pub any_failed : Bool

  abbrev pub zone_submitted : Text → Bool → AwsProvider → Submitting → Submitted
  zone_submitted id before p s = record {
    world = s.world;
    provider = record p { failed_changes_queue = insert id s.failed p.failed_changes_queue };
    any_failed = before || s.failed_update;
  }

  abbrev pub submit_zone : Text → Route53Changes → Option ProfiledZone → Submitted → Submitted
  submit_zone id cs none s = s
  submit_zone id cs (some z) s =
      let queue = changes_or_none (lookup id s.provider.failed_changes_queue) in
      zone_submitted id s.any_failed s.provider (
        submit_batches s.provider.dry_run z (batches_of_zone s.provider cs queue)
          (record { world = s.world; failed = []; failed_update = false }))

  -- the loop over the zones; `changesByZone` names only zones that are there
  unfoldable pub submit_all : HostedZones → Map Text Route53Changes → Submitted → Submitted
  unfolding submit_batches batches_of_zone insert lookup
  submit_all zones [] s = s
  submit_all zones ((id, cs) ∷ changes) s =
      submit_all zones changes (submit_zone id cs (lookup id zones) s)

  -- `submitChanges` and the next free address; `any_failed` is the error
  unfoldable pub submit_changes :
      (Text → Bool) → HostedZones → ℕ → Route53Changes → World → AwsProvider → Submitted × ℕ
  unfolding submit_all changes_by_zone
  submit_changes is_ip zones at cs w p =
      let start_state : Submitted = record { world = w; provider = p; any_failed = false } in
      let (changes, free) = changes_by_zone is_ip zones at cs in
      if is_nil cs then (start_state, at) else (submit_all zones changes start_state, free)

  -- `ApplyChanges`, of the zones that it was given, and the next free address
  unfoldable pub apply_route53_changes :
      Numbers → (Text → Bool) → HostedZones → ℕ → Changes → World → AwsProvider → Submitted × ℕ
  unfolding combined_changes submit_changes
  apply_route53_changes numbers is_ip zones at c w p =
      let (cs, at') = combined_changes numbers p at c in submit_changes is_ip zones at' cs w p
