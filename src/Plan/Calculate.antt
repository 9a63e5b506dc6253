-- ===== src/Plan/Calculate.antt =====
-- `Plan.Calculate` of plan/plan.go and what it calls. Endpoints are values here: an endpoint that a
-- comparison or `inheritOwner` mutates is returned as it stands afterwards.
use external_dns.Prelude.{
  Bool, List, Map, Option, Text, [], any, false, if◌then◌else◌, insert, int_eq, is_nil, keep,
  lookup, nat_eq, none, not, remove, some, text_eq, true, ◌&&◌, ◌++◌, ◌==◌, ◌||◌, ◌∷◌,
}
use external_dns.Endpoint.DomainFilter.{MatchAllDomainFilters, match_all}
use external_dns.Endpoint.Net.{Net}
use external_dns.Endpoint.Owner.{filter_endpoints_by_owner_id, is_owned_by, remove_duplicates}
use external_dns.Endpoint.Properties.{write_label}
use external_dns.Endpoint.Targets.{same}
use external_dns.Endpoint.Types.{
  Endpoint, Labels, ProviderSpecific, ProviderSpecificProperty, is_configured, or_empty,
  owner_label_key, read_label, record_type_a, record_type_aaaa, record_type_cname,
}
use external_dns.Plan.Conflict.{resolve_create, resolve_record_types, resolve_update}
use external_dns.Plan.Policy.{Policy, apply_all}
use external_dns.Plan.Table.{add_all_candidates, add_all_current}
use external_dns.Plan.Types.{
  Changes, DomainEndpoints, PlanKey, PlanTable, PlanTableRow, Ranges, no_changes, plan_key_eq,
}

pub record Plan : Type 0 where
  pub current : List Endpoint
  pub desired : List Endpoint
  pub policies : List Policy
  pub changes : Option Changes
  pub domain_filter : MatchAllDomainFilters
  pub managed_records : List Text
  pub exclude_records : List Text
  pub owner_id : Text
  pub old_owner_id : Text

abbrev pub contains : Text → List Text → Bool
contains t ts = any (λ u. u == t) ts

unfoldable pub is_managed_record : Text → List Text → List Text → Bool
unfolding any
is_managed_record record_type managed excluded =
    if contains record_type excluded then false else contains record_type managed

-- the two tests of the loop of `filterRecordsForPlan`
unfoldable pub in_scope : MatchAllDomainFilters → List Text → List Text → Endpoint → Bool
unfolding match_all is_managed_record
in_scope filters managed excluded e =
    match_all filters e.dns_name && is_managed_record e.record_type managed excluded

unfoldable pub filter_records_for_plan :
    List Endpoint → MatchAllDomainFilters → List Text → List Text → List Endpoint
unfolding in_scope keep
filter_records_for_plan records filters managed excluded =
    keep (in_scope filters managed excluded) records

unfoldable pub should_update_ttl : Endpoint → Endpoint → Bool
should_update_ttl desired current =
    if not (is_configured desired.record_ttl)
    then false
    else not (desired.record_ttl == current.record_ttl)

-- the map of the desired properties: the last of a name stays
unfoldable pub property_map :
    ProviderSpecific → Map Text ProviderSpecificProperty → Map Text ProviderSpecificProperty
property_map [] m = m
property_map (d ∷ ds) m = property_map ds (insert d.name d m)

-- the loop over the current properties; what is left of the map at the end was not there
unfoldable pub properties_differ : Map Text ProviderSpecificProperty → ProviderSpecific → Bool
properties_differ m [] = not (is_nil m)
properties_differ m (c ∷ cs) =
    let rest = properties_differ (remove c.name m) cs in
    elim (lookup c.name m) [
      | none ↦ true
      | some d ↦ if not (c.value == d.value) then true else rest
    ]

unfoldable pub should_update_provider_specific : Endpoint → Endpoint → Bool
unfolding property_map properties_differ
should_update_provider_specific desired current =
    properties_differ (property_map desired.provider_specific []) current.provider_specific

unfoldable pub is_old_owner_id_set_and_different : Text → Endpoint → Bool
is_old_owner_id_set_and_different old_owner_id current =
    not (is_nil old_owner_id)
    && not (or_empty (read_label owner_label_key current.labels) == old_owner_id)

-- `inheritOwner`: `to` gets the owner label of `from`, the empty text where `from` has none
unfoldable pub inherit_owner : Endpoint → Endpoint → Endpoint
inherit_owner from to = record to {
  labels =
      write_label owner_label_key (or_empty (read_label owner_label_key from.labels)) to.labels;
}

-- what `inheritOwner` does to `from`: a nil map becomes an empty one
abbrev pub own_labels : Option Labels → Option Labels
own_labels none = some []
own_labels (some labels) = some labels

unfoldable pub append_update : Changes → Endpoint → Endpoint → Changes
unfolding inherit_owner
append_update changes current update = record changes {
  update_new = changes.update_new ++ inherit_owner current update ∷ [];
  update_old = changes.update_old ++ record current { labels = own_labels current.labels } ∷ [];
}

abbrev pub append_some : Option Endpoint → List Endpoint → List Endpoint
append_some none eps = eps
append_some (some ep) eps = eps ++ ep ∷ []

module _ ⦃net : Net⦄ (old_owner_id : Text) where
  -- the tests of `appendEndpointUpdates`, in its order: `targetChanged` sorts both target lists
  unfoldable pub append_if_changed : Changes → Endpoint → Endpoint → Changes
  unfolding append_update should_update_ttl
  append_if_changed changes current update =
      if should_update_ttl update current
      then append_update changes current update
      else (let (unchanged, us, cs) = same update.targets current.targets in
          let update' = record update { targets = us } in
          let current' = record current { targets = cs } in
          if not unchanged
            || (should_update_provider_specific update' current'
                || is_old_owner_id_set_and_different old_owner_id current')
          then append_update changes current' update'
          else changes)

  unfoldable pub append_endpoint_updates : Changes → Endpoint → List Endpoint → Changes
  unfolding append_if_changed
  append_endpoint_updates changes current candidates = elim (resolve_update current candidates) [
    | none ↦ changes
    | some update ↦ append_if_changed changes current update
  ]

  -- the three cases of `calculatePlanTableRowChanges`
  unfoldable pub record_changes : Changes → Option Endpoint → List Endpoint → Changes
  unfolding append_endpoint_updates
  record_changes changes (some current) [] = record changes {
    delete = changes.delete ++ current ∷ [];
  }
  record_changes changes none (c ∷ cs) = record changes {
    create = append_some (resolve_create (c ∷ cs)) changes.create;
  }
  record_changes changes (some current) (c ∷ cs) = append_endpoint_updates changes current (c ∷ cs)
  record_changes changes none [] = changes

  unfoldable pub row_changes_from : Changes → List (Text × DomainEndpoints) → Changes
  unfolding record_changes
  row_changes_from changes [] = changes
  row_changes_from changes ((record_type, d) ∷ ds) =
      row_changes_from (record_changes changes d.current d.candidates) ds

unfoldable pub all_owned : Text → List Endpoint → Bool
all_owned owner_id [] = true
all_owned owner_id (e ∷ es) = if is_owned_by owner_id e then all_owned owner_id es else false

-- `ownersMatch`
unfoldable pub owners_match : Text → List Endpoint → Bool
unfolding all_owned
owners_match owner_id current = if not (is_nil owner_id) then all_owned owner_id current else true

module _ ⦃net : Net⦄ (ranges : Ranges) (p : Plan) where
  unfoldable pub calculate_plan_table_row_changes : PlanTableRow → Changes
  unfolding row_changes_from
  calculate_plan_table_row_changes row =
      row_changes_from p.old_owner_id no_changes (ranges.records (resolve_record_types row))

  unfoldable pub append_taken_dns_name_changes : Changes → PlanTableRow → Changes
  unfolding calculate_plan_table_row_changes owners_match
  append_taken_dns_name_changes changes row =
      let rc = calculate_plan_table_row_changes row in
      record {
        create =
            if is_nil rc.create
            then changes.create
            else if owners_match p.owner_id row.current
            then changes.create ++ rc.create
            else changes.create;
        update_old = changes.update_old ++ rc.update_old;
        update_new = changes.update_new ++ rc.update_new;
        delete = changes.delete ++ rc.delete;
      }

  -- the creates of a name that is not taken
  unfoldable pub create_candidates : List Endpoint → List (Text × DomainEndpoints) → List Endpoint
  create_candidates create [] = create
  create_candidates create ((record_type, d) ∷ ds) =
      create_candidates (append_some (resolve_create d.candidates) create) ds

  -- the cases of the loop of `calculateChanges`
  unfoldable pub row_step : Changes → PlanTableRow → Changes
  unfolding create_candidates append_taken_dns_name_changes
  row_step changes row =
      if is_nil row.current
      then record changes {
        create = create_candidates changes.create (ranges.records (resolve_record_types row));
      }
      else if is_nil row.candidates
      then record changes { delete = changes.delete ++ row.current }
      else append_taken_dns_name_changes changes row

  unfoldable pub rows_from : Changes → List (PlanKey × PlanTableRow) → Changes
  unfolding row_step
  rows_from changes [] = changes
  rows_from changes ((k, row) ∷ rows) = rows_from (row_step changes row) rows

  -- the last step: updates and deletes of other owners go
  unfoldable pub filter_by_owner : Changes → Changes
  unfolding filter_endpoints_by_owner_id remove_duplicates
  filter_by_owner changes =
      if not (is_nil p.owner_id)
      then record changes {
        delete = remove_duplicates (filter_endpoints_by_owner_id p.owner_id changes.delete);
        update_old = filter_endpoints_by_owner_id p.owner_id changes.update_old;
        update_new = filter_endpoints_by_owner_id p.owner_id changes.update_new;
      }
      else changes

  unfoldable pub calculate_changes : PlanTable → Changes
  unfolding rows_from apply_all filter_by_owner
  calculate_changes t =
      filter_by_owner (apply_all p.policies (rows_from no_changes (ranges.rows t)))

  unfoldable pub plan_table : PlanTable
  unfolding add_all_current add_all_candidates filter_records_for_plan
  plan_table =
      add_all_candidates
        (filter_records_for_plan p.desired p.domain_filter p.managed_records p.exclude_records)
        (add_all_current
          (filter_records_for_plan p.current p.domain_filter p.managed_records p.exclude_records)
          [])

  unfoldable pub calculate : Plan
  unfolding calculate_changes plan_table
  calculate = record {
    current = p.current;
    desired = p.desired;
    policies = [];
    changes = some (calculate_changes plan_table);
    domain_filter = [];
    managed_records = record_type_a ∷ record_type_aaaa ∷ record_type_cname ∷ [];
    exclude_records = [];
    owner_id = [];
    old_owner_id = [];
  }
