-- ===== src/Registry/Dynamo/Loops.antt =====
-- The loops of `ApplyChanges` of registry/dynamodb/registry.go over the changes.
use mathlib.Core.Option
use external_dns.Prelude.{
  Bool, List, Map, Option, Text, [], false, if◌then◌else◌, insert, int_eq, lookup, ltb, nat_eq,
  none, remove, snoc, some, text_eq, true, ◌∷◌,
}
use external_dns.Endpoint.Net.{Net}
use external_dns.Endpoint.Properties.{get_provider_specific_property, write_label}
use external_dns.Endpoint.Types.{Endpoint, EndpointKey, Labels, key, key_eq, owner_label_key}
use external_dns.Registry.Apply.{add_to_cache, option_bind, remove_from_cache}
use external_dns.Registry.Dynamo.Read.{LabelTable}
use external_dns.Registry.Dynamo.Records.{dynamodb_attribute_migrate}
use external_dns.Registry.Dynamo.Statements.{append_insert, append_update}
use external_dns.Registry.Dynamo.Types.{DynamoRegistry, Service, Statement}
use external_dns.Registry.Generate.{labels_or_nil}

-- the state of a loop: the registry, the endpoints of the changes so far, the statements
pub record Gathering (service : Service) : Type 0 where
  pub registry : DynamoRegistry
  pub endpoints : List Endpoint
  pub statements : List (Statement service.Value)

-- `im.labels[key] = labels`, which panics where the map is nil
abbrev pub write_labels :
    EndpointKey → Labels → DynamoRegistry → Option LabelTable → Option DynamoRegistry
write_labels k labels im none = none
write_labels k labels im (some known) = some (record im { labels = some (insert k labels known) })

abbrev pub labels_known : EndpointKey → Option LabelTable → Option Labels
labels_known k none = none
labels_known k (some known) = lookup k known

abbrev pub forget_labels : EndpointKey → DynamoRegistry → DynamoRegistry
forget_labels k im = record im { labels = Option.map (λ known. remove k known) im.labels }

abbrev pub caching : DynamoRegistry → Bool
caching im = ltb 0 im.cache_interval

abbrev pub cache_endpoint : Endpoint → DynamoRegistry → DynamoRegistry
cache_endpoint r im =
    if caching im then record im { records_cache = add_to_cache r im.records_cache } else im

abbrev pub is_migrating : Option (Unit {0}) → Bool
is_migrating none = false
is_migrating (some u) = true

module _ (service : Service) where
  abbrev pub gather :
      Endpoint
      → List Endpoint
      → List (Statement service.Value)
      → Option DynamoRegistry
      → Option (Gathering service)
  gather r endpoints statements none = none
  gather r endpoints statements (some im) = some (record {
    registry = cache_endpoint r im;
    endpoints = snoc endpoints r;
    statements = statements;
  })

  -- the statement for a record to create, by the labels of an entry that is there
  abbrev pub create_statements :
      DynamoRegistry
      → List (Statement service.Value)
      → Endpoint
      → Option Labels
      → List (Statement service.Value)
  create_statements im statements r none =
      append_insert service im statements (key r) (labels_or_nil r.labels)
  create_statements im statements r (some old) =
      append_update service im statements (key r) old (labels_or_nil r.labels)

  abbrev pub adopt : Endpoint → Option Labels → DynamoRegistry → DynamoRegistry
  adopt r none im = im
  adopt r (some old) im = record im { orphaned_labels = remove (key r) im.orphaned_labels }

  abbrev pub claimed : DynamoRegistry → Endpoint → Endpoint
  claimed im r = record r { labels = write_label owner_label_key im.owner_id r.labels }

  -- one round of the loop over `Create`, with the owner's label written
  unfoldable pub create_one : Gathering service → Endpoint → Option (Gathering service)
  unfolding append_insert append_update add_to_cache insert remove lookup
  create_one s r =
      let im = s.registry in
      let old = labels_known (key r) im.labels in
      gather r s.endpoints (create_statements im s.statements r old)
        (write_labels (key r) (labels_or_nil r.labels) (adopt r old im) im.labels)

  unfoldable pub create_all : Gathering service → List Endpoint → Option (Gathering service)
  unfolding create_one
  create_all s [] = some s
  create_all s (r ∷ rs) = option_bind (create_one s (claimed s.registry r)) λ s'. create_all s' rs

  -- an endpoint leaves the cache, which may sort its targets
  unfoldable pub uncache : ⦃net : Net⦄ → Endpoint → DynamoRegistry → Endpoint × DynamoRegistry
  unfolding remove_from_cache
  uncache r im =
      let (r', cache) = remove_from_cache r im.records_cache in
      if caching im then (r', record im { records_cache = cache }) else (r, im)

  -- the loop over `Delete`
  unfoldable pub delete_all :
      ⦃net : Net⦄ → DynamoRegistry → List Endpoint → List Endpoint × DynamoRegistry
  unfolding uncache remove
  delete_all im [] = ([], im)
  delete_all im (r ∷ rs) =
      let (r', im') = uncache r (forget_labels (key r) im) in
      let (rs', after) = delete_all im' rs in (r' ∷ rs', after)

  -- the loop over `UpdateOld`: what it leaves of the endpoints and of the cache
  unfoldable pub uncache_all :
      ⦃net : Net⦄ → DynamoRegistry → List Endpoint → List Endpoint × DynamoRegistry
  unfolding uncache
  uncache_all im [] = ([], im)
  uncache_all im (r ∷ rs) =
      let (r', im') = uncache r im in let (rs', after) = uncache_all im' rs in (r' ∷ rs', after)

  -- the same loop: `oldLabels`
  unfoldable pub old_labels_of : List Endpoint → LabelTable → LabelTable
  unfolding insert
  old_labels_of [] old = old
  old_labels_of (r ∷ rs) old = old_labels_of rs (insert (key r) (labels_or_nil r.labels) old)

  abbrev pub mark_migration :
      EndpointKey → Option Text → Map EndpointKey (Unit {0}) → Map EndpointKey (Unit {0})
  mark_migration k none marked = marked
  mark_migration k (some v) marked = insert k tt marked

  -- the same loop: `needMigration`
  unfoldable pub need_migration :
      List Endpoint → Map EndpointKey (Unit {0}) → Map EndpointKey (Unit {0})
  unfolding get_provider_specific_property insert
  need_migration [] marked = marked
  need_migration (r ∷ rs) marked =
      need_migration rs (
        mark_migration (key r) (get_provider_specific_property dynamodb_attribute_migrate r) marked)

  -- one round of the loop over `UpdateNew`
  unfoldable pub update_one :
      LabelTable
      → Map EndpointKey (Unit {0})
      → Gathering service
      → Endpoint
      → Option (Gathering service)
  unfolding append_insert append_update add_to_cache insert lookup
  update_one old marked s r =
      let im = s.registry in
      let labels = labels_or_nil r.labels in
      let migrating = is_migrating (lookup (key r) marked) in
      gather r s.endpoints
        (if migrating
          then append_insert service im s.statements (key r) labels
          else append_update service im s.statements (key r) (labels_or_nil (lookup (key r) old))
              labels)
        (write_labels (key r) labels (if migrating then record im { records_cache = none } else im)
          im.labels)

  unfoldable pub update_all :
      LabelTable
      → Map EndpointKey (Unit {0})
      → Gathering service
      → List Endpoint
      → Option (Gathering service)
  unfolding update_one
  update_all old marked s [] = some s
  update_all old marked s (r ∷ rs) =
      option_bind (update_one old marked s r) λ s'. update_all old marked s' rs
