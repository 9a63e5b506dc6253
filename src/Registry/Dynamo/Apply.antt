-- ===== src/Registry/Dynamo/Apply.antt =====
-- `ApplyChanges` of registry/dynamodb/registry.go.
use external_dns.Prelude.{
  Bool, List, Map, Option, [], false, int_eq, nat_eq, none, remove, some, text_eq, true, ◌∷◌,
}
use external_dns.Endpoint.Net.{Net}
use external_dns.Endpoint.Owner.{filter_endpoints_by_owner_id}
use external_dns.Endpoint.Types.{Endpoint, EndpointKey, key, key_eq}
use external_dns.Plan.Types.{Changes}
use external_dns.Registry.Dynamo.Execute.{execute_statements}
use external_dns.Registry.Dynamo.Handlers.{Creating, handle_delete, handle_write}
use external_dns.Registry.Dynamo.Loops.{
  Gathering, create_all, delete_all, forget_labels, need_migration, old_labels_of, uncache_all,
  update_all,
}
use external_dns.Registry.Dynamo.Statements.{append_delete}
use external_dns.Registry.Dynamo.Types.{
  DynamoRegistry, Progress, Service, Statement, done, panicked, provider_failed, stopped,
  unfinished,
}

-- the table and the provider, the registry, and the changes that the provider was handed
pub record Applied (service : Service) : Type 0 where
  pub world : service.World
  pub registry : DynamoRegistry
  pub handed : Option Changes

-- the caches are dropped where an error is returned before the deletions
abbrev pub drop_caches : DynamoRegistry → DynamoRegistry
drop_caches im = record im { records_cache = none; labels = none }

module _ (service : Service) where
  open service use {Value, World, provider_apply}

  -- the loop over the orphaned labels, in the order of the map, which Go leaves open
  unfoldable pub delete_orphans :
      DynamoRegistry
      → List (Statement Value)
      → Map EndpointKey (Unit {0})
      → DynamoRegistry × List (Statement Value)
  unfolding append_delete remove
  delete_orphans im statements [] = (record im { orphaned_labels = [] }, statements)
  delete_orphans im statements ((k, u) ∷ orphans) =
      delete_orphans (forget_labels k im) (append_delete service im statements k) orphans

  -- the loop over the endpoints that were deleted
  unfoldable pub delete_statements :
      DynamoRegistry → List (Statement Value) → List Endpoint → List (Statement Value)
  unfolding append_delete
  delete_statements im statements [] = statements
  delete_statements im statements (r ∷ rs) =
      delete_statements im (append_delete service im statements (key r)) rs

  abbrev pub as_applied :
      Option Changes → Progress (World × DynamoRegistry) → Progress (Applied service)
  as_applied handed (done (w, im)) = done (record { world = w; registry = im; handed = handed })
  as_applied handed (stopped (w, im) e) =
      stopped (record { world = w; registry = im; handed = handed }) e
  as_applied handed panicked = panicked
  as_applied handed unfinished = unfinished

  -- after the provider has applied the changes
  unfoldable pub delete_entries : World → DynamoRegistry → Changes → Progress (Applied service)
  unfolding delete_orphans delete_statements execute_statements handle_delete
  delete_entries w im c =
      let (im', statements) =
        delete_orphans im (delete_statements im [] c.delete) im.orphaned_labels in
      as_applied (some c) (execute_statements service (handle_delete service) statements (w, im'))

  abbrev pub after_provider : DynamoRegistry → Changes → World × Bool → Progress (Applied service)
  after_provider im c (w, false) =
      stopped (record { world = w; registry = drop_caches im; handed = some c }) provider_failed
  after_provider im c (w, true) = delete_entries w im c

  -- after the statements for the records to create and to update
  abbrev pub after_writes : Changes → Progress (World × Creating) → Progress (Applied service)
  after_writes c (done (w, (im, create))) =
      let handed = record c { create = create } in
      after_provider im handed (provider_apply w handed)
  after_writes c (stopped (w, (im, create)) e) =
      stopped (record { world = w; registry = drop_caches im; handed = none }) e
  after_writes c panicked = panicked
  after_writes c unfinished = unfinished

  -- the filtered changes as the loops leave them, and the state after the loops
  pub record Prepared : Type 0 where
    pub changes : Changes
    pub gathered : Gathering service

  abbrev pub prepared :
      List Endpoint → List Endpoint → List Endpoint → Option (Gathering service) → Option Prepared
  prepared create delete update_old none = none
  prepared create delete update_old (some s) = some (record {
    changes = record {
      create = create;
      update_old = update_old;
      update_new = s.endpoints;
      delete = delete;
    };
    gathered = s;
  })

  abbrev pub prepare_rest : ⦃net : Net⦄ → Changes → Option (Gathering service) → Option Prepared
  prepare_rest c none = none
  prepare_rest c (some s) =
      let (deleted, im) = delete_all service s.registry c.delete in
      let (olds, im') = uncache_all service im c.update_old in
      prepared s.endpoints deleted olds (
        update_all service (old_labels_of service c.update_old [])
          (need_migration service c.update_old [])
          (record { registry = im'; endpoints = []; statements = s.statements }) c.update_new)

  -- the changes that are ours
  unfoldable pub filtered_changes : DynamoRegistry → Changes → Changes
  unfolding filter_endpoints_by_owner_id
  filtered_changes im c = record {
    create = c.create;
    update_old = filter_endpoints_by_owner_id im.owner_id c.update_old;
    update_new = filter_endpoints_by_owner_id im.owner_id c.update_new;
    delete = filter_endpoints_by_owner_id im.owner_id c.delete;
  }

  -- the loops, up to the first call of the table; `none` is a panic
  unfoldable pub prepare : ⦃net : Net⦄ → DynamoRegistry → Changes → Option Prepared
  unfolding filtered_changes create_all delete_all uncache_all old_labels_of need_migration
      update_all
  prepare im c =
      let filtered = filtered_changes im c in
      prepare_rest filtered (
        create_all service (record { registry = im; endpoints = []; statements = [] })
          filtered.create)

  abbrev pub apply_prepared : ⦃net : Net⦄ → World → Option Prepared → Progress (Applied service)
  apply_prepared w none = panicked
  apply_prepared w (some p) = after_writes p.changes (
      execute_statements service (handle_write service) p.gathered.statements
        (w, (p.gathered.registry, p.changes.create)))

  -- `ApplyChanges`
  unfoldable pub apply_dynamo_changes :
      ⦃net : Net⦄ → World → DynamoRegistry → Changes → Progress (Applied service)
  unfolding prepare execute_statements handle_write delete_entries
  apply_dynamo_changes w im c = apply_prepared w (prepare im c)
