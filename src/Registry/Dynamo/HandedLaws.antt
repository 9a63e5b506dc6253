-- ===== src/Registry/Dynamo/HandedLaws.antt =====
-- What `ApplyChanges` of registry/dynamodb/registry.go hands to the provider, and the caches that it
-- leaves at an error.
use external_dns.Prelude.{
  All, All-unit, Bool, List, Option, Text, [], false, inl, none, refl, some, true, ◌≡◌,
}
use external_dns.Endpoint.Net.{Net}
use external_dns.Endpoint.OwnerLaws.{IsOwned, filter_endpoints-IsOwned}
use external_dns.Endpoint.Types.{Endpoint}
use external_dns.Plan.Types.{Changes}
use external_dns.Registry.Dynamo.Apply.{
  Applied, Prepared, after_provider, after_writes, apply_dynamo_changes, apply_prepared, as_applied,
  delete_entries, delete_orphans, delete_statements, filtered_changes, prepare, prepare_rest,
  prepared,
}
use external_dns.Registry.Dynamo.ExecuteRule.{
  Answers, Within, execute_statements-Within, respond-Within,
}
use external_dns.Registry.Dynamo.HandlerLaws.{Sound, handle_delete-Within, handle_write-Within}
use external_dns.Registry.Dynamo.Handlers.{Creating, handle_delete, handle_write}
use external_dns.Registry.Dynamo.Loops.{
  Gathering, delete_all, need_migration, old_labels_of, uncache_all,
}
use external_dns.Registry.Dynamo.OwnerLaws.{
  Anything, Gathered, Ours, OwnerIs, create_all-Gathered, delete_all-IsOwned, uncache_all-IsOwned,
  update_all-Gathered,
}
use external_dns.Registry.Dynamo.Types.{
  BatchError, DynamoRegistry, Progress, Service, Statement, done, panicked, stopped, unfinished,
}
use external_dns.Registry.GenerateLaws.{Whenever}

-- The labels and the records will be read again.
abbrev pub Dropped : DynamoRegistry → Type 0
Dropped im = (im.labels ≡ none) × (im.records_cache ≡ none)

-- nothing is asked of the answers where a panic is allowed
any_answers :
    (service : Service) (w : service.World) (c : List (Statement service.Value))
    → Answers service Unit (λ r. Unit {0}) c (service.batch_execute w c).1
any_answers service w c = go (service.batch_execute w c).1
  where
    go : (o : Option (List (Option BatchError))) → Answers service Unit (λ r. Unit {0}) c o
    go none = tt
    go (some rs) = (inl tt, All-unit rs)

anything-Sound :
    (service : Service) (q : Statement service.Value) (e : BatchError) → Sound service Unit q e
anything-Sound service q e = record {
  first_there = λ n. tt;
  second_there = λ f n. tt;
  key_there = λ t n. tt;
  message_there = λ n. tt;
}

module _ (service : Service) (owner_id : Text) where
  -- The provider was handed changes that are ours and nothing else; where it was not called, the
  -- caches are dropped.
  abbrev pub HandsOurs : Progress (Applied service) → Type 0
  HandsOurs (done a) = (c : Changes) × (a.handed ≡ some c) × Ours owner_id c
  HandsOurs (stopped a e) =
      Whenever (Ours owner_id) a.handed × (a.handed ≡ none → Dropped a.registry)
  HandsOurs panicked = Unit
  HandsOurs unfinished = ⊥

  as_applied-HandsOurs :
      (c : Changes) (p : Progress (service.World × DynamoRegistry))
      → Ours owner_id c
      → Within (λ s. Unit {0}) (Unit {0}) p
      → HandsOurs (as_applied service (some c) p)
  as_applied-HandsOurs c (done (w, im)) h f = (c, refl, h)
  as_applied-HandsOurs c (stopped (w, im) e) h f = (h, λ n. cc)
  as_applied-HandsOurs c panicked h f = tt
  as_applied-HandsOurs c unfinished h f = f

  delete_entries-HandsOurs :
      (w : service.World) (im : DynamoRegistry) (c : Changes)
      → Ours owner_id c
      → HandsOurs (delete_entries service w im c)
  unfolding delete_entries
  delete_entries-HandsOurs w im c h =
      let (im', statements) =
        delete_orphans service im (delete_statements service im [] c.delete) im.orphaned_labels in
      as_applied-HandsOurs c _ h (
        execute_statements-Within service (λ s. Unit {0}) Unit (λ q. Unit {0}) (λ r. Unit {0})
          (handle_delete service)
          (λ s q r hq he hs.
            respond-Within service (λ s. Unit {0}) (handle_delete service) s q r
              (λ s q e u. handle_delete-Within service Unit s q e (λ k. tt) (λ m. tt)) tt)
          statements w im' (any_answers service) (All-unit statements) tt)

  after_provider-HandsOurs :
      (im : DynamoRegistry) (c : Changes) (o : service.World × Bool)
      → Ours owner_id c
      → HandsOurs (after_provider service im c o)
  after_provider-HandsOurs im c (w, false) h = (h, λ n. cc)
  after_provider-HandsOurs im c (w, true) h = delete_entries-HandsOurs w im c h

  after_writes-HandsOurs :
      (c : Changes) (p : Progress (service.World × Creating))
      → Ours owner_id c
      → Within (λ (x : service.World × Creating). All (IsOwned owner_id) x.1.1) Unit p
      → HandsOurs (after_writes service c p)
  after_writes-HandsOurs c (done (w, (im, create))) h hc = after_provider-HandsOurs im _ _ (record {
    create = hc;
    update_old = h.update_old;
    update_new = h.update_new;
    delete = h.delete;
  })
  after_writes-HandsOurs c (stopped (w, (im, create)) e) h hc = (tt, λ n. (refl, refl))
  after_writes-HandsOurs c panicked h hc = tt
  after_writes-HandsOurs c unfinished h hc = hc

  prepare_rest-Ours :
      ⦃net : Net⦄ (c : Changes) (o : Option (Gathering service))
      → Whenever (Gathered service owner_id (OwnerIs owner_id)) o
      → All (IsOwned owner_id) c.update_old
      → All (IsOwned owner_id) c.update_new
      → All (IsOwned owner_id) c.delete
      → Whenever (λ (p : Prepared service). Ours owner_id p.changes) (prepare_rest service c o)
  prepare_rest-Ours c none h ho hn hd = tt
  prepare_rest-Ours c (some s) h ho hn hd =
      let (deleted, im) = delete_all service s.registry c.delete in
      let (olds, im') = uncache_all service im c.update_old in
      prepared-Ours _ _ _ _
        (update_all-Gathered service owner_id (old_labels_of service c.update_old [])
          (need_migration service c.update_old []) c.update_new
          (record { registry = im'; endpoints = []; statements = s.statements }) hn (tt, tt))
        h.1 (delete_all-IsOwned owner_id service c.delete s.registry hd)
        (uncache_all-IsOwned owner_id service c.update_old im ho)
    where
      prepared-Ours :
          (create delete update_old : List Endpoint) (o : Option (Gathering service))
          → Whenever (Gathered service owner_id (Anything service owner_id)) o
          → All (IsOwned owner_id) create
          → All (IsOwned owner_id) delete
          → All (IsOwned owner_id) update_old
          → Whenever
              (λ (p : Prepared service). Ours owner_id p.changes)
              (prepared service create delete update_old o)
      prepared-Ours create delete update_old none h hc hd ho = tt
      prepared-Ours create delete update_old (some s) h hc hd ho = record {
        create = hc;
        update_old = ho;
        update_new = h.1;
        delete = hd;
      }

  apply_prepared-HandsOurs :
      ⦃net : Net⦄ (w : service.World) (o : Option (Prepared service))
      → Whenever (λ (p : Prepared service). Ours owner_id p.changes) o
      → HandsOurs (apply_prepared service w o)
  apply_prepared-HandsOurs w none h = tt
  apply_prepared-HandsOurs w (some p) h = after_writes-HandsOurs p.changes _ h (
      execute_statements-Within service (λ (s : Creating). All (IsOwned owner_id) s.1) Unit
        (λ q. Unit {0}) (λ r. Unit {0}) (handle_write service)
        (λ s q r hq he hs.
          respond-Within service (λ (s : Creating). All (IsOwned owner_id) s.1)
            (handle_write service) s q r
            (λ s q e hs.
              handle_write-Within service (IsOwned owner_id) Unit q e (anything-Sound service q e) s
                hs)
            hs)
        p.gathered.statements w (p.gathered.registry, p.changes.create) (any_answers service)
        (All-unit p.gathered.statements) h.create)

-- Whatever the table and the provider answer, `ApplyChanges` hands the provider only records to
-- create, to update and to delete that carry the label of this owner, and at its return it has
-- handed them; at an error before the provider is called, both caches are dropped. The batches end.
pub apply_dynamo_changes-HandsOurs :
    ⦃net : Net⦄ (service : Service) (w : service.World) (im : DynamoRegistry) (c : Changes)
    → HandsOurs service im.owner_id (apply_dynamo_changes service w im c)
unfolding apply_dynamo_changes prepare filtered_changes
apply_dynamo_changes-HandsOurs service w im c =
    let id = im.owner_id in
    apply_prepared-HandsOurs service id w _ (
      prepare_rest-Ours service id (filtered_changes service im c) _
        (create_all-Gathered service id c.create
          (record { registry = im; endpoints = []; statements = [] }) (refl, tt))
        (filter_endpoints-IsOwned id c.update_old) (filter_endpoints-IsOwned id c.update_new)
        (filter_endpoints-IsOwned id c.delete))
