-- ===== src/Registry/Dynamo/NoPanic.antt =====
-- `ApplyChanges` of registry/dynamodb/registry.go returns, with an error or without, while the labels
-- are there and the table answers as documented.
use external_dns.Prelude.{
  All, All-append, All-unit, Bool, List, Map, Option, [], false, if-both, if◌then◌else◌, int_eq,
  lookup, nat_eq, none, some, text_eq, true, ◌∷◌, ◌≢◌,
}
use external_dns.Endpoint.Net.{Net}
use external_dns.Endpoint.Types.{Endpoint, EndpointKey, Labels, key, key_eq}
use external_dns.Plan.Types.{Changes}
use external_dns.Registry.Dynamo.Apply.{
  Prepared, after_provider, after_writes, apply_dynamo_changes, apply_prepared, as_applied,
  delete_entries, delete_orphans, delete_statements, filtered_changes, prepare, prepare_rest,
  prepared,
}
use external_dns.Registry.Dynamo.Execute.{log_statement, parameter, respond}
use external_dns.Registry.Dynamo.ExecuteRule.{Answers, Within, execute_statements-Within}
use external_dns.Registry.Dynamo.HandlerLaws.{
  found-Within, handle_delete-Within, handle_write-Within,
}
use external_dns.Registry.Dynamo.Handlers.{Creating, handle_delete, handle_write, key_parameter}
use external_dns.Registry.Dynamo.KeyLaws.{to_dynamo_key-no_panic}
use external_dns.Registry.Dynamo.Keys.{malformed_key}
use external_dns.Registry.Dynamo.Loops.{
  Gathering, adopt, cache_endpoint, caching, claimed, create_all, create_one, create_statements,
  delete_all, forget_labels, gather, is_migrating, labels_known, need_migration, old_labels_of,
  uncache_all, update_all, update_one,
}
use external_dns.Registry.Dynamo.Read.{LabelTable}
use external_dns.Registry.Dynamo.SafeLaws.{
  Known, Surely, Surely-bind, Writes, append_insert-Writes, append_update-Writes, delete_all-Known,
  delete_statement-Writes, uncache_all-Known, write_labels-Known,
}
use external_dns.Registry.Dynamo.Statements.{append_delete, delete_statement}
use external_dns.Registry.Dynamo.Types.{
  BatchError, DynamoRegistry, Progress, Service, Statement, done, panicked, stopped, unfinished,
}

module _ (service : Service) where
  open service use {Value, World, batch_execute}

  -- The labels are there, and every statement has what is read of it.
  abbrev Ready : Gathering service → Type 0
  Ready s = Known s.registry × All (Writes service) s.statements

  cache_endpoint-Known :
      (r : Endpoint) (im : DynamoRegistry) → Known im → Known (cache_endpoint r im)
  cache_endpoint-Known r im h = if-both Known (caching im) _ im h h

  gather-Ready :
      (r : Endpoint) (eps : List Endpoint) (qs : List (Statement Value)) (o : Option DynamoRegistry)
      → Surely Known o
      → All (Writes service) qs
      → Surely Ready (gather service r eps qs o)
  gather-Ready r eps qs none h hq = h
  gather-Ready r eps qs (some im) h hq = (cache_endpoint-Known r im h, hq)

  create_statements-Writes :
      (im : DynamoRegistry) (qs : List (Statement Value)) (r : Endpoint) (o : Option Labels)
      → All (Writes service) qs
      → All (Writes service) (create_statements service im qs r o)
  create_statements-Writes im qs r none h = append_insert-Writes service im (key r) qs _ h
  create_statements-Writes im qs r (some old) h = append_update-Writes service im (key r) qs old _ h

  create_all-Ready :
      (rs : List Endpoint) (s : Gathering service)
      → Ready s
      → Surely Ready (create_all service s rs)
  unfolding create_all create_one
  create_all-Ready [] s h = h
  create_all-Ready (r ∷ rs) s (known, hq) = Surely-bind Ready _ _ _ (create_all-Ready rs) (
      gather-Ready _ s.endpoints _ _
        (write_labels-Known (key r) _
          (adopt service (claimed service s.registry r) (labels_known (key r) s.registry.labels)
            s.registry)
          s.registry.labels known)
        (create_statements-Writes s.registry s.statements (claimed service s.registry r)
          (labels_known (key r) s.registry.labels) hq))

  update_all-Ready :
      (old : LabelTable) (marked : Map EndpointKey (Unit {0})) (rs : List Endpoint)
      (s : Gathering service)
      → Ready s
      → Surely Ready (update_all service old marked s rs)
  unfolding update_all update_one
  update_all-Ready old marked [] s h = h
  update_all-Ready old marked (r ∷ rs) s (known, hq) =
      Surely-bind Ready _ _ _ (update_all-Ready old marked rs) (
        gather-Ready r s.endpoints _ _
          (write_labels-Known (key r) _
            (if is_migrating (lookup (key r) marked)
              then record s.registry { records_cache = none }
              else s.registry)
            s.registry.labels known)
          (if-both (All (Writes service)) (is_migrating (lookup (key r) marked)) _ _
            (append_insert-Writes service s.registry (key r) s.statements _ hq)
            (append_update-Writes service s.registry (key r) s.statements _ _ hq)))

  abbrev Deletes : Statement Value → Type 0
  Deletes q = Writes service q × (key_parameter service (parameter 0 q.parameters) ≢ malformed_key)

  append_delete-Deletes :
      (im : DynamoRegistry) (qs : List (Statement Value)) (k : EndpointKey)
      → All Deletes qs
      → All Deletes (append_delete service im qs k)
  unfolding append_delete delete_statement parameter
  append_delete-Deletes im qs k h =
      All-append Deletes qs (_ ∷ []) h
        ((delete_statement-Writes service im k, to_dynamo_key-no_panic service k), tt)

  delete_statements-Deletes :
      (im : DynamoRegistry) (rs : List Endpoint) (qs : List (Statement Value))
      → All Deletes qs
      → All Deletes (delete_statements service im qs rs)
  unfolding delete_statements
  delete_statements-Deletes im [] qs h = h
  delete_statements-Deletes im (r ∷ rs) qs h =
      delete_statements-Deletes im rs _ (append_delete-Deletes im qs (key r) h)

  delete_orphans-Deletes :
      (orphans : Map EndpointKey (Unit {0})) (im : DynamoRegistry) (qs : List (Statement Value))
      → All Deletes qs
      → All Deletes (delete_orphans service im qs orphans).1
  unfolding delete_orphans
  delete_orphans-Deletes [] im qs h = h
  delete_orphans-Deletes ((k, u) ∷ orphans) im qs h =
      delete_orphans-Deletes orphans (forget_labels k im) _ (append_delete-Deletes im qs k h)

  -- An error has a message.
  abbrev pub HasMessage : Option BatchError → Type 0
  HasMessage none = Unit
  HasMessage (some e) = e.message ≢ none

  log-safe :
      {S : Type 0} (I : S → Type 0) (q : Statement Value) (s : S)
      → Writes service q
      → I s
      → Within I ⊥ (log_statement service q s)
  unfolding log_statement
  log-safe I q s hq h =
      if-both (Within I ⊥) _ _ _
        (found-Within service I ⊥ (parameter 1 q.parameters) s hq.second_given h)
        (found-Within service I ⊥ (parameter 0 q.parameters) s hq.first_given h)

  abbrev Trivial : {S : Type 0} → S → Type 0
  Trivial s = Unit

  handle_write-safe :
      ⦃net : Net⦄ (s : Creating) (q : Statement Value) (r : Option BatchError)
      → Writes service q
      → HasMessage r
      → Within
          (λ (s : Creating). All (Trivial {S = Endpoint}) s.1)
          ⊥
          (respond service (handle_write service) q r s)
  handle_write-safe s q none hq he =
      log-safe (λ (s : Creating). All Trivial s.1) q s hq (All-unit s.1)
  handle_write-safe s q (some e) hq he =
      handle_write-Within service Trivial ⊥ q e
        (record {
          first_there = hq.first_given;
          second_there = λ f. hq.second_given;
          key_there = hq.key_given;
          message_there = he;
        })
        s (All-unit s.1)

  handle_delete-safe :
      (im : DynamoRegistry) (q : Statement Value) (r : Option BatchError)
      → Deletes q
      → HasMessage r
      → Within (Trivial {S = DynamoRegistry}) ⊥ (respond service (handle_delete service) q r im)
  handle_delete-safe im q none hq he = log-safe Trivial q im hq.0 tt
  handle_delete-safe im q (some e) hq he = handle_delete-Within service ⊥ im q e hq.1 he

  -- It returns, with an error or without.
  abbrev pub Returns : {S : Type 0} → Progress S → Type 0
  Returns p = Within (λ s. Unit {0}) ⊥ p

  module _
      (answers : (w : World) (c : List (Statement Value))
        → Answers service ⊥ HasMessage c (batch_execute w c).1) where
    as_applied-Returns :
        (c : Option Changes) (p : Progress (World × DynamoRegistry))
        → Returns p
        → Returns (as_applied service c p)
    as_applied-Returns c (done s) h = tt
    as_applied-Returns c (stopped s e) h = tt
    as_applied-Returns c panicked h = h
    as_applied-Returns c unfinished h = h

    after_provider-Returns :
        (im : DynamoRegistry) (c : Changes) (o : World × Bool)
        → Returns (after_provider service im c o)
    unfolding delete_entries
    after_provider-Returns im c (w, false) = tt
    after_provider-Returns im c (w, true) =
        let (im', statements) =
          delete_orphans service im (delete_statements service im [] c.delete) im.orphaned_labels in
        as_applied-Returns (some c) _ (
          execute_statements-Within service Trivial ⊥ Deletes HasMessage (handle_delete service)
            (λ s q r hq he hs. handle_delete-safe s q r hq he) statements w im' answers
            (delete_orphans-Deletes im.orphaned_labels im _
              (delete_statements-Deletes im c.delete [] tt))
            tt)

    after_writes-Returns :
        (c : Changes) (p : Progress (World × Creating))
        → Within (λ (x : World × Creating). All (Trivial {S = Endpoint}) x.1.1) ⊥ p
        → Returns (after_writes service c p)
    after_writes-Returns c (done (w, (im, create))) h = after_provider-Returns im _ _
    after_writes-Returns c (stopped (w, (im, create)) e) h = tt
    after_writes-Returns c panicked h = h
    after_writes-Returns c unfinished h = h

    apply_prepared-Returns :
        ⦃net : Net⦄ (w : World) (o : Option (Prepared service))
        → Surely (λ (p : Prepared service). All (Writes service) p.gathered.statements) o
        → Returns (apply_prepared service w o)
    apply_prepared-Returns w none h = h
    apply_prepared-Returns w (some p) h = after_writes-Returns p.changes _ (
        execute_statements-Within service (λ (s : Creating). All (Trivial {S = Endpoint}) s.1) ⊥
          (Writes service) HasMessage (handle_write service)
          (λ s q r hq he hs. handle_write-safe s q r hq he) p.gathered.statements w
          (p.gathered.registry, p.changes.create) answers h (All-unit p.changes.create))

  prepared-Writes :
      (create delete update_old : List Endpoint) (o : Option (Gathering service))
      → Surely Ready o
      → Surely
          (λ (p : Prepared service). All (Writes service) p.gathered.statements)
          (prepared service create delete update_old o)
  prepared-Writes create delete update_old none h = h
  prepared-Writes create delete update_old (some s) h = h.1

  prepare_rest-Writes :
      ⦃net : Net⦄ (c : Changes) (o : Option (Gathering service))
      → Surely Ready o
      → Surely
          (λ (p : Prepared service). All (Writes service) p.gathered.statements)
          (prepare_rest service c o)
  prepare_rest-Writes c none h = h
  prepare_rest-Writes c (some s) h =
      let (deleted, im) = delete_all service s.registry c.delete in
      let (olds, im') = uncache_all service im c.update_old in
      prepared-Writes _ _ _ _ (
        update_all-Ready (old_labels_of service c.update_old [])
          (need_migration service c.update_old []) c.update_new
          (record { registry = im'; endpoints = []; statements = s.statements })
          (
            uncache_all-Known service c.update_old im
                (delete_all-Known service c.delete s.registry h.0),
            h.1,
          ))

-- While the labels are there, as `Records` leaves them, `ApplyChanges` neither panics nor runs out
-- of fuel, whatever the changes are, if the table answers a batch with no more responses than it
-- has statements, and each error with a message.
pub apply_dynamo_changes-Returns :
    ⦃net : Net⦄ (service : Service)
    (answers : (w : service.World) (c : List (Statement service.Value))
      → Answers service ⊥ (HasMessage service) c (service.batch_execute w c).1)
    (w : service.World) (im : DynamoRegistry) (c : Changes)
    → Known im
    → Returns service (apply_dynamo_changes service w im c)
unfolding apply_dynamo_changes prepare
apply_dynamo_changes-Returns service answers w im c known =
    apply_prepared-Returns service answers w _ (
      prepare_rest-Writes service (filtered_changes service im c) _ (
        create_all-Ready service _ (record { registry = im; endpoints = []; statements = [] })
          (known, tt)))
