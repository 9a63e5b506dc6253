-- ===== src/Registry/Dynamo/OwnerLaws.antt =====
-- Whose records `ApplyChanges` of registry/dynamodb/registry.go hands to the provider.
use mathlib.Core.Path.{subst}
use external_dns.Prelude.{
  All, All-append, List, Map, Option, Text, [], if-both, if◌then◌else◌, int_eq, lookup, nat_eq,
  none, some, text_eq, ◌&&◌, ◌==◌, ◌∷◌, ◌≡◌,
}
use external_dns.Endpoint.Net.{Net}
use external_dns.Endpoint.Owner.{is_owned_by}
use external_dns.Endpoint.OwnerLaws.{IsOwned}
use external_dns.Endpoint.Targets.{same}
use external_dns.Endpoint.Types.{Endpoint, EndpointKey, Labels, key, key_eq}
use external_dns.Plan.Types.{Changes}
use external_dns.Registry.Apply.{remove_entry, remove_from_cache}
use external_dns.Registry.ApplyLaws.{Whenever-bind}
use external_dns.Registry.Dynamo.Loops.{
  Gathering, adopt, cache_endpoint, caching, claimed, create_all, create_one, delete_all,
  forget_labels, gather, is_migrating, labels_known, uncache, uncache_all, update_all, update_one,
  write_labels,
}
use external_dns.Registry.Dynamo.Read.{LabelTable}
use external_dns.Registry.Dynamo.Types.{DynamoRegistry, Service, Statement}
use external_dns.Registry.GenerateLaws.{Whenever, written-IsOwned}

-- Every record of the changes carries the owner's label.
pub record Ours (owner_id : Text) (c : Changes) : Type 0 where
  pub create : All (IsOwned owner_id) c.create
  pub update_old : All (IsOwned owner_id) c.update_old
  pub update_new : All (IsOwned owner_id) c.update_new
  pub delete : All (IsOwned owner_id) c.delete

abbrev pub OwnerIs : Text → DynamoRegistry → Type 0
OwnerIs owner_id im = im.owner_id ≡ owner_id

write_labels-OwnerIs :
    (owner_id : Text) (k : EndpointKey) (m : Labels) (im : DynamoRegistry) (o : Option LabelTable)
    → OwnerIs owner_id im
    → Whenever (OwnerIs owner_id) (write_labels k m im o)
write_labels-OwnerIs owner_id k m im none h = tt
write_labels-OwnerIs owner_id k m im (some known) h = h

cache_endpoint-OwnerIs :
    (owner_id : Text) (r : Endpoint) (im : DynamoRegistry)
    → OwnerIs owner_id im
    → OwnerIs owner_id (cache_endpoint r im)
cache_endpoint-OwnerIs owner_id r im h = if-both (OwnerIs owner_id) (caching im) _ im h h

module _ (service : Service) (owner_id : Text) where
  adopt-OwnerIs :
      (r : Endpoint) (o : Option Labels) (im : DynamoRegistry)
      → OwnerIs owner_id im
      → OwnerIs owner_id (adopt service r o im)
  adopt-OwnerIs r none im h = h
  adopt-OwnerIs r (some old) im h = h

  abbrev pub Gathered : (DynamoRegistry → Type 0) → Gathering service → Type 0
  Gathered R s = R s.registry × All (IsOwned owner_id) s.endpoints

  gather-Gathered :
      (R : DynamoRegistry → Type 0) (r : Endpoint) (eps : List Endpoint)
      (qs : List (Statement service.Value)) (o : Option DynamoRegistry)
      → ((im : DynamoRegistry) → R im → R (cache_endpoint r im))
      → Whenever R o
      → IsOwned owner_id r
      → All (IsOwned owner_id) eps
      → Whenever (Gathered R) (gather service r eps qs o)
  gather-Gathered R r eps qs none cached_too hr own h = tt
  gather-Gathered R r eps qs (some im) cached_too hr own h =
      (cached_too im hr, All-append (IsOwned owner_id) eps (r ∷ []) h (own, tt))

  claimed-IsOwned :
      (im : DynamoRegistry) (r : Endpoint)
      → OwnerIs owner_id im
      → IsOwned owner_id (claimed service im r)
  claimed-IsOwned im r h =
      subst (λ i. IsOwned i (claimed service im r)) h (written-IsOwned im.owner_id r)

  create_one-Gathered :
      (s : Gathering service) (r : Endpoint)
      → Gathered (OwnerIs owner_id) s
      → IsOwned owner_id r
      → Whenever (Gathered (OwnerIs owner_id)) (create_one service s r)
  unfolding create_one
  create_one-Gathered s r (hr, h) own =
      gather-Gathered (OwnerIs owner_id) r s.endpoints _ _ (cache_endpoint-OwnerIs owner_id r)
        (write_labels-OwnerIs owner_id (key r) _
          (adopt service r (labels_known (key r) s.registry.labels) s.registry) s.registry.labels
          (adopt-OwnerIs r _ s.registry hr))
        own h

  pub create_all-Gathered :
      (rs : List Endpoint) (s : Gathering service)
      → Gathered (OwnerIs owner_id) s
      → Whenever (Gathered (OwnerIs owner_id)) (create_all service s rs)
  unfolding create_all
  create_all-Gathered [] s h = h
  create_all-Gathered (r ∷ rs) s h =
      Whenever-bind (Gathered (OwnerIs owner_id)) _ _ _ (create_all-Gathered rs)
        (create_one-Gathered s (claimed service s.registry r) h (claimed-IsOwned s.registry r h.0))

  abbrev pub Anything : DynamoRegistry → Type 0
  Anything im = Unit

  write_labels-Anything :
      (k : EndpointKey) (m : Labels) (im : DynamoRegistry) (o : Option LabelTable)
      → Whenever Anything (write_labels k m im o)
  write_labels-Anything k m im none = tt
  write_labels-Anything k m im (some known) = tt

  pub update_all-Gathered :
      (old : LabelTable) (marked : Map EndpointKey (Unit {0})) (rs : List Endpoint)
      (s : Gathering service)
      → All (IsOwned owner_id) rs
      → Gathered Anything s
      → Whenever (Gathered Anything) (update_all service old marked s rs)
  unfolding update_all update_one
  update_all-Gathered old marked [] s hrs h = h
  update_all-Gathered old marked (r ∷ rs) s (own, hrs) h =
      Whenever-bind (Gathered Anything) _ _ _ (λ s' h'. update_all-Gathered old marked rs s' hrs h')
        (gather-Gathered Anything r s.endpoints _ _ (λ im u. tt)
          (write_labels-Anything (key r) _
            (if is_migrating (lookup (key r) marked)
              then record s.registry { records_cache = none }
              else s.registry)
            s.registry.labels)
          own h.1)

-- the targets that `removeFromCache` sorts do not tell the owner
module _ ⦃net : Net⦄ (owner_id : Text) where
  remove_entry-IsOwned :
      (es : List Endpoint) (r : Endpoint)
      → IsOwned owner_id r
      → IsOwned owner_id (remove_entry r es).0
  unfolding remove_entry is_owned_by
  remove_entry-IsOwned [] r h = h
  remove_entry-IsOwned (e ∷ es) r h =
      let pts = (same e.targets r.targets).2 in
      let P = λ (p : Endpoint × List Endpoint). IsOwned owner_id p.0 in
      if-both P
        (e.dns_name == r.dns_name
          && (e.record_type == r.record_type && e.set_identifier == r.set_identifier))
        _ (_, e ∷ (remove_entry r es).1)
        (if-both P (same e.targets r.targets).0 (_, es) _ h
          (remove_entry-IsOwned es (record r { targets = pts }) h))
        (remove_entry-IsOwned es r h)

  remove_from_cache-IsOwned :
      (r : Endpoint) (cache : Option (List Endpoint))
      → IsOwned owner_id r
      → IsOwned owner_id (remove_from_cache r cache).0
  unfolding remove_from_cache
  remove_from_cache-IsOwned r none h = h
  remove_from_cache-IsOwned r (some es) h = remove_entry-IsOwned es r h

  module _ (service : Service) where
    uncache-IsOwned :
        (r : Endpoint) (im : DynamoRegistry)
        → IsOwned owner_id r
        → IsOwned owner_id (uncache service r im).0
    unfolding uncache
    uncache-IsOwned r im h =
        if-both (λ (p : Endpoint × DynamoRegistry). IsOwned owner_id p.0) (caching im) _ (r, im)
          (remove_from_cache-IsOwned r im.records_cache h) h

    pub uncache_all-IsOwned :
        (rs : List Endpoint) (im : DynamoRegistry)
        → All (IsOwned owner_id) rs
        → All (IsOwned owner_id) (uncache_all service im rs).0
    unfolding uncache_all
    uncache_all-IsOwned [] im h = tt
    uncache_all-IsOwned (r ∷ rs) im (own, h) =
        (uncache-IsOwned r im own, uncache_all-IsOwned rs (uncache service r im).1 h)

    pub delete_all-IsOwned :
        (rs : List Endpoint) (im : DynamoRegistry)
        → All (IsOwned owner_id) rs
        → All (IsOwned owner_id) (delete_all service im rs).0
    unfolding delete_all
    delete_all-IsOwned [] im h = tt
    delete_all-IsOwned (r ∷ rs) im (own, h) = (
      uncache-IsOwned r (forget_labels (key r) im) own,
      delete_all-IsOwned rs (uncache service r (forget_labels (key r) im)).1 h,
    )
