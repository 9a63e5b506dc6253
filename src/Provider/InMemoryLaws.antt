-- ===== src/Provider/InMemoryLaws.antt =====
-- What an accepted batch of the in-memory provider does to a zone, and what it is accepted for
-- (provider/inmemory/inmemory.go).
use external_dns.Prelude.{
  List, Option, Text, [], any, arith, if◌then◌else◌, insert, int_eq, lookup, lookup-insert,
  lookup-insert_self, lookup-remove, nat_eq, none, refl, remove, some, sym, text_beq_iff, text_eq,
  ◌∷◌, ◌≡◌, ◌≢◌,
}
use external_dns.Endpoint.OwnerLaws.{has_key}
use external_dns.Endpoint.Types.{Endpoint, EndpointKey, key, key_eq}
use external_dns.Plan.Types.{Changes}
use external_dns.Provider.InMemory.{
  Mesh, Result, Zone, Zones, client_apply_changes, err, ok, put_all, remove_all, validate_zone,
  write_changes, zone_not_found, ◌>>=◌,
}

-- the last endpoint of the list with the key
abbrev pub last_with : EndpointKey → List Endpoint → Option Endpoint
last_with k [] = none
last_with k (e ∷ es) = elim (last_with k es) [
  | some f ↦ some f
  | none ↦ if has_key k e then some e else none
]

abbrev pub or_then : Option Endpoint → Option Endpoint → Option Endpoint
or_then none o = o
or_then (some e) o = some e

lookup-put_all :
    (k : EndpointKey) (es : List Endpoint) (zone : Zone)
    → lookup k (put_all es zone) ≡ or_then (last_with k es) (lookup k zone)
unfolding put_all
lookup-put_all k [] zone = refl
lookup-put_all k (e ∷ es) zone =
    ground (arith, lookup-put_all k es (insert (key e) e zone), lookup-insert (key e) k e zone)

lookup-remove_all :
    (k : EndpointKey) (es : List Endpoint) (zone : Zone)
    → lookup k (remove_all es zone) ≡ (if any (has_key k) es then none else lookup k zone)
unfolding remove_all any
lookup-remove_all k [] zone = refl
lookup-remove_all k (e ∷ es) zone =
    ground (arith, lookup-remove_all k es (remove (key e) zone), lookup-remove (key e) k zone)

-- what the zone holds under a key after the batch
abbrev pub after_batch : Changes → Zone → EndpointKey → Option Endpoint
after_batch c zone k =
    if any (has_key k) c.delete
    then none
    else or_then (last_with k c.update_new) (or_then (last_with k c.create) (lookup k zone))

lookup-write_changes :
    (c : Changes) (zone : Zone) (k : EndpointKey)
    → lookup k (write_changes c zone) ≡ after_batch c zone k
unfolding write_changes
lookup-write_changes c zone k = ground (
  arith,
  lookup-remove_all k c.delete (put_all c.update_new (put_all c.create zone)),
  lookup-put_all k c.update_new (put_all c.create zone),
  lookup-put_all k c.create zone,
)

abbrev pub zone_or_empty : Option Zone → Zone
zone_or_empty none = []
zone_or_empty (some z) = z

pub ok-injective : {A : Type 0} (a b : A) → ok a ≡ ok b → a ≡ b
ok-injective a b h = cc

pub >>=-eq-ok :
    {X Y : Type 0} (first : Result X) (last : X → Result Y) (y : Y)
    → (first >>= last) ≡ ok y
    → (x : X) × (first ≡ ok x) × (last x ≡ ok y)
>>=-eq-ok (err reason) last y h = cc
>>=-eq-ok (ok x) last y h = (x, refl, h)

-- what an accepted call did: the zone was there and valid, and only it was written
pub client_apply_changes-ok :
    (zones zones' : Zones) (zone_id : Text) (c : Changes)
    → client_apply_changes zones zone_id c ≡ ok zones'
    → (zone : Zone) × (lookup zone_id zones ≡ some zone)
      × ((m : Mesh) × (validate_zone zone c ≡ ok m))
      × (zones' ≡ insert zone_id (write_changes c zone) zones)
unfolding client_apply_changes
client_apply_changes-ok zones zones' zone_id c h = go (lookup zone_id zones) refl
  where
    go :
        (found : Option Zone)
        → lookup zone_id zones ≡ found
        → (zone : Zone) × (lookup zone_id zones ≡ some zone)
          × ((m : Mesh) × (validate_zone zone c ≡ ok m))
          × (zones' ≡ insert zone_id (write_changes c zone) zones)
    go none e =
        let bad : err zone_not_found ≡ ok zones' = rw (e, client_apply_changes) at h in cc bad
    go (some zone) e =
        let r = >>=-eq-ok (validate_zone zone c) _ zones' (rw (e, client_apply_changes) at h) in
        (zone, e, (r.0, r.1), sym (ok-injective _ zones' r.2))

-- An accepted batch writes one zone: afterwards a key holds nothing if it was deleted, else what was
-- written last for it, else what it held; and every other zone is as it was.
pub client_apply_changes-after_batch :
    (zones zones' : Zones) (zone_id : Text) (c : Changes)
    → client_apply_changes zones zone_id c ≡ ok zones'
    → ((k : EndpointKey)
        → lookup k (zone_or_empty (lookup zone_id zones'))
          ≡ after_batch c (zone_or_empty (lookup zone_id zones)) k)
      × ((other : Text) → other ≢ zone_id → lookup other zones' ≡ lookup other zones)
client_apply_changes-after_batch zones zones' zone_id c h =
    let r = client_apply_changes-ok zones zones' zone_id c h in
    let zone = r.0 in
    (
      λ k.
          rw (r.3, lookup-insert_self zone_id (write_changes c zone) zones, r.1)
            (lookup-write_changes c zone k),
      λ other ne. rw r.3 (
          ground (
            arith,
            lookup-insert zone_id other (write_changes c zone) zones,
            text_beq_iff zone_id other,
          )),
    )
