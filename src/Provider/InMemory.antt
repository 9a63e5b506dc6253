-- ===== src/Provider/InMemory.antt =====
-- provider/inmemory/inmemory.go: zones of endpoints by key. A call checks a zone's whole batch
-- before it writes.
use mathlib.Core.List.{map}
use external_dns.Prelude.{
  Bool, List, Map, Option, Text, [], false, has_suffix, if◌then◌else◌, insert, int_eq, is_nil,
  length, lookup, ltb, nat_eq, none, not, remove, some, text_eq, true, ◌&&◌, ◌==◌, ◌∷◌,
}
use external_dns.Endpoint.Owner.{is_visited}
use external_dns.Endpoint.Types.{Endpoint, EndpointKey, Targets, key, key_eq}
use external_dns.Plan.Types.{Changes}

abbrev pub Zone : Type 0
Zone = Map EndpointKey Endpoint

abbrev pub Zones : Type 0
Zones = Map Text Zone

pub data ZoneError : Type 0 where
  zone_already_exists zone_not_found record_already_exists record_not_found : ZoneError
  -- a record is repeated in the batch
  duplicate_record_found : ZoneError
  -- the index of `Targets[0]` is out of range
  no_target : ZoneError

pub data Result (A : Type 0) : Type 0 where
  ok : A → Result A
  err : ZoneError → Result A

infixl 5 ◌>>=◌
abbrev pub ◌>>=◌ : {X Y : Type 0} → Result X → (X → Result Y) → Result Y
err reason >>= last = err reason
ok x >>= last = last x

-- `sets.Set` of keys
abbrev pub Mesh : Type 0
Mesh = Map EndpointKey (Unit {0})

unfoldable pub update_mesh : Endpoint → Mesh → Result Mesh
unfolding lookup insert
update_mesh r mesh =
    if is_visited (lookup (key r) mesh)
    then err duplicate_record_found
    else ok (insert (key r) tt mesh)

abbrev pub present : Option Endpoint → Bool
present none = false
present (some e) = true

unfoldable pub check_creates : Zone → List Endpoint → Mesh → Result Mesh
unfolding update_mesh
check_creates zone [] mesh = ok mesh
check_creates zone (e ∷ es) mesh =
    if present (lookup (key e) zone)
    then err record_already_exists
    else update_mesh e mesh >>= λ m. check_creates zone es m

unfoldable pub check_updates : Zone → List Endpoint → Mesh → Result Mesh
unfolding update_mesh
check_updates zone [] mesh = ok mesh
check_updates zone (e ∷ es) mesh =
    if not (present (lookup (key e) zone))
    then err record_not_found
    else update_mesh e mesh >>= λ m. check_updates zone es m

-- `rec.Targets[0] != e.Targets[0]`
abbrev pub first_differs : Targets → Targets → Result Bool
first_differs (t ∷ ts) (u ∷ us) = ok (not (t == u))
first_differs _ _ = err no_target

abbrev check_found : Option Endpoint → Endpoint → Result Bool
check_found none e = err record_not_found
check_found (some rec) e = first_differs rec.targets e.targets

unfoldable pub check_old : Zone → Endpoint → Result Bool
unfolding lookup
check_old zone e = check_found (lookup (key e) zone) e >>= λ differs.
    if differs then err record_not_found else ok true

unfoldable pub check_olds : Zone → List Endpoint → Result Bool
unfolding check_old
check_olds zone [] = ok true
check_olds zone (e ∷ es) = check_old zone e >>= λ b. check_olds zone es

unfoldable pub check_deletes : Zone → List Endpoint → Mesh → Result Mesh
unfolding check_old update_mesh
check_deletes zone [] mesh = ok mesh
check_deletes zone (e ∷ es) mesh =
    check_old zone e >>= λ b. update_mesh e mesh >>= λ m. check_deletes zone es m

-- `validateChangeBatch` of a zone that was found
unfoldable pub validate_zone : Zone → Changes → Result Mesh
unfolding check_creates check_updates check_olds check_deletes
validate_zone zone c = check_creates zone c.create [] >>= λ m.
    check_updates zone c.update_new m >>= λ n.
    check_olds zone c.update_old >>= λ b. check_deletes zone c.delete n

unfoldable pub put_all : List Endpoint → Zone → Zone
unfolding insert
put_all [] zone = zone
put_all (e ∷ es) zone = put_all es (insert (key e) e zone)

unfoldable pub remove_all : List Endpoint → Zone → Zone
unfolding remove
remove_all [] zone = zone
remove_all (e ∷ es) zone = remove_all es (remove (key e) zone)

-- the writes of `ApplyChanges` of the client
unfoldable pub write_changes : Changes → Zone → Zone
unfolding put_all remove_all
write_changes c zone = remove_all c.delete (put_all c.update_new (put_all c.create zone))

-- `inMemoryClient.ApplyChanges`
unfoldable pub client_apply_changes : Zones → Text → Changes → Result Zones
unfolding validate_zone write_changes
client_apply_changes zones zone_id c = elim (lookup zone_id zones) [
  | none ↦ err zone_not_found
  | some zone ↦ validate_zone zone c >>= λ m. ok (insert zone_id (write_changes c zone) zones)
]

-- `CreateZone`
unfoldable pub create_zone : Text → Zones → Result Zones
unfolding lookup insert
create_zone zone zones = elim (lookup zone zones) [
  | some z ↦ err zone_already_exists
  | none ↦ ok (insert zone [] zones)
]

-- `inMemoryClient.Records`: the endpoints of a zone
unfoldable pub client_records : Text → Zones → Result (List Endpoint)
unfolding lookup
client_records zone zones = elim (lookup zone zones) [
  | none ↦ err zone_not_found
  | some z ↦ ok (map (λ (e : EndpointKey × Endpoint). e.1) z)
]

-- `filter.EndpointZoneID`: a longer match replaces a shorter one
unfoldable pub zone_id_from : Text → Text → Text → Map Text Text → Text
unfolding has_suffix
zone_id_from dns_name id name [] = id
zone_id_from dns_name id name ((zone_id, zone_name) ∷ zones) =
    let better = has_suffix dns_name zone_name && ltb (length name) (length zone_name) in
    zone_id_from dns_name (if better then zone_id else id) (if better then zone_name else name)
      zones

unfoldable pub endpoint_zone_id : Endpoint → Map Text Text → Text
unfolding zone_id_from
endpoint_zone_id ep zones = zone_id_from ep.dns_name [] [] zones

-- `filter.Zones` of the client's zones, whose names are their ids
unfoldable pub zones_with_suffix : Text → Zones → Map Text Text
unfolding has_suffix
zones_with_suffix domain [] = []
zones_with_suffix domain ((z, eps) ∷ zs) =
    let rest = zones_with_suffix domain zs in if has_suffix z domain then (z, z) ∷ rest else rest

-- one of the four loops of `ApplyChanges`, for the zone that it is read for: an endpoint of no zone
-- is skipped
unfoldable pub zone_part : Map Text Text → Text → List Endpoint → List Endpoint
unfolding endpoint_zone_id
zone_part zones zone_id [] = []
zone_part zones zone_id (ep ∷ eps) =
    let rest = zone_part zones zone_id eps in
    let id = endpoint_zone_id ep zones in
    if is_nil id then rest else if id == zone_id then ep ∷ rest else rest

unfoldable pub per_zone_changes : Map Text Text → Text → Changes → Changes
unfolding zone_part
per_zone_changes zones zone_id c = record {
  create = zone_part zones zone_id c.create;
  update_old = zone_part zones zone_id c.update_old;
  update_new = zone_part zones zone_id c.update_new;
  delete = zone_part zones zone_id c.delete;
}

-- the loop over the zones: the zones as far as they were written, and the first error
unfoldable pub apply_zones :
    Map Text Text → Map Text Text → Changes → Zones → Zones × Option ZoneError
unfolding client_apply_changes per_zone_changes
apply_zones all [] c zones = (zones, none)
apply_zones all ((zone_id, zone_name) ∷ rest) c zones =
    elim (client_apply_changes zones zone_id (per_zone_changes all zone_id c)) [
      | err e ↦ (zones, some e)
      | ok zones' ↦ apply_zones all rest c zones'
    ]

-- `InMemoryProvider.ApplyChanges`, with the domain of the filter
unfoldable pub apply_changes : Text → Changes → Zones → Zones × Option ZoneError
unfolding apply_zones zones_with_suffix
apply_changes domain c zones =
    let found = zones_with_suffix domain zones in apply_zones found found c zones
