-- ===== src/Provider/RefineLaws.antt =====
-- The in-memory client of provider/inmemory/inmemory.go as an implementation of a store that forgets
-- how zones are represented: which zones there are, and what is held under each key.
use mathlib.Core.Path.{subst}
use external_dns.Prelude.{
  Bool, Bool-cases, List, Option, Option-cases, Text, [], any, ap, arith, false, if◌then◌else◌, inl,
  inr, insert, int_eq, lookup, lookup-insert, lookup-insert_self, nat_eq, none, refl, same_refl,
  same→eq, some, sym, text_eq, true, ◌==◌, ◌∙◌, ◌∷◌, ◌≡◌,
}
use external_dns.Endpoint.OwnerLaws.{has_key}
use external_dns.Endpoint.Types.{EndpointKey, key_eq}
use external_dns.Plan.Types.{Changes}
use external_dns.Provider.AcceptLaws.{
  Allowed, View, validate_zone-Allowed, validate_zone-passes, view_of,
}
use external_dns.Provider.InMemory.{
  Mesh, Result, Zone, Zones, client_apply_changes, err, ok, validate_zone, write_changes,
}
use external_dns.Provider.InMemoryLaws.{
  client_apply_changes-after_batch, client_apply_changes-ok, last_with, or_then, zone_or_empty,
}

pub record Store : Type 0 where
  pub has_zone : Text → Bool
  pub held : Text → View

abbrev pub is_there : Option Zone → Bool
is_there none = false
is_there (some z) = true

-- what the client holds
unfoldable pub store_of : Zones → Store
unfolding lookup
store_of zones = record {
  has_zone = λ zone_id. is_there (lookup zone_id zones);
  held = λ zone_id. view_of (zone_or_empty (lookup zone_id zones));
}

-- The store allows a batch on a zone that there is, by what it holds.
abbrev pub Allows : Store → Text → Changes → Type 0
Allows s zone_id c = (s.has_zone zone_id ≡ true) × Allowed (s.held zone_id) c

-- a batch on a store: a deleted key is gone, then the last update, then the last creation counts
unfoldable pub store_step : Text → Changes → Store → Store
unfolding any
store_step zone_id c s = record {
  has_zone = s.has_zone;
  held = λ other k.
      let written =
        if any (has_key k) c.delete
        then none
        else or_then (last_with k c.update_new)
            (or_then (last_with k c.create) (s.held zone_id k)) in
      if zone_id == other then written else s.held other k;
}

-- The store over a sequence of batches: it takes one that it allows, and stays as it is at any other.
pub data StoreRun : List (Text × Changes) → Store → Store → Type 0 where
  finished : {s : Store} → StoreRun [] s s
  taken :
      {zone_id : Text} {c : Changes} {bs : List (Text × Changes)} {s t : Store}
      → Allows s zone_id c
      → StoreRun bs (store_step zone_id c s) t
      → StoreRun ((zone_id, c) ∷ bs) s t
  refused :
      {zone_id : Text} {c : Changes} {bs : List (Text × Changes)} {s t : Store}
      → (Allows s zone_id c → ⊥)
      → StoreRun bs s t
      → StoreRun ((zone_id, c) ∷ bs) s t

-- the zones after a call: a batch that is refused leaves them
abbrev pub zones_after : Zones → Result Zones → Zones
zones_after zones (ok zones') = zones'
zones_after zones (err e) = zones

-- the client over a sequence of calls of `ApplyChanges`
unfoldable pub client_run : List (Text × Changes) → Zones → Zones
unfolding client_apply_changes
client_run [] zones = zones
client_run ((zone_id, c) ∷ bs) zones =
    client_run bs (zones_after zones (client_apply_changes zones zone_id c))

-- an accepted batch is allowed
accepted-Allows :
    (zones zones' : Zones) (zone_id : Text) (c : Changes)
    → client_apply_changes zones zone_id c ≡ ok zones'
    → Allows (store_of zones) zone_id c
unfolding store_of
accepted-Allows zones zones' zone_id c h =
    let (zone, e, (m, v), w) = client_apply_changes-ok zones zones' zone_id c h in
    rw e (refl, validate_zone-Allowed zone c m v)

accepted_zone :
    (zones : Zones) (zone : Zone) (zone_id : Text) (c : Changes) (m : Mesh)
    → lookup zone_id zones ≡ some zone
    → validate_zone zone c ≡ ok m
    → client_apply_changes zones zone_id c ≡ ok (insert zone_id (write_changes c zone) zones)
unfolding client_apply_changes
accepted_zone zones zone zone_id c m e v = rw (client_apply_changes, e, v) refl

-- an allowed batch is accepted
Allows-accepted :
    (zones : Zones) (zone_id : Text) (c : Changes)
    → Allows (store_of zones) zone_id c
    → (zones' : Zones) × (client_apply_changes zones zone_id c ≡ ok zones')
unfolding store_of client_apply_changes
Allows-accepted zones zone_id c (there, a) = elim (Option-cases (lookup zone_id zones)) [
  | inl e ↦ absurd (ground (arith, rw e at there))
  | inr (zone, e) ↦
      let (m, v) = validate_zone-passes zone c (rw e at a) in
      (insert zone_id (write_changes c zone) zones, accepted_zone zones zone zone_id c m e v)
]

-- a call makes no zone and removes none
is_there-kept :
    (zones zones' : Zones) (zone_id : Text) (c : Changes)
    → client_apply_changes zones zone_id c ≡ ok zones'
    → (other : Text) → is_there (lookup other zones') ≡ is_there (lookup other zones)
is_there-kept zones zones' zone_id c h other =
    let (zone, e, v, w) = client_apply_changes-ok zones zones' zone_id c h in
    elim (Bool-cases (zone_id == other)) [
      | inl t ↦
          let same_zone = same→eq zone_id other t in
          rw (← same_zone, w, lookup-insert_self zone_id (write_changes c zone) zones, e) refl
      | inr f ↦ rw (w, lookup-insert zone_id other (write_changes c zone) zones, f) refl
    ]

-- and it is a step of the store
accepted-step :
    (zones zones' : Zones) (zone_id : Text) (c : Changes)
    → client_apply_changes zones zone_id c ≡ ok zones'
    → store_of zones' ≡ store_step zone_id c (store_of zones)
unfolding store_of store_step
accepted-step zones zones' zone_id c e =
    let (here_too, elsewhere) = client_apply_changes-after_batch zones zones' zone_id c e in
    let held : (other : Text) (k : EndpointKey)
        → (store_of zones').held other k ≡ (store_step zone_id c (store_of zones)).held other k =
      λ other k. elim (Bool-cases (zone_id == other)) [
        | inl t ↦ rw t (
            ap (λ z. lookup k (zone_or_empty (lookup z zones'))) (sym (same→eq zone_id other t))
            ∙ here_too k)
        | inr f ↦ rw f (
            ap (λ o. lookup k (zone_or_empty o))
              (elsewhere other λ same_zone. ground (arith, f, same_refl zone_id, same_zone)))
      ] in
    λ i. record {
      has_zone = λ other. is_there-kept zones zones' zone_id c e other i;
      held = λ other k. held other k i;
    }

one_call :
    (zones : Zones) (zone_id : Text) (c : Changes) (bs : List (Text × Changes)) (r : Result Zones)
    → client_apply_changes zones zone_id c ≡ r
    → StoreRun bs (store_of (zones_after zones r)) (store_of (client_run bs (zones_after zones r)))
    → StoreRun ((zone_id, c) ∷ bs) (store_of zones) (store_of (client_run bs (zones_after zones r)))
one_call zones zone_id c bs (err e) h later =
    refused
      (λ a.
        let (zones', good) = Allows-accepted zones zone_id c a in
        let bad : err e ≡ ok zones' = sym h ∙ good in cc bad)
      later
one_call zones zone_id c bs (ok zones') h later = taken (accepted-Allows zones zones' zone_id c h) (
    subst (λ s. StoreRun bs s (store_of (client_run bs zones')))
      (accepted-step zones zones' zone_id c h) later)

-- The in-memory client implements the store: over any sequence of calls it takes exactly the batches
-- that the store allows by what it holds, leaves the zones at any other, and holds in the end what the
-- store holds. A batch is allowed on a zone that there is, if it creates absent keys, updates present
-- ones, deletes records and replaces old ones that are there with the same first target, and names no
-- key twice. The panic at a record without targets counts as a refusal.
pub client_run-StoreRun :
    (bs : List (Text × Changes)) (zones : Zones)
    → StoreRun bs (store_of zones) (store_of (client_run bs zones))
unfolding client_run
client_run-StoreRun [] zones = finished
client_run-StoreRun ((zone_id, c) ∷ bs) zones =
    one_call zones zone_id c bs (client_apply_changes zones zone_id c) refl
      (client_run-StoreRun bs (zones_after zones (client_apply_changes zones zone_id c)))
