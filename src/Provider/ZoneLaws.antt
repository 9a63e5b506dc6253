-- ===== src/Provider/ZoneLaws.antt =====
-- The zone that provider/zonefinder.go finds.
use mathlib.Core.Path.{subst}
use native.Mathlib.Nat.{le_trans}
use external_dns.Prelude.{
  All, Bool, Bool-cases, Text, [], and-true, any, arith, false, if◌then◌else◌, inl, inr, int_eq,
  is_nil, length, ltb, nat_eq, refl, same_refl, sym, text_eq, true, ◌&&◌, ◌==◌, ◌||◌, ◌∷◌, ◌≡◌, ◌≤◌,
  ◌⊎◌,
}
use external_dns.Endpoint.Net.{Net}
use external_dns.Provider.ZoneFinder.{ZoneIdName, find_from, find_zone, is_zone_of, unicode_name}

-- The name is that of the zone or ends in a dot and the name of the zone.
abbrev pub Covers : Text → Text → Type 0
Covers host zone_name = is_zone_of host zone_name ≡ true

-- Every zone of the list that covers the host has a name that is not longer.
abbrev pub IsLongest : Text → Text → ZoneIdName → Type 0
IsLongest host best z = All (λ (e : Text × Text). Covers host e.1 → length e.1 ≤ length best) z

chosen-length :
    (host best zone_name : Text)
    → (length best
        ≤ length (
            if is_zone_of host zone_name && (is_nil best || ltb (length best) (length zone_name))
            then zone_name
            else best))
      × (Covers host zone_name
          → length zone_name
            ≤ length (
                if is_zone_of host zone_name
                  && (is_nil best || ltb (length best) (length zone_name))
                then zone_name
                else best))
chosen-length host [] zone_name = elim (Bool-cases (is_zone_of host zone_name)) [
  | inl e ↦ rw e (omega arith, λ _. omega arith)
  | inr e ↦ rw e (omega arith, λ c. absurd (ground (arith, e, c)))
]
chosen-length host (b ∷ best) zone_name = elim (Bool-cases (is_zone_of host zone_name)) [
  | inl e ↦ ground (arith, e)
  | inr e ↦ rw e (omega arith, λ c. absurd (ground (arith, e, c)))
]

find_from_mono :
    (host : Text) (z : ZoneIdName) (id best : Text)
    → length best ≤ length (find_from host id best z).1
unfolding find_from
find_from_mono host [] id best = omega arith
find_from_mono host ((zone_id, zone_name) ∷ z) id best =
    le_trans (chosen-length host best zone_name).0 (find_from_mono host z _ _)

find_from-IsLongest :
    (host : Text) (z : ZoneIdName) (id best : Text) → IsLongest host (find_from host id best z).1 z
unfolding find_from
find_from-IsLongest host [] id best = tt
find_from-IsLongest host ((zone_id, zone_name) ∷ z) id best = (
  λ c. le_trans ((chosen-length host best zone_name).1 c) (find_from_mono host z _ _),
  find_from-IsLongest host z _ _,
)

-- The zone is one of the list and covers the host.
abbrev pub IsZone : Text → ZoneIdName → Text × Text → Type 0
IsZone host z found = any (λ e. (e.0 == found.0 && e.1 == found.1) && is_zone_of host e.1) z ≡ true

-- The search ends where it began, or at a zone of the list that covers the host.
abbrev pub IsFound : Text → Text × Text → ZoneIdName → Text × Text → Type 0
IsFound host from z found = (found ≡ from) ⊎ IsZone host z found

IsZone-tail :
    (host : Text) (e : Text × Text) (z : ZoneIdName) (r : Text × Text)
    → IsZone host z r
    → IsZone host (e ∷ z) r
unfolding any
IsZone-tail host e z r h = ground (arith, h)

IsZone-head :
    (host : Text) (e : Text × Text) (z : ZoneIdName) → Covers host e.1 → IsZone host (e ∷ z) e
unfolding any
IsZone-head host e z c = rw (same_refl e.0, same_refl e.1, c)

-- what the search finds behind an entry that it chooses or passes over
chosen-IsFound :
    (host : Text) (from e : Text × Text) (z : ZoneIdName) (r : Text × Text) (better : Bool)
    → (better ≡ true → Covers host e.1)
    → IsFound host (if better then e.0 else from.0, if better then e.1 else from.1) z r
    → IsFound host from (e ∷ z) r
chosen-IsFound host from e z r false c (inl h) = inl h
chosen-IsFound host from e z r true c (inl h) =
    inr (subst (IsZone host (e ∷ z)) (sym h) (IsZone-head host e z (c refl)))
chosen-IsFound host from e z r better c (inr h) = inr (IsZone-tail host e z r h)

find_from-IsFound :
    (host : Text) (z : ZoneIdName) (id best : Text)
    → IsFound host (id, best) z (find_from host id best z)
unfolding find_from
find_from-IsFound host [] id best = inl refl
find_from-IsFound host ((zone_id, zone_name) ∷ z) id best =
    chosen-IsFound host (id, best) (zone_id, zone_name) z _ _
      (λ t. (and-true (is_zone_of host zone_name) _ t).0) (find_from-IsFound host z _ _)

-- The zone of a host name is one of the zones, its name is the host name in Unicode or a suffix of it
-- behind a dot, and no zone of which that holds has a longer name; or the result is empty, where at
-- most the empty name is such a suffix.
pub find_zone-IsLongest :
    ⦃net : Net⦄ (z : ZoneIdName) (host : Text)
    → IsFound (unicode_name host) ([], []) z (find_zone z host)
      × IsLongest (unicode_name host) (find_zone z host).1 z
unfolding find_zone
find_zone-IsLongest z host =
    (find_from-IsFound (unicode_name host) z [] [], find_from-IsLongest (unicode_name host) z [] [])
