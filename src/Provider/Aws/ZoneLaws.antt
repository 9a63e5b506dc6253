-- ===== src/Provider/Aws/ZoneLaws.antt =====
-- The zones that `suitableZones` of provider/aws/aws.go chooses for a host name.
use mathlib.Core.List.{Mem, append-nil, append_assoc, mem-cons_of_mem, mem-cons_self}
use external_dns.Prelude.{
  All, Bool, Bool-cases, List, Option, Text, [], arith, false, inl, inr, keep, length, ltb, none,
  not, refl, snoc, some, sym, true, ℕ, ◌&&◌, ◌++◌, ◌∙◌, ◌∷◌, ◌≡◌, ◌≤◌, ◌⊎◌,
}
use external_dns.Endpoint.Targets.{same}
use external_dns.Provider.Aws.Types.{ProfiledZone}
use external_dns.Provider.Aws.Zones.{
  HostedZones, better_public, covers_host, is_private, suitable_from, suitable_zones, with_public,
}

-- a zone of the host that is not private
abbrev pub is_public_of : Text → ProfiledZone → Bool
is_public_of hostname z = covers_host hostname z && not (is_private z)

abbrev pub is_private_of : Text → ProfiledZone → Bool
is_private_of hostname z = covers_host hostname z && is_private z

abbrev pub zones_in : HostedZones → List ProfiledZone
zones_in [] = []
zones_in ((id, z) ∷ zones) = z ∷ zones_in zones

-- There is a zone, and its name has at least that many bytes.
abbrev pub IsAsLong : ℕ → Option ProfiledZone → Type 0
IsAsLong n none = ⊥
IsAsLong n (some z) = n ≤ length z.name

-- A longest one of the public zones that cover the host, or none where there is none.
pub record IsBestPublic (hostname : Text) (zones : List ProfiledZone) (best : Option ProfiledZone)
    : Type 0 where
  pub chosen :
      (best ≡ none)
      ⊎ ((z : ProfiledZone) × (best ≡ some z) × Mem z zones × (is_public_of hostname z ≡ true))
  pub longest : All (λ z. is_public_of hostname z ≡ true → IsAsLong (length z.name) best) zones

-- what a search that starts at one zone ends at
record IsSearched (hostname : Text) (zones : List ProfiledZone) (from best : Option ProfiledZone)
    : Type 0 where
  chosen :
      (best ≡ from)
      ⊎ ((z : ProfiledZone) × (best ≡ some z) × Mem z zones × (is_public_of hostname z ≡ true))
  keeps : (n : ℕ) → IsAsLong n from → IsAsLong n best
  longest : All (λ z. is_public_of hostname z ≡ true → IsAsLong (length z.name) best) zones

better_public-IsAsLong :
    (z : ProfiledZone) (best : Option ProfiledZone)
    → IsAsLong (length z.name) (better_public z best)
better_public-IsAsLong z none = omega arith
better_public-IsAsLong z (some b) = elim (Bool-cases (ltb (length b.name) (length z.name))) [
  | inl e ↦ rw e (omega arith)
  | inr e ↦ rw e (ground (arith, e))
]

better_public-keeps :
    (z : ProfiledZone) (best : Option ProfiledZone) (n : ℕ)
    → IsAsLong n best
    → IsAsLong n (better_public z best)
better_public-keeps z none n h = elim h [ ]
better_public-keeps z (some b) n h = elim (Bool-cases (ltb (length b.name) (length z.name))) [
  | inl e ↦ rw e (ground (arith, e, h))
  | inr e ↦ rw e h
]

better_public-chosen :
    (z : ProfiledZone) (best : Option ProfiledZone)
    → (better_public z best ≡ best) ⊎ (better_public z best ≡ some z)
better_public-chosen z none = inr refl
better_public-chosen z (some b) = elim (Bool-cases (ltb (length b.name) (length z.name))) [
  | inl e ↦ inr (rw e refl)
  | inr e ↦ inl (rw e refl)
]

-- the search behind a zone, from what it chose there
IsSearched-step :
    (hostname : Text) (z : ProfiledZone) (zones : List ProfiledZone)
    (from after best : Option ProfiledZone)
    → (after ≡ from) ⊎ ((after ≡ some z) × (is_public_of hostname z ≡ true))
    → ((n : ℕ) → IsAsLong n from → IsAsLong n after)
    → (is_public_of hostname z ≡ true → IsAsLong (length z.name) after)
    → IsSearched hostname zones after best
    → IsSearched hostname (z ∷ zones) from best
IsSearched-step hostname z zones from after best kind keeps reaches s = record {
  chosen = elim s.chosen [
    | inr (w, e, m, p) ↦ inr (w, e, mem-cons_of_mem z m, p)
    | inl e ↦ elim kind [
      | inl same ↦ inl (e ∙ same)
      | inr (new, p) ↦ inr (z, e ∙ new, mem-cons_self, p)
    ]
  ];
  keeps = λ n h. s.keeps n (keeps n h);
  longest = (λ p. s.keeps (length z.name) (reaches p), s.longest);
}

-- the three ways of the loop's body
module _ (hostname id : Text) (z : ProfiledZone) (zones : HostedZones)
    (matching : List ProfiledZone) (from : Option ProfiledZone) where
  suitable_from-apart :
      covers_host hostname z ≡ false
      → suitable_from hostname ((id, z) ∷ zones) matching from
        ≡ suitable_from hostname zones matching from
  unfolding suitable_from
  suitable_from-apart apart = rw (suitable_from, apart) refl

  suitable_from-private :
      covers_host hostname z ≡ true
      → is_private z ≡ true
      → suitable_from hostname ((id, z) ∷ zones) matching from
        ≡ suitable_from hostname zones (snoc matching z) from
  unfolding suitable_from
  suitable_from-private covered private = rw (suitable_from, covered, private) refl

  suitable_from-public :
      covers_host hostname z ≡ true
      → is_private z ≡ false
      → suitable_from hostname ((id, z) ∷ zones) matching from
        ≡ suitable_from hostname zones matching (better_public z from)
  unfolding suitable_from
  suitable_from-public covered public = rw (suitable_from, covered, public) refl

suitable_from-IsSearched :
    (hostname : Text) (zones : HostedZones) (matching : List ProfiledZone)
    (from : Option ProfiledZone)
    → (best : Option ProfiledZone) × (suitable_from hostname zones matching from
        ≡ with_public (matching ++ keep (is_private_of hostname) (zones_in zones)) best)
      × IsSearched hostname (zones_in zones) from best
unfolding suitable_from keep
suitable_from-IsSearched hostname [] matching from =
    (from, rw (append-nil) refl, record { chosen = inl refl; keeps = λ n h. h; longest = tt })
suitable_from-IsSearched hostname ((id, z) ∷ zones) matching from =
    elim (Bool-cases (covers_host hostname z)) [
      | inr apart ↦
          let (best, e, s) = suitable_from-IsSearched hostname zones matching from in
          (
            best,
            suitable_from-apart hostname id z zones matching from apart ∙ rw apart e,
            IsSearched-step hostname z (zones_in zones) from from best (inl refl) (λ n h. h)
                (λ p. absurd (ground (arith, apart, p))) s,
          )
      | inl covered ↦ elim (Bool-cases (is_private z)) [
        | inl private ↦
            let (best, e, s) = suitable_from-IsSearched hostname zones (snoc matching z) from in
            (
              best,
              suitable_from-private hostname id z zones matching from covered private
                  ∙ rw (covered, private)
                      (rw
                        (sym (
                          append_assoc matching (z ∷ [])
                            (keep (is_private_of hostname) (zones_in zones))))
                        e),
              IsSearched-step hostname z (zones_in zones) from from best (inl refl) (λ n h. h)
                  (λ p. absurd (ground (arith, private, p))) s,
            )
        | inr public ↦
            let (best, e, s) =
              suitable_from-IsSearched hostname zones matching (better_public z from) in
            (
              best,
              suitable_from-public hostname id z zones matching from covered public
                  ∙ rw (covered, public) e,
              IsSearched-step hostname z (zones_in zones) from (better_public z from) best
                  (elim (better_public-chosen z from) [
                    | inl same ↦ inl same
                    | inr new ↦ inr (new, rw (covered, public) refl)
                  ])
                  (better_public-keeps z from) (λ p. better_public-IsAsLong z from) s,
            )
      ]
    ]

-- The zones of a host name are the private zones that cover it, in the order of the walk, and behind
-- them one public zone that covers it, a longest one, unless no public zone does.
pub suitable_zones-IsBestPublic :
    (hostname : Text) (zones : HostedZones)
    → (best : Option ProfiledZone) × (suitable_zones hostname zones
        ≡ with_public (keep (is_private_of hostname) (zones_in zones)) best)
      × IsBestPublic hostname (zones_in zones) best
unfolding suitable_zones
suitable_zones-IsBestPublic hostname zones =
    let (best, e, s) = suitable_from-IsSearched hostname zones [] none in
    (best, e, record { chosen = s.chosen; longest = s.longest })
