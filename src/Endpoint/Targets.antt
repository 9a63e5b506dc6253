-- ===== src/Endpoint/Targets.antt =====
-- `Targets.Less`, `Same` and `IsLess` of endpoint/endpoint.go. The methods sort both lists in place,
-- so they return the lists beside the answer. The sort is Go's insertion sort, which `sort.Stable`
-- and `sort.Sort` run on up to 20 and 12 elements.
use mathlib.Core.List.{reverse}
use external_dns.Prelude.{
  Bool, List, Option, Text, [], eqb, false, if◌then◌else◌, int_eq, length, ltb, nat_eq, none, some,
  text_eq, text_ltb, true, ◌==◌, ◌∷◌,
}
use external_dns.Endpoint.Net.{Net}
use external_dns.Endpoint.Types.{Targets, key_eq}

-- `for j := i; j > 0 && less(j, j-1); j--`: the sorted prefix stands in reverse
unfoldable pub sift {ℓ} : {A : Type ℓ} → (A → A → Bool) → A → List A → List A
sift less x [] = x ∷ []
sift less x (y ∷ before) = if less x y then y ∷ sift less x before else x ∷ y ∷ before

unfoldable pub sort_from {ℓ} : {A : Type ℓ} → (A → A → Bool) → List A → List A → List A
unfolding sift
sort_from less before [] = reverse before
sort_from less before (x ∷ xs) = sort_from less (sift less x before) xs

unfoldable pub insertion_sort {ℓ} : {A : Type ℓ} → (A → A → Bool) → List A → List A
unfolding sort_from
insertion_sort less xs = sort_from less [] xs

module _ ⦃net : Net⦄ where
  open net use {Addr, parse_addr, addr_string, addr_less, equal_fold}

  -- `Targets.Less`, of the two elements
  unfoldable pub target_less : Text → Text → Bool
  target_less a b = elim (parse_addr a) [
    | none ↦ text_ltb a b
    | some ipi ↦ elim (parse_addr b) [
      | none ↦ text_ltb a b
      | some ipj ↦ text_ltb (addr_string ipi) (addr_string ipj)
    ]
  ]

  unfoldable pub sort_targets : Targets → Targets
  unfolding insertion_sort target_less
  sort_targets t = insertion_sort target_less t

  abbrev same_addr : Option Addr → Option Addr → Bool
  same_addr (some a) (some b) = addr_string a == addr_string b
  same_addr _ _ = false

  -- the loop of `Same` over two lists of one length
  unfoldable pub same_from : Targets → Targets → Bool
  same_from [] o = true
  same_from (e ∷ t) [] = true
  same_from (e ∷ t) (f ∷ o) =
      let rest = same_from t o in
      if equal_fold e f then rest else same_addr (parse_addr e) (parse_addr f)

  -- `Targets.Same`
  unfoldable pub same : Targets → Targets → Bool × Targets × Targets
  unfolding sort_targets same_from
  same t o =
      if eqb (length t) (length o)
      then (same_from (sort_targets t) (sort_targets o), sort_targets t, sort_targets o)
      else (false, t, o)

  abbrev less_addr : Option Addr → Option Addr → Bool → Bool
  less_addr (some a) (some b) d = addr_less a b
  less_addr (some a) none d = true
  less_addr none (some b) d = false
  less_addr none none d = d

  -- the loop of `IsLess`: the first two targets that differ decide
  unfoldable pub is_less_from : Targets → Targets → Bool
  is_less_from [] o = false
  is_less_from (e ∷ t) [] = false
  is_less_from (e ∷ t) (f ∷ o) =
      let rest = is_less_from t o in
      if e == f then rest else less_addr (parse_addr e) (parse_addr f) (text_ltb e f)

  -- `Targets.IsLess`
  unfoldable pub is_less : Targets → Targets → Bool × Targets × Targets
  unfolding sort_targets is_less_from
  is_less t o =
      if ltb (length t) (length o)
      then (true, t, o)
      else if ltb (length o) (length t)
      then (false, t, o)
      else (is_less_from (sort_targets t) (sort_targets o), sort_targets t, sort_targets o)
