-- ===== src/Prelude/Affix.antt =====
-- Prefixes, suffixes and case: what `strings.HasPrefix` and its relatives answer.
use mathlib.Core.Path.{◌≡◌, refl, ap}
use mathlib.Core.List.{[], ◌∷◌, ◌++◌}
use mathlib.Core.Logic.{inl, inr}
use mathlib.Core.Option.{Option, none, some}
use mathlib.Core.Bool.{true, false}
use Prim.Native.Nat.{ℕ}
use native.Mathlib.Omega.{arith}
use external_dns.Prelude.Base.{eqb_iff, Option-cases}
use external_dns.Prelude.Equality.{Text, text_beq_iff}
use external_dns.Prelude.Strings.{
  cut_prefix, has_prefix, trim_prefix, cut_suffix, has_suffix, trim_suffix, lower, to_lower,
}

cut_prefix-append : (p s : Text) → cut_prefix (p ++ s) p ≡ some s
unfolding cut_prefix
cut_prefix-append [] s = refl
cut_prefix-append (c ∷ p) s = ground (arith, eqb_iff c c, cut_prefix-append p s)

pub has_prefix-append : (p s : Text) → has_prefix (p ++ s) p ≡ true
unfolding has_prefix
has_prefix-append p s = rw (cut_prefix-append p s, has_prefix)

pub trim_prefix-append : (p s : Text) → trim_prefix (p ++ s) p ≡ s
unfolding trim_prefix
trim_prefix-append p s = rw (cut_prefix-append p s, trim_prefix)

cut_suffix-eq : (s p r : Text) → cut_suffix s p ≡ some r → s ≡ r ++ p
unfolding cut_suffix
cut_suffix-eq [] p r h = ground (arith, text_beq_iff [] p)
cut_suffix-eq (c ∷ s) p r h = elim (Option-cases (cut_suffix s p)) [
  | inl e ↦ ground (arith, text_beq_iff (c ∷ s) p, e, h)
  | inr (q, e) ↦ ground (arith, text_beq_iff (c ∷ s) p, e, h, cut_suffix-eq s p q e)
]

-- A text that has a suffix ends in it.
pub has_suffix-eq : (s p : Text) → has_suffix s p ≡ true → (r : Text) × (s ≡ r ++ p)
unfolding has_suffix
has_suffix-eq s p h = go (cut_suffix s p) refl
  where
    go : (o : Option Text) → cut_suffix s p ≡ o → (r : Text) × (s ≡ r ++ p)
    go none e = ground (arith, e, h)
    go (some r) e = (r, cut_suffix-eq s p r e)

cut_suffix_self : (p : Text) → cut_suffix p p ≡ some []
unfolding cut_suffix
cut_suffix_self [] = refl
cut_suffix_self (c ∷ p) = ground (arith, text_beq_iff (c ∷ p) (c ∷ p))

pub has_suffix-append : (r p : Text) → has_suffix (r ++ p) p ≡ true
unfolding has_suffix cut_suffix
has_suffix-append [] p = rw (has_suffix, cut_suffix_self p) refl
has_suffix-append (c ∷ r) p = ground (arith, has_suffix-append r p)

-- A text that lacks a suffix stays as it is when the suffix is trimmed.
pub trim_suffix-none : (s p : Text) → has_suffix s p ≡ false → trim_suffix s p ≡ s
unfolding has_suffix trim_suffix
trim_suffix-none s p h = ground (arith, h)

lower_idem : (c : ℕ) → lower (lower c) ≡ lower c
unfolding lower
lower_idem c = ground arith

pub to_lower_idem : (s : Text) → to_lower (to_lower s) ≡ to_lower s
unfolding to_lower
to_lower_idem [] = refl
to_lower_idem (c ∷ s) = ground (arith, lower_idem c, to_lower_idem s)

pub to_lower-append : (s t : Text) → to_lower (s ++ t) ≡ to_lower s ++ to_lower t
unfolding to_lower
to_lower-append [] t = refl
to_lower-append (c ∷ s) t = ap (λ r. lower c ∷ r) (to_lower-append s t)
