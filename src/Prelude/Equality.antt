-- ===== src/Prelude/Equality.antt =====
-- Go's `==` on the comparable types that serve as map keys.
use Prim.Native.Nat.{ℕ}
use mathlib.Core.Path.{◌≡◌, refl}
use mathlib.Core.Logic.{◌≢◌, ◌↔◌}
use mathlib.Core.Bool.{Bool, true, false, ◌&&◌}
use mathlib.Core.List.{List, [], ◌∷◌}
use native.Mathlib.Omega.{arith}
use external_dns.Prelude.Base.{eqb, eqb_iff}

infix 50 ◌==◌
-- a type whose values Go compares
pub record Comparable {ℓ} (Value : Type ℓ) : Type ℓ where
  pub equals : Value → Value → Bool
  pub equals_iff : (x y : Value) → (equals x y ≡ true) ↔ (x ≡ y)

abbrev pub ◌==◌ {ℓ} : {Value : Type ℓ} ⦃c : Comparable Value⦄ → Value → Value → Bool
◌==◌ ⦃c⦄ x y = c.equals x y

instance abbrev pub nat_eq : Comparable ℕ
nat_eq = record { equals_iff = eqb_iff; equals = eqb }

module _ {ℓ} {A : Type ℓ} ⦃e : Comparable A⦄ where
  pub same_refl : (a : A) → (a == a) ≡ true
  same_refl a = (e.equals_iff a a).1 refl

  pub same→eq : (a b : A) → (a == b) ≡ true → a ≡ b
  same→eq a b = (e.equals_iff a b).0

  pub ne→differ : (a b : A) → a ≢ b → (a == b) ≡ false
  ne→differ a b h = ground (arith, e.equals_iff a b)

-- A text is the list of its bytes.
abbrev pub Text : Type 0
Text = List ℕ

unfoldable pub text_beq : Text → Text → Bool
text_beq [] [] = true
text_beq [] (d ∷ t) = false
text_beq (c ∷ s) [] = false
text_beq (c ∷ s) (d ∷ t) = eqb c d && text_beq s t

pub text_beq_iff : (s t : Text) → (text_beq s t ≡ true) ↔ (s ≡ t)
unfolding text_beq
text_beq_iff [] [] = ground arith
text_beq_iff [] (d ∷ t) = ground arith
text_beq_iff (c ∷ s) [] = ground arith
text_beq_iff (c ∷ s) (d ∷ t) = ground (arith, text_beq_iff s t)

instance abbrev pub text_eq : Comparable Text
text_eq = record { equals = text_beq; equals_iff = text_beq_iff }
