-- ===== src/Prelude/Lists.antt =====
-- List helpers over the native numbers, and the predicate that holds of every element.
use Prim.Native.Nat.{ℕ, suc, ◌+◌}
use mathlib.Core.Path.{◌≡◌, refl}
use mathlib.Core.Logic.{inl, inr}
use mathlib.Core.Bool.{Bool, true, false}
use mathlib.Core.List.{List, [], ◌∷◌, ◌++◌, reverse, reverse-append}
use native.Mathlib.Omega.{arith}
use external_dns.Prelude.Base.{if◌then◌else◌, Bool-cases}

module _ {ℓ} {A : Type ℓ} where
  abbrev pub length : List A → ℕ
  length [] = 0
  length (x ∷ xs) = suc (length xs)

  abbrev pub is_nil : List A → Bool
  is_nil [] = true
  is_nil (x ∷ xs) = false

  pub is_nil-true : (xs : List A) → is_nil xs ≡ true → xs ≡ []
  is_nil-true [] h = refl
  is_nil-true (x ∷ xs) h = cc

  -- keeps the elements that pass a Boolean test
  unfoldable pub keep : (A → Bool) → List A → List A
  keep p [] = []
  keep p (x ∷ xs) = if p x then x ∷ keep p xs else keep p xs

  unfoldable pub any : (A → Bool) → List A → Bool
  any p [] = false
  any p (x ∷ xs) = if p x then true else any p xs

  -- `append(xs, x)`
  abbrev pub snoc : List A → A → List A
  snoc xs x = xs ++ x ∷ []

  pub length-append : (xs ys : List A) → length (xs ++ ys) ≡ length xs + length ys
  length-append [] ys = omega arith
  length-append (x ∷ xs) ys = omega (arith, length-append xs ys)

module _ {ℓ} {A : Type ℓ} where
  pub any-append :
      (p : A → Bool) (xs ys : List A) → any p (xs ++ ys) ≡ (if any p xs then true else any p ys)
  unfolding any
  any-append p [] ys = refl
  any-append p (x ∷ xs) ys = ground (arith, any-append p xs ys)

  pub keep-append : (p : A → Bool) (xs ys : List A) → keep p (xs ++ ys) ≡ keep p xs ++ keep p ys
  unfolding keep
  keep-append p [] ys = refl
  keep-append p (x ∷ xs) ys = ground (arith, keep-append p xs ys)

module _ {ℓ κ} {A : Type ℓ} (P : A → Type κ) where
  abbrev pub All : List A → Type κ
  All [] = Unit
  All (x ∷ xs) = P x × All xs

  pub All-append : (xs ys : List A) → All xs → All ys → All (xs ++ ys)
  All-append [] ys _ hy = hy
  All-append (x ∷ xs) ys (px, hx) hy = (px, All-append xs ys hx hy)

  pub All-append_left : (xs ys : List A) → All (xs ++ ys) → All xs
  All-append_left [] ys h = tt
  All-append_left (x ∷ xs) ys (px, h) = (px, All-append_left xs ys h)

  pub All-append_right : (xs ys : List A) → All (xs ++ ys) → All ys
  All-append_right [] ys h = h
  All-append_right (x ∷ xs) ys (px, h) = All-append_right xs ys h

  pub All-keep : (p : A → Bool) (xs : List A) → All xs → All (keep p xs)
  unfolding keep
  All-keep p [] h = tt
  All-keep p (x ∷ xs) (px, h) = elim (Bool-cases (p x)) [
    | inl t ↦ rw t (px, All-keep p xs h)
    | inr f ↦ rw f (All-keep p xs h)
  ]

  pub All-keep_test :
      (p : A → Bool) (sound : (x : A) → p x ≡ true → P x) (xs : List A) → All (keep p xs)
  unfolding keep
  All-keep_test p sound [] = tt
  All-keep_test p sound (x ∷ xs) = elim (Bool-cases (p x)) [
    | inl t ↦ rw t (sound x t, All-keep_test p sound xs)
    | inr f ↦ rw f (All-keep_test p sound xs)
  ]

  pub All-reverse : (xs : List A) → All xs → All (reverse xs)
  All-reverse [] h = tt
  All-reverse (x ∷ xs) (px, h) =
      rw (reverse-append (x ∷ []) xs) (All-append (reverse xs) (x ∷ []) (All-reverse xs h) (px, tt))

module _ {ℓ κ} {A : Type ℓ} where
  pub All-map : (P Q : A → Type κ) → ((x : A) → P x → Q x) → (xs : List A) → All P xs → All Q xs
  All-map P Q f [] h = tt
  All-map P Q f (x ∷ xs) (px, h) = (f x px, All-map P Q f xs h)

-- What a list holds is found in it.
pub All-any {ℓ} :
    {A : Type ℓ} (test : A → A → Bool)
    → ((x : A) → test x x ≡ true)
    → (xs : List A) → All (λ x. any (test x) xs ≡ true) xs
unfolding any
All-any test same [] = tt
All-any test same (x ∷ xs) =
    (rw (same x), All-map _ _ (λ y h. ground (arith, h)) xs (All-any test same xs))

pub All-unit {ℓ} : {A : Type ℓ} (xs : List A) → All (λ x. Unit {0}) xs
All-unit [] = tt
All-unit (x ∷ xs) = (tt, All-unit xs)
