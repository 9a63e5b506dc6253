-- ===== src/Endpoint/SortLaws.antt =====
-- The insertion sort keeps the elements of its list: `sort.Strings` and the sorts of targets.
use mathlib.Core.List.{reverse, reverse-append}
use external_dns.Prelude.{
  All, All-reverse, Bool, List, [], any, any-append, arith, if-both, if◌then◌else◌, int_eq, length,
  length-append, nat_eq, refl, suc, text_eq, true, ◌+◌, ◌∷◌, ◌≡◌,
}
use external_dns.Endpoint.Targets.{insertion_sort, sift, sort_from}

any-cons_swap {ℓ} :
    {A : Type ℓ} (p : A → Bool) (x y : A) (xs : List A) → any p (x ∷ y ∷ xs) ≡ any p (y ∷ x ∷ xs)
unfolding any
any-cons_swap p x y xs = ground arith

module _ {ℓ} {A : Type ℓ} (p : A → Bool) (less : A → A → Bool) where
  any-sift : (x : A) (before : List A) → any p (sift less x before) ≡ any p (x ∷ before)
  unfolding sift any
  any-sift x [] = refl
  any-sift x (y ∷ before) = ground (arith, any-sift x before)

  any-reverse : (xs : List A) → any p (reverse xs) ≡ any p xs
  unfolding any
  any-reverse [] = refl
  any-reverse (x ∷ xs) =
      rw (reverse-append (x ∷ []) xs)
        (ground (arith, any-append p (reverse xs) (x ∷ []), any-reverse xs))

  any-sort_from :
      (before xs : List A)
      → any p (sort_from less before xs) ≡ (if any p before then true else any p xs)
  unfolding sort_from any
  any-sort_from before [] = ground (arith, any-reverse before)
  any-sort_from before (x ∷ xs) =
      ground (arith, any-sort_from (sift less x before) xs, any-sift x before)

  pub any-insertion_sort : (xs : List A) → any p (insertion_sort less xs) ≡ any p xs
  unfolding insertion_sort any
  any-insertion_sort xs = ground (arith, any-sort_from [] xs)

module _ {ℓ κ} {A : Type ℓ} (P : A → Type κ) (less : A → A → Bool) where
  All-sift : (x : A) (before : List A) → P x → All P before → All P (sift less x before)
  unfolding sift
  All-sift x [] hx h = (hx, tt)
  All-sift x (y ∷ before) hx (hy, h) =
      if-both (All P) (less x y) (y ∷ sift less x before) (x ∷ y ∷ before)
        (hy, All-sift x before hx h) (hx, (hy, h))

  All-sort_from : (before xs : List A) → All P before → All P xs → All P (sort_from less before xs)
  unfolding sort_from
  All-sort_from before [] hb h = All-reverse P before hb
  All-sort_from before (x ∷ xs) hb (hx, h) =
      All-sort_from (sift less x before) xs (All-sift x before hx hb) h

  pub All-insertion_sort : (xs : List A) → All P xs → All P (insertion_sort less xs)
  unfolding insertion_sort
  All-insertion_sort xs h = All-sort_from [] xs tt h

module _ {ℓ} {A : Type ℓ} (less : A → A → Bool) where
  length-sift : (x : A) (before : List A) → length (sift less x before) ≡ suc (length before)
  unfolding sift
  length-sift x [] = refl
  length-sift x (y ∷ before) = ground (arith, length-sift x before)

  length-reverse : (xs : List A) → length (reverse xs) ≡ length xs
  length-reverse [] = refl
  length-reverse (x ∷ xs) =
      rw (reverse-append (x ∷ []) xs)
        (omega (arith, length-append (reverse xs) (x ∷ []), length-reverse xs))

  length-sort_from :
      (before xs : List A) → length (sort_from less before xs) ≡ length before + length xs
  unfolding sort_from
  length-sort_from before [] = omega (arith, length-reverse before)
  length-sort_from before (x ∷ xs) =
      omega (arith, length-sort_from (sift less x before) xs, length-sift x before)

  pub length-insertion_sort : (xs : List A) → length (insertion_sort less xs) ≡ length xs
  unfolding insertion_sort
  length-insertion_sort xs = omega (arith, length-sort_from [] xs)
