-- ===== src/Provider/Aws/BatchLaws.antt =====
-- The sizes of the batches of provider/aws/aws.go.
use mathlib.Core.List.{reverse, reverse-append}
use external_dns.Prelude.{
  All, Bool, Bool-cases, List, Map, Text, [], and-true, arith, if-both, if-cases, inl, inr, int_eq,
  leb→le, length, length-append, lookup, ltb, nat_eq, refl, text_eq, true, ℕ, ◌++◌, ◌+◌, ◌∷◌, ◌≡◌,
  ◌≤◌,
}
use external_dns.Endpoint.SortLaws.{length-insertion_sort}
use external_dns.Endpoint.Targets.{insertion_sort, sift, sort_from}
use external_dns.Provider.Aws.Batch.{
  Limits, batch_change_set, batch_groups, change_less, changes_or_none, count_change_bytes,
  count_change_values, fits, fits_with, group_changes, sort_changes_by_action_name_type,
}
use external_dns.Provider.Aws.Types.{Route53Change, Route53Changes}

-- the sum of a measure over a list
unfoldable pub total {ℓ} : {A : Type ℓ} → (A → ℕ) → List A → ℕ
total f [] = 0
total f (x ∷ xs) = f x + total f xs

module _ {ℓ} {A : Type ℓ} (f : A → ℕ) where
  total-append : (xs ys : List A) → total f (xs ++ ys) ≡ total f xs + total f ys
  unfolding total
  total-append [] ys = omega arith
  total-append (x ∷ xs) ys = omega (arith, total-append xs ys)

  total-reverse : (xs : List A) → total f (reverse xs) ≡ total f xs
  unfolding total
  total-reverse [] = refl
  total-reverse (x ∷ xs) =
      rw (reverse-append (x ∷ []) xs)
        (omega (arith, total-append (reverse xs) (x ∷ []), total-reverse xs))

  module _ (less : A → A → Bool) where
    total-sift : (x : A) (before : List A) → total f (sift less x before) ≡ f x + total f before
    unfolding total sift
    total-sift x [] = refl
    total-sift x (y ∷ before) = elim (Bool-cases (less x y)) [
      | inl e ↦ rw e (omega (arith, total-sift x before))
      | inr e ↦ rw e refl
    ]

    total-sort_from :
        (before xs : List A) → total f (sort_from less before xs) ≡ total f before + total f xs
    unfolding total sort_from
    total-sort_from before [] = omega (arith, total-reverse before)
    total-sort_from before (x ∷ xs) =
        omega (arith, total-sort_from (sift less x before) xs, total-sift x before)

    pub total-insertion_sort : (xs : List A) → total f (insertion_sort less xs) ≡ total f xs
    unfolding total insertion_sort
    total-insertion_sort xs = omega (arith, total-sort_from [] xs)

bytes_of : Route53Change → ℕ
bytes_of c = c.size_bytes

values_of : Route53Change → ℕ
values_of c = c.size_values

bytes-total : (cs : Route53Changes) → count_change_bytes cs ≡ total bytes_of cs
unfolding count_change_bytes total bytes_of
bytes-total [] = refl
bytes-total (c ∷ cs) = omega (arith, bytes-total cs)

values-total : (cs : Route53Changes) → count_change_values cs ≡ total values_of cs
unfolding count_change_values total values_of
values-total [] = refl
values-total (c ∷ cs) = omega (arith, values-total cs)

-- A batch keeps the limits on its changes, bytes and values.
pub record InLimits (l : Limits) (b : Route53Changes) : Type 0 where
  pub size_bound : length b ≤ l.size
  pub bytes_bound : count_change_bytes b ≤ l.bytes
  pub values_bound : count_change_values b ≤ l.values

sort-InLimits :
    (l : Limits) (cs : Route53Changes)
    → InLimits l cs
    → InLimits l (sort_changes_by_action_name_type cs)
unfolding sort_changes_by_action_name_type
sort-InLimits l cs h =
    let sorted = insertion_sort change_less cs in
    record {
      size_bound = omega (arith, h.size_bound, length-insertion_sort change_less cs);
      bytes_bound = omega (
        arith,
        h.bytes_bound,
        bytes-total cs,
        bytes-total sorted,
        total-insertion_sort bytes_of change_less cs,
      );
      values_bound = omega (
        arith,
        h.values_bound,
        values-total cs,
        values-total sorted,
        total-insertion_sort values_of change_less cs,
      );
    }

fits-InLimits : (l : Limits) (cs : Route53Changes) → fits l cs ≡ true → InLimits l cs
fits-InLimits l cs h =
    let (hs, rest) = and-true _ _ h in
    let (hb, hv) = and-true _ _ rest in
    record {
      size_bound = leb→le (length cs) l.size hs;
      bytes_bound = leb→le (count_change_bytes cs) l.bytes hb;
      values_bound = leb→le (count_change_values cs) l.values hv;
    }

fits_with-InLimits :
    (l : Limits) (current v : Route53Changes)
    → fits_with l current v ≡ true
    → InLimits l (current ++ v)
fits_with-InLimits l current v h =
    let (hs, rest) = and-true _ _ h in
    let (hb, hv) = and-true _ _ rest in
    record {
      size_bound = omega (arith, leb→le _ l.size hs, length-append current v);
      bytes_bound = omega (
        arith,
        leb→le _ l.bytes hb,
        bytes-total current,
        bytes-total v,
        bytes-total (current ++ v),
        total-append bytes_of current v,
      );
      values_bound = omega (
        arith,
        leb→le _ l.values hv,
        values-total current,
        values-total v,
        values-total (current ++ v),
        total-append values_of current v,
      );
    }

batch_groups-InLimits :
    (l : Limits) (groups : Map Text Route53Changes) (names : List Text) (current : Route53Changes)
    → InLimits l current
    → All (InLimits l) (batch_groups l groups names current)
unfolding batch_groups
batch_groups-InLimits l groups [] current h =
    if-both (All (InLimits l)) (ltb 0 (length current)) (_ ∷ []) [] (sort-InLimits l current h, tt)
      tt
batch_groups-InLimits l groups (name ∷ names) current h =
    let v = changes_or_none (lookup name groups) in
    elim (Bool-cases (fits l v)) [
      | inr e ↦ rw (e, batch_groups) (batch_groups-InLimits l groups names current h)
      | inl e ↦ elim (Bool-cases (fits_with l current v)) [
        | inr f ↦
            rw (e, f, batch_groups)
              (
                sort-InLimits l current h,
                batch_groups-InLimits l groups names v (fits-InLimits l v e),
              )
        | inl f ↦
            rw (e, f, batch_groups)
              (batch_groups-InLimits l groups names (current ++ v)
                (fits_with-InLimits l current v f))
      ]
    ]

-- Every batch that is made of a set of changes keeps the limits on the number of changes, on the
-- bytes of their values and on the number of their values.
pub batch_change_set-InLimits :
    (l : Limits) (cs : Route53Changes) → All (InLimits l) (batch_change_set l cs)
unfolding batch_change_set count_change_bytes count_change_values
batch_change_set-InLimits l cs =
    if-cases (All (InLimits l)) (fits l cs) (_ ∷ []) _
      (λ e. (sort-InLimits l cs (fits-InLimits l cs e), tt))
      (λ e. batch_groups-InLimits l (group_changes cs) _ [] (record {
        size_bound = omega arith;
        bytes_bound = omega arith;
        values_bound = omega arith;
      }))
