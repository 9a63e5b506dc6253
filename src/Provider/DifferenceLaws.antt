-- ===== src/Provider/DifferenceLaws.antt =====
-- What `Difference` of provider/provider.go adds, removes and leaves.
use mathlib.Core.List.{map}
use external_dns.Prelude.{
  Bool, Bool-cases, List, Map, Text, [], any, any-append, ap, arith, false, inl, inr, insert,
  int_eq, lookup, lookup-insert, lookup-remove, nat_eq, not, refl, remove, same→eq, text_eq, true,
  ◌&&◌, ◌++◌, ◌==◌, ◌||◌, ◌∷◌, ◌≡◌,
}
use external_dns.Endpoint.Owner.{is_visited}
use external_dns.Provider.Difference.{difference, difference_from, index_of}

-- The text is one of the list.
abbrev pub listed_in : Text → List Text → Bool
listed_in x xs = any (λ y. y == x) xs

lookup-index_of :
    (x : Text) (xs : List Text) (index : Map Text (Unit {0}))
    → is_visited (lookup x (index_of xs index)) ≡ (listed_in x xs || is_visited (lookup x index))
unfolding index_of any
lookup-index_of x [] index = refl
lookup-index_of x (y ∷ xs) index =
    ground (arith, lookup-index_of x xs (insert y tt index), lookup-insert y x tt index)

abbrev held : Text → Map Text (Unit {0}) → Bool
held x index = is_visited (lookup x index)

held-keys :
    (x : Text) (index : Map Text (Unit {0}))
    → listed_in x (map (λ (e : Text × Unit {0}). e.0) index) ≡ held x index
unfolding any lookup
held-keys x [] = refl
held-keys x ((y, u) ∷ index) = ground (arith, held-keys x index)

held-remove :
    (d x : Text) (index : Map Text (Unit {0}))
    → held x (remove d index) ≡ (not (d == x) && held x index)
held-remove d x index = ground (arith, lookup-remove d x index)

held-same :
    (d x : Text) (index : Map Text (Unit {0})) → (d == x) ≡ true → held d index ≡ held x index
held-same d x index e = ap (λ y. held y index) (same→eq d x e)

-- what the loop removes is what the index has and the list has not
to_remove-eq :
    (x : Text) (ds : List Text) (index : Map Text (Unit {0})) (add leave : List Text)
    → listed_in x (difference_from index add leave ds).to_remove
      ≡ (held x index && not (listed_in x ds))
unfolding difference_from any
to_remove-eq x [] index add leave = ground (arith, held-keys x index)
to_remove-eq x (d ∷ ds) index add leave = elim (Bool-cases (is_visited (lookup d index))) [
  | inl e ↦
      rw (e, difference_from)
        (ground
          (arith, to_remove-eq x ds (remove d index) add (leave ++ d ∷ []), held-remove d x index))
  | inr e ↦
      rw (e, difference_from)
        (ground (
          arith,
          e,
          to_remove-eq x ds (remove d index) (add ++ d ∷ []) leave,
          held-remove d x index,
          held-same d x index,
        ))
]

to_leave-eq :
    (x : Text) (ds : List Text) (index : Map Text (Unit {0})) (add leave : List Text)
    → listed_in x (difference_from index add leave ds).to_leave
      ≡ (listed_in x leave || (held x index && listed_in x ds))
unfolding difference_from any
to_leave-eq x [] index add leave = ground arith
to_leave-eq x (d ∷ ds) index add leave = elim (Bool-cases (is_visited (lookup d index))) [
  | inl e ↦
      rw (e, difference_from)
        (ground (
          arith,
          e,
          to_leave-eq x ds (remove d index) add (leave ++ d ∷ []),
          any-append (λ y. y == x) leave (d ∷ []),
          held-remove d x index,
          held-same d x index,
        ))
  | inr e ↦
      rw (e, difference_from)
        (ground (
          arith,
          e,
          to_leave-eq x ds (remove d index) (add ++ d ∷ []) leave,
          held-remove d x index,
          held-same d x index,
        ))
]

to_add-eq :
    (x : Text) (ds : List Text) (index : Map Text (Unit {0})) (add leave : List Text)
    → held x index ≡ false
    → listed_in x (difference_from index add leave ds).to_add ≡ (listed_in x add || listed_in x ds)
unfolding difference_from any
to_add-eq x [] index add leave h = ground arith
to_add-eq x (d ∷ ds) index add leave h = elim (Bool-cases (is_visited (lookup d index))) [
  | inl e ↦
      rw (e, difference_from)
        (ground (
          arith,
          e,
          h,
          to_add-eq x ds (remove d index) add (leave ++ d ∷ []),
          held-remove d x index,
          held-same d x index,
        ))
  | inr e ↦
      rw (e, difference_from)
        (ground (
          arith,
          e,
          h,
          to_add-eq x ds (remove d index) (add ++ d ∷ []) leave,
          held-remove d x index,
          any-append (λ y. y == x) add (d ∷ []),
          held-same d x index,
        ))
]

-- `Difference` removes what is current and not desired, leaves what is both, and of what is not
-- current adds what is desired.
pub difference-listed_in :
    (current desired : List Text) (x : Text)
    → (listed_in x (difference current desired).to_remove
        ≡ (listed_in x current && not (listed_in x desired)))
      × (listed_in x (difference current desired).to_leave
          ≡ (listed_in x current && listed_in x desired))
      × (listed_in x current ≡ false
          → listed_in x (difference current desired).to_add ≡ listed_in x desired)
unfolding difference any lookup
difference-listed_in current desired x =
    let index = index_of current [] in
    let h = lookup-index_of x current [] in
    (
      ground (arith, h, to_remove-eq x desired index [] []),
      ground (arith, h, to_leave-eq x desired index [] []),
      λ new. ground (arith, h, new, to_add-eq x desired index [] []),
    )
