-- ===== src/Provider/Difference.antt =====
-- `Difference` of provider/provider.go: what to add, what to remove and what to leave.
use mathlib.Core.List.{map}
use external_dns.Prelude.{
  List, Map, Text, [], false, insert, int_eq, lookup, nat_eq, remove, text_eq, true, ◌++◌, ◌∷◌,
}
use external_dns.Endpoint.Owner.{is_visited}

pub record Delta : Type 0 where
  pub to_add : List Text
  pub to_remove : List Text
  pub to_leave : List Text

unfoldable pub index_of : List Text → Map Text (Unit {0}) → Map Text (Unit {0})
unfolding insert
index_of [] index = index
index_of (x ∷ xs) index = index_of xs (insert x tt index)

-- the loop over the desired texts; what is left of the index at the end is removed
unfoldable pub difference_from : Map Text (Unit {0}) → List Text → List Text → List Text → Delta
unfolding lookup
difference_from index add leave [] = record {
  to_add = add;
  to_remove = map (λ (e : Text × Unit {0}). e.0) index;
  to_leave = leave;
}
difference_from index add leave (x ∷ xs) = elim (is_visited (lookup x index)) [
  | true ↦ difference_from (remove x index) add (leave ++ x ∷ []) xs
  | false ↦ difference_from (remove x index) (add ++ x ∷ []) leave xs
]

unfoldable pub difference : List Text → List Text → Delta
unfolding index_of difference_from
difference current desired = difference_from (index_of current []) [] [] desired
