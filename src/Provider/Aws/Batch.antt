-- ===== src/Provider/Aws/Batch.antt =====
-- The batches of changes of provider/aws/aws.go.
use mathlib.Core.List.{map}
use external_dns.Prelude.{
  Bool, List, Map, Option, Text, [], false, if◌then◌else◌, insert, int_eq, is_nil, leb, length,
  lookup, ltb, nat_eq, none, snoc, some, text_eq, text_ltb, true, ℕ, ◌&&◌, ◌++◌, ◌+◌, ◌∷◌,
}
use external_dns.Endpoint.Targets.{insertion_sort}
use external_dns.Provider.Aws.Types.{Route53Change, Route53Changes}

unfoldable pub count_change_bytes : Route53Changes → ℕ
count_change_bytes [] = 0
count_change_bytes (c ∷ cs) = c.size_bytes + count_change_bytes cs

unfoldable pub count_change_values : Route53Changes → ℕ
count_change_values [] = 0
count_change_values (c ∷ cs) = c.size_values + count_change_values cs

-- the order of `sortChangesByActionNameType`
unfoldable pub change_less : Route53Change → Route53Change → Bool
unfolding text_ltb
change_less c d =
    if text_ltb d.action c.action
    then true
    else if text_ltb c.action d.action
    then false
    else if text_ltb c.record_set.name d.record_set.name
    then true
    else if text_ltb d.record_set.name c.record_set.name
    then false
    else text_ltb c.record_set.rr_type d.record_set.rr_type

unfoldable pub sort_changes_by_action_name_type : Route53Changes → Route53Changes
unfolding change_less insertion_sort
sort_changes_by_action_name_type cs = insertion_sort change_less cs

abbrev pub ownership_key : Route53Change → Text
ownership_key v = if is_nil v.owned_record then v.record_set.name else v.owned_record

abbrev pub changes_or_none : Option Route53Changes → Route53Changes
changes_or_none none = []
changes_or_none (some cs) = cs

-- `m[key] = append(m[key], v)`
abbrev pub append_change : Text → Route53Change → Map Text Route53Changes → Map Text Route53Changes
append_change k v m = insert k (snoc (changes_or_none (lookup k m)) v) m

-- the loop of `groupChangesByNameAndOwnershipRelation`
unfoldable pub group_from : Route53Changes → Map Text Route53Changes → Map Text Route53Changes
unfolding insert lookup
group_from [] m = m
group_from (v ∷ cs) m = group_from cs (append_change (ownership_key v) v m)

unfoldable pub group_changes : Route53Changes → Map Text Route53Changes
unfolding group_from
group_changes cs = group_from cs []

-- the limits of a batch
pub record Limits : Type 0 where
  pub size : ℕ
  pub bytes : ℕ
  pub values : ℕ

abbrev pub fits : Limits → Route53Changes → Bool
fits l cs =
    leb (length cs) l.size
    && (leb (count_change_bytes cs) l.bytes && leb (count_change_values cs) l.values)

-- whether a group may join the current batch
abbrev pub fits_with : Limits → Route53Changes → Route53Changes → Bool
fits_with l current v =
    leb (length current + length v) l.size
    && (leb (count_change_bytes current + count_change_bytes v) l.bytes
        && leb (count_change_values current + count_change_values v) l.values)

-- the loop over the names: the batches that are complete stand before the current one
unfoldable pub batch_groups :
    Limits → Map Text Route53Changes → List Text → Route53Changes → List Route53Changes
unfolding count_change_bytes count_change_values sort_changes_by_action_name_type lookup
batch_groups l groups [] current =
    if ltb 0 (length current) then sort_changes_by_action_name_type current ∷ [] else []
batch_groups l groups (name ∷ names) current =
    let v = changes_or_none (lookup name groups) in
    elim (fits l v) [
      | false ↦ batch_groups l groups names current
      | true ↦ elim (fits_with l current v) [
        | false ↦ sort_changes_by_action_name_type current ∷ batch_groups l groups names v
        | true ↦ batch_groups l groups names (current ++ v)
      ]
    ]

-- `batchChangeSet`
unfoldable pub batch_change_set : Limits → Route53Changes → List Route53Changes
unfolding batch_groups group_changes count_change_bytes count_change_values
    sort_changes_by_action_name_type insertion_sort
batch_change_set l cs =
    let groups = group_changes cs in
    if fits l cs
    then sort_changes_by_action_name_type cs ∷ []
    else batch_groups l groups
        (insertion_sort text_ltb (map (λ (e : Text × Route53Changes). e.0) groups)) []
