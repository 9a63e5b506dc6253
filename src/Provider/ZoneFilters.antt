-- ===== src/Provider/ZoneFilters.antt =====
-- provider/recordfilter.go, zone_id_filter.go, zone_tag_filter.go and zone_type_filter.go.
use external_dns.Prelude.{
  Bool, List, Map, Option, Text, [], any, codes, false, has_suffix, if◌then◌else◌, insert, int_eq,
  is_nil, lookup, nat_eq, none, not, some, split_n, text_eq, trim_space, true, ◌==◌, ◌||◌, ◌∷◌,
}

unfoldable pub supported_record_type : Text → Bool
unfolding any
supported_record_type record_type =
    any (λ t. t == record_type)
      (codes "A" ∷ codes "AAAA" ∷ codes "CNAME" ∷ codes "SRV" ∷ codes "TXT" ∷ codes "NS" ∷ [])

-- `ZoneIDFilter`
abbrev pub ZoneIdFilter : Type 0
ZoneIdFilter = List Text

abbrev pub is_one_empty : List Text → Bool
is_one_empty (id ∷ []) = is_nil id
is_one_empty _ = false

unfoldable pub match_zone_id : ZoneIdFilter → Text → Bool
unfolding any has_suffix
match_zone_id ids zone_id =
    if is_nil ids
    then true
    else if is_one_empty ids
    then true
    else any (λ id. has_suffix zone_id id) ids

abbrev pub has_ids : ZoneIdFilter → Bool
has_ids [] = false
has_ids (id ∷ []) = not (is_nil id)
has_ids (id ∷ more ∷ ids) = true

-- `ZoneTagFilter`
abbrev pub ZoneTagFilter : Type 0
ZoneTagFilter = Map Text Text

abbrev pub add_tag : List Text → ZoneTagFilter → ZoneTagFilter
add_tag [] tags = tags
add_tag (k ∷ []) tags = if is_nil (trim_space k) then tags else insert (trim_space k) [] tags
add_tag (k ∷ v ∷ parts) tags =
    if is_nil (trim_space k) then tags else insert (trim_space k) (trim_space v) tags

-- the loop of `NewZoneTagFilter`
unfoldable pub tags_map : List Text → ZoneTagFilter → ZoneTagFilter
unfolding split_n trim_space insert
tags_map [] tags = tags
tags_map (t ∷ ts) tags = tags_map ts (add_tag (split_n t b'=' 2) tags)

unfoldable pub new_zone_tag_filter : List Text → ZoneTagFilter
unfolding tags_map
new_zone_tag_filter tags = if is_one_empty tags then [] else tags_map tags []

abbrev pub has_tag : Text → Option Text → Bool
has_tag v none = false
has_tag v (some value) = is_nil v || value == v

unfoldable pub match_zone_tags : ZoneTagFilter → Map Text Text → Bool
unfolding lookup
match_zone_tags [] tags = true
match_zone_tags ((k, v) ∷ filter) tags =
    let rest = match_zone_tags filter tags in if has_tag v (lookup k tags) then rest else false

-- what `ZoneTypeFilter.Match` is given: a type, a hosted zone with or without a config, or another
-- value
pub data RawZoneType : Type 0 where
  type_text : Text → RawZoneType
  hosted_zone : Option Bool → RawZoneType
  other_value : RawZoneType

abbrev pub zone_type_public : Text
zone_type_public = codes "public"

abbrev pub zone_type_private : Text
zone_type_private = codes "private"

abbrev pub match_raw_type : Text → RawZoneType → Bool
match_raw_type wanted (type_text t) =
    if wanted == zone_type_public
    then t == zone_type_public
    else if wanted == zone_type_private
    then t == zone_type_private
    else false
match_raw_type wanted (hosted_zone none) = wanted == zone_type_public
match_raw_type wanted (hosted_zone (some is_private_zone)) =
    if wanted == zone_type_public
    then not is_private_zone
    else if wanted == zone_type_private
    then is_private_zone
    else false
match_raw_type wanted other_value = false

-- `ZoneTypeFilter.Match`
unfoldable pub match_zone_type : Text → RawZoneType → Bool
match_zone_type zone_type raw = if is_nil zone_type then true else match_raw_type zone_type raw
