-- ===== src/Registry/Mapper.antt =====
-- registry/mapper/mapper.go: the name of the TXT record of an endpoint, and back.
use external_dns.Prelude.{
  Bool, List, Option, Text, [], codes, contains_byte, contains_text, count_byte, cut, has_prefix,
  has_suffix, if◌then◌else◌, int_eq, is_nil, join, length, lower, ltb, nat_eq, none, not,
  replace_all, some, split, split_n, suc, text_eq, to_lower, trim_prefix, trim_suffix, zero, ℕ,
  ◌&&◌, ◌++◌, ◌+◌, ◌==◌, ◌||◌, ◌∷◌,
}
use external_dns.Endpoint.Types.{
  record_type_a, record_type_aaaa, record_type_cname, record_type_mx, record_type_naptr,
  record_type_ns, record_type_srv,
}

pub record AffixNameMapper : Type 0 where
  pub prefix : Text
  pub suffix : Text
  pub wildcard_replacement : Text

abbrev pub record_template : Text
record_template = codes "%{record_type}"

abbrev pub supported_records : List Text
supported_records =
    record_type_a ∷ record_type_aaaa ∷ record_type_cname ∷ record_type_ns ∷ record_type_mx
    ∷ record_type_srv ∷ record_type_naptr ∷ []

unfoldable pub new_affix_name_mapper : Text → Text → Text → AffixNameMapper
unfolding to_lower
new_affix_name_mapper prefix suffix wildcard = record {
  prefix = to_lower prefix;
  suffix = to_lower suffix;
  wildcard_replacement = to_lower wildcard;
}

unfoldable pub record_type_in_affix : AffixNameMapper → Bool
unfolding contains_text
record_type_in_affix a =
    contains_text a.prefix record_template || contains_text a.suffix record_template

-- `normalizeAffixTemplate`
unfoldable pub normalize_affix_template : Text → Text → Text
unfolding contains_text replace_all
normalize_affix_template affix record_type =
    if contains_text affix record_template
    then replace_all affix record_template record_type
    else affix

unfoldable pub drop_affix_template : Text → Text
unfolding replace_all
drop_affix_template name = replace_all name record_template []

abbrev pub is_prefix : AffixNameMapper → Bool
is_prefix a = is_nil a.suffix

abbrev pub is_suffix : AffixNameMapper → Bool
is_suffix a = is_nil a.prefix && not (is_nil a.suffix)

abbrev pub first_or_empty : List Text → Text
first_or_empty [] = []
first_or_empty (p ∷ ps) = p

-- the loop of `extractRecordTypeDefaultPosition` over the supported types
unfoldable pub extract_from : Text → Text → List Text → Text × Text
unfolding to_lower trim_prefix
extract_from name first [] = (name, [])
extract_from name first (t ∷ ts) =
    if first == to_lower t
    then (trim_prefix name (first ++ b'-' ∷ []), t)
    else extract_from name first ts

unfoldable pub extract_record_type_default_position : Text → Text × Text
unfolding extract_from split
extract_record_type_default_position name =
    extract_from name (first_or_empty (split name b'-')) supported_records

-- the loop of `dropAffixExtractType` over the supported types: the first type whose affix is there
unfoldable pub drop_typed_affix : AffixNameMapper → Text → List Text → Option (Text × Text)
unfolding to_lower replace_all has_prefix has_suffix trim_prefix trim_suffix
drop_typed_affix a name [] = none
drop_typed_affix a name (t ∷ ts) =
    let i_prefix = replace_all a.prefix record_template (to_lower t) in
    let i_suffix = replace_all a.suffix record_template (to_lower t) in
    if is_prefix a && has_prefix name i_prefix
    then some (trim_prefix name i_prefix, t)
    else if is_suffix a && has_suffix name i_suffix
    then some (trim_suffix name i_suffix, t)
    else drop_typed_affix a name ts

-- the rest of `dropAffixExtractType`, for the affixes that it is left with
unfoldable pub drop_plain_affix : AffixNameMapper → Text → Text → Text → Text × Text
unfolding has_prefix has_suffix trim_prefix trim_suffix extract_record_type_default_position
drop_plain_affix a prefix suffix name =
    if is_prefix a && has_prefix name prefix
    then extract_record_type_default_position (trim_prefix name prefix)
    else if is_suffix a && has_suffix name suffix
    then extract_record_type_default_position (trim_suffix name suffix)
    else ([], [])

unfoldable pub drop_affix_extract_type : AffixNameMapper → Text → Text × Text
unfolding record_type_in_affix drop_typed_affix drop_affix_template drop_plain_affix
drop_affix_extract_type a name =
    if record_type_in_affix a
    then elim (drop_typed_affix a name supported_records) [
      | some found ↦ found
      | none ↦ drop_plain_affix a (drop_affix_template a.prefix) (drop_affix_template a.suffix) name
    ]
    else drop_plain_affix a a.prefix a.suffix name

-- the first n of the texts, filled up with empty ones: a slice up to its capacity
unfoldable pub take_padded : ℕ → List Text → List Text
take_padded zero ts = []
take_padded (suc n) [] = [] ∷ take_padded n []
take_padded (suc n) (t ∷ ts) = t ∷ take_padded n ts

abbrev pub part_at : ℕ → List Text → Option Text
part_at n [] = none
part_at zero (p ∷ ps) = some p
part_at (suc n) (p ∷ ps) = part_at n ps

abbrev join_rest : Text × Text → Option Text → Option (Text × Text)
join_rest r none = none
join_rest (r, t) (some rest) = some (r ++ b'.' ∷ rest, t)

-- the suffix case of `ToEndpointName`; `none` is the run-time panic of an index or a slice that is
-- out of range
unfoldable pub to_endpoint_name_suffix : AffixNameMapper → Text → Option (Text × Text)
unfolding count_byte split_n take_padded join drop_affix_extract_type contains_byte
to_endpoint_name_suffix a lower =
    let dc = count_byte b'.' a.suffix in
    let parts = split_n lower b'.' (2 + dc) in
    let r = drop_affix_extract_type a (join (take_padded (1 + dc) parts) b'.') in
    if ltb (length lower) dc
    then none
    else if not (contains_byte lower b'.')
    then some r
    else join_rest r (part_at (1 + dc) parts)

-- `ToEndpointName`: the name and the type
unfoldable pub to_endpoint_name : AffixNameMapper → Text → Option (Text × Text)
unfolding to_lower drop_affix_extract_type to_endpoint_name_suffix
to_endpoint_name a dns =
    let lower = to_lower dns in
    if is_prefix a
    then some (drop_affix_extract_type a lower)
    else if is_suffix a
    then to_endpoint_name_suffix a lower
    else some ([], [])

abbrev pub behind_dot : Option Text → Text
behind_dot none = []
behind_dot (some rest) = b'.' ∷ rest

-- the first label of the TXT name, without its affixes
unfoldable pub txt_label : AffixNameMapper → Text → Text → Text
unfolding record_type_in_affix
txt_label a first record_type =
    let first' =
      if not (is_nil a.wildcard_replacement) && first == codes "*"
      then a.wildcard_replacement
      else first in
    if not (record_type_in_affix a) then record_type ++ (b'-' ∷ []) ++ first' else first'

-- `ToTXTName`
unfoldable pub to_txt_name : AffixNameMapper → Text → Text → Text
unfolding to_lower cut normalize_affix_template txt_label
to_txt_name a dns record_type =
    let t = to_lower record_type in
    let (first, rest) = cut b'.' dns in
    normalize_affix_template a.prefix t
    ++ (txt_label a first t ++ (normalize_affix_template a.suffix t ++ behind_dot rest))
