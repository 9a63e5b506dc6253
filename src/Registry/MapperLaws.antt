-- ===== src/Registry/MapperLaws.antt =====
-- From the TXT name of an endpoint back to its name and type (registry/mapper/mapper.go).
use mathlib.Core.List.{append_assoc}
use external_dns.Prelude.{
  Lacks, Text, [], ap, arith, contains_text, cut, cut_prefix, eqb_iff, false, has_prefix,
  has_prefix-append, int_eq, lower, nat_eq, refl, some, split, split-first, sym, text_beq, text_eq,
  to_lower, to_lower-append, to_lower_idem, trim_prefix, trim_prefix-append, ◌++◌, ◌∙◌, ◌∷◌, ◌≡◌,
}
use external_dns.Endpoint.Types.{
  record_type_a, record_type_aaaa, record_type_cname, record_type_mx, record_type_naptr,
  record_type_ns, record_type_srv,
}
use external_dns.Registry.Mapper.{
  AffixNameMapper, behind_dot, drop_affix_extract_type, drop_plain_affix, extract_from,
  extract_record_type_default_position, new_affix_name_mapper, normalize_affix_template,
  record_template, record_type_in_affix, supported_records, to_endpoint_name, to_txt_name,
  txt_label,
}

-- the record types that have TXT records
pub data Supported : Text → Type 0 where
  a_records : Supported record_type_a
  aaaa_records : Supported record_type_aaaa
  cname_records : Supported record_type_cname
  ns_records : Supported record_type_ns
  mx_records : Supported record_type_mx
  srv_records : Supported record_type_srv
  naptr_records : Supported record_type_naptr

extract-Supported :
    (t : Text) (name : Text)
    → Supported t
    → extract_from name (to_lower t) supported_records
      ≡ (trim_prefix name (to_lower t ++ b'-' ∷ []), t)
unfolding extract_from to_lower text_beq
extract-Supported t name a_records = refl
extract-Supported t name aaaa_records = refl
extract-Supported t name cname_records = refl
extract-Supported t name ns_records = refl
extract-Supported t name mx_records = refl
extract-Supported t name srv_records = refl
extract-Supported t name naptr_records = refl

Supported-Lacks : (t : Text) → Supported t → Lacks b'-' (to_lower t)
unfolding to_lower
Supported-Lacks t a_records = omega arith
Supported-Lacks t aaaa_records = omega arith
Supported-Lacks t cname_records = omega arith
Supported-Lacks t ns_records = omega arith
Supported-Lacks t mx_records = omega arith
Supported-Lacks t srv_records = omega arith
Supported-Lacks t naptr_records = omega arith

extract-label :
    (t dns : Text)
    → Supported t
    → extract_record_type_default_position (to_lower t ++ b'-' ∷ dns) ≡ (dns, t)
unfolding extract_record_type_default_position
extract-label t dns h =
    let name = to_lower t ++ b'-' ∷ dns in
    let first : split name b'-' ≡ to_lower t ∷ split dns b'-' =
      split-first b'-' (to_lower t) dns (Supported-Lacks t h) in
    let trimmed : trim_prefix name (to_lower t ++ b'-' ∷ []) ≡ dns =
      ap (λ n. trim_prefix n (to_lower t ++ b'-' ∷ []))
        (sym (append_assoc (to_lower t) (b'-' ∷ []) dns))
      ∙ trim_prefix-append (to_lower t ++ b'-' ∷ []) dns in
    rw first (extract-Supported t name h ∙ ap (λ n. (n, t)) trimmed)

cut-eq : (dns : Text) → (cut b'.' dns).0 ++ behind_dot (cut b'.' dns).1 ≡ dns
unfolding cut
cut-eq [] = refl
cut-eq (c ∷ s) = ground (arith, eqb_iff c b'.', cut-eq s)

-- a mapper with this prefix, no suffix and no wildcard replacement
abbrev pub prefix_mapper : Text → AffixNameMapper
prefix_mapper prefix = new_affix_name_mapper prefix [] []

no_template :
    (prefix : Text)
    → contains_text (to_lower prefix) record_template ≡ false
    → record_type_in_affix (prefix_mapper prefix) ≡ false
unfolding record_type_in_affix new_affix_name_mapper contains_text has_prefix cut_prefix
no_template prefix h = rw h

txt_name-prefix :
    (prefix dns t : Text)
    → contains_text (to_lower prefix) record_template ≡ false
    → to_txt_name (prefix_mapper prefix) dns t ≡ to_lower prefix ++ (to_lower t ++ b'-' ∷ dns)
unfolding to_txt_name txt_label normalize_affix_template new_affix_name_mapper record_type_in_affix
txt_name-prefix prefix dns t h =
    let label = to_lower t ++ b'-' ∷ [] in
    let (first, rest) = cut b'.' dns in
    rw h (
      ap (λ r. to_lower prefix ++ r)
        (append_assoc label first (behind_dot rest)
          ∙ ap (λ d. label ++ d) (cut-eq dns)
          ∙ append_assoc (to_lower t) (b'-' ∷ []) dns))

-- With a prefix that has no record type template, no suffix and no wildcard replacement, the TXT name
-- of a lower-case DNS name and one of the seven record types leads back to the name and the type.
pub to_endpoint_name-to_txt_name :
    (prefix dns t : Text)
    → contains_text (to_lower prefix) record_template ≡ false
    → to_lower dns ≡ dns
    → Supported t
    → to_endpoint_name (prefix_mapper prefix) (to_txt_name (prefix_mapper prefix) dns t)
      ≡ some (dns, t)
unfolding to_endpoint_name drop_affix_extract_type drop_plain_affix record_type_in_affix
    new_affix_name_mapper
to_endpoint_name-to_txt_name prefix dns t h lower known =
    let rest = to_lower t ++ b'-' ∷ dns in
    let lower_rest : to_lower rest ≡ rest =
      to_lower-append (to_lower t) (b'-' ∷ dns)
      ∙ ap (λ l. l ++ b'-' ∷ to_lower dns) (to_lower_idem t)
      ∙ ap (λ d. to_lower t ++ b'-' ∷ d) lower in
    let low : to_lower (to_lower prefix ++ rest) ≡ to_lower prefix ++ rest =
      rw (to_lower-append, to_lower_idem, lower_rest) in
    rw (
      txt_name-prefix prefix dns t h,
      low,
      h,
      has_prefix-append (to_lower prefix) rest,
      trim_prefix-append (to_lower prefix) rest,
      extract-label t dns known,
    )
