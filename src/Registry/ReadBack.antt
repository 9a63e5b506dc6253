-- ===== src/Registry/ReadBack.antt =====
-- TXT records that registry/txt/registry.go writes for an endpoint, in a scan of the records.
use mathlib.Core.Path.{subst}
use external_dns.Prelude.{
  All, List, Map, Text, [], ap, contains_text, false, has_suffix, if◌then◌else◌, insert, int_eq,
  join, join-split, lookup, lookup-insert_self, lower, nat_eq, none, pos, refl, some, split, sym,
  text_beq, text_eq, to_lower, trim_suffix-none, true, ◌==◌, ◌∙◌, ◌∷◌, ◌≡◌,
}
use external_dns.Endpoint.Create.{clean_target, dot, keeps_dot, new_endpoint, new_endpoint_with_ttl}
use external_dns.Endpoint.CreateLaws.{HasShortLabels, no_long_label}
use external_dns.Endpoint.LabelLaws.{IsPlainEntry, new_labels_from_string_plain-serialize_plain}
use external_dns.Endpoint.Labels.{
  Cipher, new_labels_from_string, new_labels_from_string_plain, serialize_plain,
  txt_encryption_nonce,
}
use external_dns.Endpoint.Properties.{write_label}
use external_dns.Endpoint.Types.{
  Endpoint, EndpointKey, Labels, key_eq, owned_record_label_key, record_type_txt,
}
use external_dns.Registry.Generate.{registered_type, txt_record}
use external_dns.Registry.Mapper.{record_template, to_endpoint_name, to_txt_name}
use external_dns.Registry.MapperLaws.{Supported, prefix_mapper, to_endpoint_name-to_txt_name}
use external_dns.Registry.Records.{
  Scan, find_labels, name_key, registry_name, replace_first, scan_labels, scan_owned, scan_record,
}
use external_dns.Registry.Txt.{TxtRegistry, add_existing}

-- The name of the TXT record of the endpoint.
abbrev pub txt_name : TxtRegistry → Endpoint → Text
txt_name im r = to_txt_name im.mapper r.dns_name (registered_type r)

-- the TXT record of the endpoint with the text
abbrev pub written_txt : TxtRegistry → Endpoint → Text → Endpoint
written_txt im r text = record {
  dns_name = txt_name im r;
  targets = text ∷ [];
  record_type = record_type_txt;
  set_identifier = r.set_identifier;
  record_ttl = pos 0;
  labels = write_label owned_record_label_key r.dns_name (some []);
  provider_specific = r.provider_specific;
  ref_object = none;
}

txt_record-eq :
    (im : TxtRegistry) (r : Endpoint) (text : Text)
    → HasShortLabels (txt_name im r)
    → has_suffix (txt_name im r) dot ≡ false
    → txt_record im r text ≡ some (written_txt im r text)
unfolding txt_record new_endpoint new_endpoint_with_ttl clean_target keeps_dot text_beq
txt_record-eq im r text short no_dot =
    rw (
      no_long_label (split (txt_name im r) b'.') short,
      trim_suffix-none (txt_name im r) dot no_dot,
    )

replace_first-nil : (ps : List Text) → replace_first [] ps ≡ ps
replace_first-nil [] = refl
replace_first-nil (p ∷ ps) = refl

registry_name-eq :
    (im : TxtRegistry) (name : Text) → im.wildcard_replacement ≡ [] → registry_name im name ≡ name
unfolding registry_name
registry_name-eq im name e =
    ap (λ w. join (replace_first w (split name b'.')) b'.') e
    ∙ ap (λ ps. join ps b'.') (replace_first-nil (split name b'.'))
    ∙ join-split b'.' name

-- the key under which the labels of the endpoint are looked up
abbrev label_key : Endpoint → EndpointKey
label_key r = name_key r.dns_name (registered_type r) r.set_identifier

found-labels :
    (im : TxtRegistry) (r : Endpoint) (m : Labels) (label_map : Map EndpointKey Labels)
    → im.wildcard_replacement ≡ []
    → find_labels im (insert (label_key r) m label_map) r ≡ some m
unfolding find_labels
found-labels im r m label_map e =
    let found : lookup (name_key (registry_name im r.dns_name) (registered_type r) r.set_identifier)
          (insert (label_key r) m label_map)
        ≡ some m =
      ap
        (λ n.
          lookup (name_key n (registered_type r) r.set_identifier)
            (insert (label_key r) m label_map))
        (registry_name-eq im r.dns_name e)
      ∙ lookup-insert_self (label_key r) m label_map in
    rw (found, find_labels) refl

plain_labels :
    (cipher : Cipher) (text : Text)
    → new_labels_from_string cipher text [] ≡ new_labels_from_string_plain text
unfolding new_labels_from_string
plain_labels cipher text = refl

-- what a scan does with a TXT record whose labels and name are read
scan_record-read :
    (cipher : Cipher) (im : TxtRegistry) (s : Scan) (r : Endpoint) (text : Text) (m : Labels)
    → new_labels_from_string cipher text im.txt_encrypt_aes_key ≡ some m
    → to_endpoint_name im.mapper (txt_name im r) ≡ some (r.dns_name, registered_type r)
    → scan_record cipher im s (written_txt im r text)
      ≡ some (record s {
        label_map = insert (label_key r) m s.label_map;
        txt_records_map = insert (txt_name im r) tt s.txt_records_map;
        existing_txts = add_existing (written_txt im r text) s.existing_txts;
      })
unfolding scan_record scan_owned text_beq
scan_record-read cipher im s r text m labelled named =
    ap (scan_labels im s (written_txt im r text)) labelled
    ∙ ap (scan_owned im s (written_txt im r text) m) named

-- The TXT record that is written for an endpoint, without encryption and under a prefix without a
-- template, is read back in a scan of the records: the endpoint is found to have the labels that were
-- written, all but the encryption nonce. The endpoint has a lower-case name and one of the seven
-- types, no label of the TXT name is too long and it does not end in a dot, there is no wildcard
-- replacement and no key, and the labels hold no comma, equals sign or quote.
pub scan_record-txt_record :
    (cipher : Cipher) (im : TxtRegistry) (prefix : Text) (r : Endpoint) (labels : Labels) (s : Scan)
    → im.mapper ≡ prefix_mapper prefix
    → contains_text (to_lower prefix) record_template ≡ false
    → im.wildcard_replacement ≡ []
    → im.txt_encrypt_aes_key ≡ []
    → to_lower r.dns_name ≡ r.dns_name
    → Supported (registered_type r)
    → HasShortLabels (txt_name im r)
    → has_suffix (txt_name im r) dot ≡ false
    → All IsPlainEntry labels
    → (txt : Endpoint) × (txt_record im r (serialize_plain labels true) ≡ some txt)
      × ((next_scan : Scan) × (scan_record cipher im s txt ≡ some next_scan)
          × ((m : Labels) × (find_labels im next_scan.label_map r ≡ some m)
              × ((j : Text)
                  → lookup j m ≡ (if j == txt_encryption_nonce then none else lookup j labels))))
scan_record-txt_record cipher im prefix r labels s mapped plain_prefix no_wildcard no_key lower
      known short no_dot plain =
    let read = new_labels_from_string_plain-serialize_plain labels true plain in
    let text = serialize_plain labels true in
    let next_scan : Scan = record s {
      label_map = insert (label_key r) read.0 s.label_map;
      txt_records_map = insert (txt_name im r) tt s.txt_records_map;
      existing_txts = add_existing (written_txt im r text) s.existing_txts;
    } in
    let named : to_endpoint_name im.mapper (txt_name im r) ≡ some (r.dns_name, registered_type r) =
      subst
        (λ a.
          to_endpoint_name a (to_txt_name a r.dns_name (registered_type r))
          ≡ some (r.dns_name, registered_type r))
        (sym mapped)
        (to_endpoint_name-to_txt_name prefix r.dns_name (registered_type r) plain_prefix lower
          known) in
    let labelled : new_labels_from_string cipher text im.txt_encrypt_aes_key ≡ some read.0 =
      ap (λ k. new_labels_from_string cipher text k) no_key ∙ plain_labels cipher text ∙ read.1 in
    (
      written_txt im r text,
      txt_record-eq im r text short no_dot,
      (
        next_scan,
        scan_record-read cipher im s r text read.0 labelled named,
        (read.0, found-labels im r read.0 s.label_map no_wildcard, read.2),
      ),
    )
