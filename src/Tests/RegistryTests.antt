-- ===== src/Tests/RegistryTests.antt =====
-- registry/txt at the sample changes, without encryption, and the mapper at a prefix.
use mathlib.Core.List.{map}
use external_dns.Prelude.{
  List, Option, Text, [], any, arith, codes, contains_text, false, has_suffix, if◌then◌else◌,
  int_eq, lookup, nat_eq, none, refl, some, split, text_beq, text_eq, to_lower, trim_suffix, true,
  ◌==◌, ◌∷◌, ◌≡◌,
}
use external_dns.Endpoint.Labels.{Cipher, serialize_plain, txt_encryption_nonce}
use external_dns.Endpoint.Types.{
  Endpoint, Labels, owner_label_key, record_type_a, record_type_cname,
}
use external_dns.Plan.Types.{Changes}
use external_dns.Registry.Apply.{apply_changes}
use external_dns.Registry.ApplyLaws.{Handed, apply_changes-Handed}
use external_dns.Registry.Generate.{registered_type, txt_record}
use external_dns.Registry.GenerateLaws.{Whenever}
use external_dns.Registry.Mapper.{new_affix_name_mapper, to_endpoint_name, to_txt_name}
use external_dns.Registry.MapperLaws.{
  a_records, cname_records, prefix_mapper, to_endpoint_name-to_txt_name,
}
use external_dns.Registry.ReadBack.{scan_record-txt_record}
use external_dns.Registry.Records.{Scan, find_labels, scan_record}
use external_dns.Registry.Txt.{TxtRegistry, is_absent, new_txt_registry, record_key_eq}
use external_dns.Registry.TxtLaws.{IfConfigured, IsConfigured, new_txt_registry-IsConfigured}
use external_dns.Tests.Samples.{me, owned, record_of, sample_changes, sample_net}

abbrev no_cipher : Cipher
no_cipher = record {
  encrypt_text = λ text aes nonce. none;
  decrypt_text = λ text aes. none;
  generate_nonce = none;
}

abbrev sample_registry : TxtRegistry
sample_registry = record {
  owner_id = me;
  mapper = new_affix_name_mapper (codes "txt.") [] [];
  records_cache = some [];
  records_cache_refresh_time = 0;
  cache_interval = 60;
  wildcard_replacement = [];
  managed_record_types = record_type_a ∷ [];
  exclude_record_types = [];
  txt_encrypt_enabled = false;
  txt_encrypt_aes_key = [];
  old_owner_id = [];
  existing_txts = [];
}

apply_changes-Handed_example :
    Whenever (λ r. Handed me r.0) (apply_changes no_cipher sample_registry sample_changes)
apply_changes-Handed_example = apply_changes-Handed no_cipher sample_registry sample_changes

-- the names of what the provider is told to create
abbrev created_names : Option (Changes × TxtRegistry) → List Text
created_names none = []
created_names (some (c, im)) = map (λ (e : Endpoint). e.dns_name) c.create

created :
    created_names (apply_changes no_cipher sample_registry sample_changes)
    ≡ codes "d.example.org" ∷ codes "txt.a-d.example.org" ∷ []
unfolding apply_changes text_beq any split new_affix_name_mapper is_absent trim_suffix
created = refl

to_endpoint_name-to_txt_name_example :
    to_endpoint_name
      (prefix_mapper (codes "txt."))
      (to_txt_name (prefix_mapper (codes "txt.")) (codes "d.example.org") record_type_cname)
    ≡ some (codes "d.example.org", record_type_cname)
unfolding contains_text to_lower
to_endpoint_name-to_txt_name_example =
    to_endpoint_name-to_txt_name (codes "txt.") (codes "d.example.org") record_type_cname refl refl
      cname_records

-- a suffix with dots, and a name with fewer: the index behind the suffix is out of range
out_of_range :
    to_endpoint_name (new_affix_name_mapper [] (codes "-x.y") []) (codes "a.example") ≡ none
unfolding to_endpoint_name new_affix_name_mapper
out_of_range = refl

new_txt_registry-IsConfigured_example : IfConfigured (IsConfigured (codes "txt.") []) (
    new_txt_registry
      (λ s. none)
      (codes "txt.")
      []
      me
      0
      []
      []
      []
      true
      (codes "0123456789abcdef0123456789abcdef")
      [])
new_txt_registry-IsConfigured_example =
    new_txt_registry-IsConfigured (λ s. none) (codes "txt.") [] me 0 [] [] [] true
      (codes "0123456789abcdef0123456789abcdef") []

abbrev created_record : Endpoint
created_record = record_of (codes "d.example.org") (codes "4.4.4.4") (owned me)

abbrev empty_scan : Scan
empty_scan = record { endpoints = []; label_map = []; txt_records_map = []; existing_txts = [] }

abbrev my_labels : Labels
my_labels = (owner_label_key, me) ∷ []

scan_record-txt_record_example :
    (txt : Endpoint) × (txt_record sample_registry created_record (serialize_plain my_labels true)
      ≡ some txt)
    × ((next_scan : Scan) × (scan_record no_cipher sample_registry empty_scan txt ≡ some next_scan)
        × ((m : Labels) × (find_labels sample_registry next_scan.label_map created_record ≡ some m)
            × ((j : Text)
                → lookup j m ≡ (if j == txt_encryption_nonce then none else lookup j my_labels))))
unfolding contains_text to_lower to_txt_name registered_type split has_suffix new_affix_name_mapper
scan_record-txt_record_example =
    scan_record-txt_record no_cipher sample_registry (codes "txt.") created_record my_labels
      empty_scan refl refl refl refl refl a_records (omega arith) refl (omega arith)
