-- ===== src/Registry/Records.antt =====
-- `TXTRegistry.Records` of registry/txt/registry.go.
use mathlib.Core.Option
use external_dns.Prelude.{
  List, Map, Option, Text, [], codes, if◌then◌else◌, insert, int_eq, is_nil, join, lookup, ltb,
  nat_eq, none, not, pos, some, split, text_eq, ℕ, ◌&&◌, ◌++◌, ◌+◌, ◌==◌, ◌∷◌,
}
use external_dns.Endpoint.Labels.{Cipher, new_labels_from_string}
use external_dns.Endpoint.Owner.{is_visited}
use external_dns.Endpoint.Properties.{set_provider_specific_property}
use external_dns.Endpoint.Types.{
  Endpoint, EndpointKey, Labels, key_eq, or_empty, owner_label_key, read_label, record_type_aaaa,
  record_type_txt,
}
use external_dns.Plan.Calculate.{is_managed_record}
use external_dns.Registry.Generate.{
  generate_txt_record, labels_or_nil, migrate_owner, registered_type,
}
use external_dns.Registry.Mapper.{to_endpoint_name}
use external_dns.Registry.Txt.{ExistingTxts, TxtRegistry, add_existing}

-- the state of the first loop
pub record Scan : Type 0 where
  pub endpoints : List Endpoint
  pub label_map : Map EndpointKey Labels
  pub txt_records_map : Map Text (Unit {0})
  pub existing_txts : ExistingTxts

abbrev pub name_key : Text → Text → Text → EndpointKey
name_key name record_type id = record {
  dns_name = name;
  record_type = record_type;
  set_identifier = id;
  record_ttl = pos 0;
}

-- a TXT record whose labels were read
unfoldable pub scan_owned :
    TxtRegistry → Scan → Endpoint → Labels → Option (Text × Text) → Option Scan
unfolding add_existing
scan_owned im s r labels none = none
scan_owned im s r labels (some (name, record_type)) = some (record s {
  label_map = insert (name_key name record_type r.set_identifier) labels s.label_map;
  txt_records_map = insert r.dns_name tt s.txt_records_map;
  existing_txts = add_existing r s.existing_txts;
})

abbrev pub scan_labels : TxtRegistry → Scan → Endpoint → Option Labels → Option Scan
scan_labels im s r none = some (record s { endpoints = s.endpoints ++ r ∷ [] })
scan_labels im s r (some labels) = scan_owned im s r labels (to_endpoint_name im.mapper r.dns_name)

abbrev pub scan_target : Cipher → TxtRegistry → Scan → Endpoint → List Text → Option Scan
scan_target cipher im s r [] = some s
scan_target cipher im s r (t ∷ ts) =
    scan_labels im s r (new_labels_from_string cipher t im.txt_encrypt_aes_key)

-- one round; `none` is the panic of the name mapper
unfoldable pub scan_record : Cipher → TxtRegistry → Scan → Endpoint → Option Scan
unfolding new_labels_from_string to_endpoint_name scan_owned
scan_record cipher im s r =
    if not (r.record_type == record_type_txt)
    then some (record s { endpoints = s.endpoints ++ r ∷ [] })
    else scan_target cipher im s r r.targets

unfoldable pub scan_records : Cipher → TxtRegistry → Scan → List Endpoint → Option Scan
unfolding scan_record
scan_records cipher im s [] = some s
scan_records cipher im s (r ∷ rs) = elim (scan_record cipher im s r) [
  | none ↦ none
  | some s' ↦ scan_records cipher im s' rs
]

abbrev pub replace_first : Text → List Text → List Text
replace_first w [] = []
replace_first w (p ∷ ps) = if not (is_nil w) && p == codes "*" then w ∷ ps else p ∷ ps

-- the name under which the labels of an endpoint are looked up
unfoldable pub registry_name : TxtRegistry → Text → Text
unfolding split join
registry_name im name = join (replace_first im.wildcard_replacement (split name b'.')) b'.'

-- the labels in the new format, or in the old one, which has no type
unfoldable pub find_labels : TxtRegistry → Map EndpointKey Labels → Endpoint → Option Labels
unfolding registry_name registered_type
find_labels im label_map ep =
    let name = registry_name im ep.dns_name in
    elim (lookup (name_key name (registered_type ep) ep.set_identifier) label_map) [
      | some labels ↦ some labels
      | none ↦
          if not (ep.record_type == record_type_aaaa)
          then lookup (name_key name [] ep.set_identifier) label_map
          else none
    ]

-- `maps.Copy(dst, src)`
unfoldable pub copy_labels : Labels → Labels → Labels
unfolding insert
copy_labels dst [] = dst
copy_labels dst ((k, v) ∷ src) = copy_labels (insert k v dst) src

abbrev copy_found : Labels → Option Labels → Labels
copy_found dst none = dst
copy_found dst (some labels) = copy_labels dst labels

-- the endpoint with the labels of its TXT record, its owner migrated
unfoldable pub label_endpoint : TxtRegistry → Map EndpointKey Labels → Endpoint → Endpoint
unfolding find_labels copy_labels migrate_owner
label_endpoint im label_map ep = migrate_owner im (record ep {
  labels = some (copy_found (labels_or_nil ep.labels) (find_labels im label_map ep));
})

abbrev pub force_update_key : Text
force_update_key = codes "txt/force-update"

-- the loop over the desired TXT records
unfoldable pub force_missing : Map Text (Unit {0}) → List Endpoint → Endpoint → Endpoint
unfolding set_provider_specific_property
force_missing txts [] ep = ep
force_missing txts (d ∷ ds) ep = force_missing txts ds (
    if not (is_visited (lookup d.dns_name txts))
    then set_provider_specific_property force_update_key (codes "true") ep
    else ep)

abbrev force_generated : Map Text (Unit {0}) → Option (Endpoint × List Endpoint) → Option Endpoint
force_generated txts none = none
force_generated txts (some (ep, desired)) = some (force_missing txts desired ep)

-- the migration of TXT records: an owned endpoint whose TXT record is missing is marked for an
-- update
unfoldable pub mark_endpoint :
    Cipher → TxtRegistry → Map Text (Unit {0}) → Endpoint → Option Endpoint
unfolding generate_txt_record force_missing is_managed_record
mark_endpoint cipher im txts ep =
    if not (is_nil txts)
      && (or_empty (read_label owner_label_key ep.labels) == im.owner_id
          && is_managed_record ep.record_type im.managed_record_types im.exclude_record_types)
    then force_generated txts (generate_txt_record cipher im ep)
    else some ep

-- the second loop
unfoldable pub label_endpoints :
    Cipher → TxtRegistry → Scan → List Endpoint → Option (List Endpoint)
unfolding label_endpoint mark_endpoint
label_endpoints cipher im s [] = some []
label_endpoints cipher im s (ep ∷ eps) =
    elim (mark_endpoint cipher im s.txt_records_map (label_endpoint im s.label_map ep)) [
      | none ↦ none
      | some ep' ↦ Option.map (λ done. ep' ∷ done) (label_endpoints cipher im s eps)
    ]

pub data RecordsResult : Type 0 where
  -- the endpoints, and the registry afterwards
  listed : List Endpoint → TxtRegistry → RecordsResult
  -- the provider's error
  provider_error : TxtRegistry → RecordsResult
  -- a panic or a fatal error
  died : RecordsResult

abbrev fresh_scan : Scan
fresh_scan = record { endpoints = []; label_map = []; txt_records_map = []; existing_txts = [] }

abbrev refresh : TxtRegistry → ℕ → List Endpoint → ExistingTxts → RecordsResult
refresh im now eps txts =
    let im' = record im { existing_txts = txts } in
    listed eps (
      if ltb 0 im.cache_interval
      then record im' { records_cache = some eps; records_cache_refresh_time = now }
      else im')

abbrev finish : TxtRegistry → ℕ → Option (List Endpoint) → ExistingTxts → RecordsResult
finish im now none txts = died
finish im now (some eps) txts = refresh im now eps txts

abbrev second_loop : Cipher → TxtRegistry → ℕ → Option Scan → RecordsResult
second_loop cipher im now none = died
second_loop cipher im now (some s) =
    finish im now (label_endpoints cipher im s s.endpoints) s.existing_txts

abbrev read_provider : Cipher → TxtRegistry → ℕ → Option (List Endpoint) → RecordsResult
read_provider cipher im now none = provider_error im
read_provider cipher im now (some rs) =
    second_loop cipher im now (scan_records cipher im fresh_scan rs)

-- the cached records, where there are some and the last refresh is less than the interval ago
unfoldable pub cached : TxtRegistry → ℕ → Option (List Endpoint)
cached im now =
    if ltb now (im.records_cache_refresh_time + im.cache_interval) then im.records_cache else none

-- `Records`: `provider_records` is what `provider.Records` returns, `none` its error
unfoldable pub records : Cipher → TxtRegistry → ℕ → Option (List Endpoint) → RecordsResult
unfolding cached scan_records label_endpoints
records cipher im now provider_records =
    let im' = record im { existing_txts = [] } in
    elim (cached im' now) [
      | some eps ↦ listed eps im'
      | none ↦ read_provider cipher im' now provider_records
    ]
