-- ===== src/Registry/Generate.antt =====
-- `generateTXTRecord` and `generateTXTRecordWithFilter` of registry/txt/registry.go.
use external_dns.Prelude.{
  Bool, List, Option, Text, [], codes, false, if◌then◌else◌, int_eq, is_nil, nat_eq, none, not,
  some, text_eq, true, ◌&&◌, ◌==◌, ◌∷◌,
}
use external_dns.Endpoint.Create.{new_endpoint}
use external_dns.Endpoint.Labels.{Cipher, serialize}
use external_dns.Endpoint.Properties.{get_bool_provider_specific_property, write_label}
use external_dns.Endpoint.Types.{
  Endpoint, Labels, or_empty, owned_record_label_key, owner_label_key, read_label, record_type_a,
  record_type_cname, record_type_txt,
}
use external_dns.Registry.Mapper.{to_txt_name}
use external_dns.Registry.Txt.{TxtRegistry}

abbrev pub alias_key : Text
alias_key = codes "alias"

abbrev is_true : Option Bool → Bool
is_true none = false
is_true (some b) = b

-- an alias of AWS is registered as "CNAME"
unfoldable pub registered_type : Endpoint → Text
unfolding get_bool_provider_specific_property
registered_type r =
    if is_true (get_bool_provider_specific_property alias_key r) && r.record_type == record_type_a
    then record_type_cname
    else r.record_type

-- the migration of the owner label
unfoldable pub migrate_owner : TxtRegistry → Endpoint → Endpoint
migrate_owner im r =
    if not (is_nil im.old_owner_id)
      && or_empty (read_label owner_label_key r.labels) == im.old_owner_id
    then record r { labels = write_label owner_label_key im.owner_id r.labels }
    else r

abbrev pub labels_or_nil : Option Labels → Labels
labels_or_nil none = []
labels_or_nil (some labels) = labels

-- the TXT record of an endpoint, as `NewEndpoint` returns it, with what the endpoint adds
abbrev pub beside : Endpoint → Option Endpoint → Option Endpoint
beside r none = none
beside r (some txt) = some (record txt {
  set_identifier = r.set_identifier;
  labels = write_label owned_record_label_key r.dns_name txt.labels;
  provider_specific = r.provider_specific;
})

-- the TXT record of an endpoint with its labels serialized; nil where a label of the name is too
-- long
unfoldable pub txt_record : TxtRegistry → Endpoint → Text → Option Endpoint
unfolding new_endpoint to_txt_name registered_type
txt_record im r text = beside r (
    new_endpoint (to_txt_name im.mapper r.dns_name (registered_type r)) record_type_txt (text ∷ []))

abbrev pub filtered : (Endpoint → Bool) → Option Endpoint → List Endpoint
filtered accept none = []
filtered accept (some txt) = if accept txt then txt ∷ [] else []

unfoldable pub generated :
    TxtRegistry
    → (Endpoint → Bool)
    → Endpoint
    → Option (Text × Labels)
    → Option (Endpoint × List Endpoint)
unfolding txt_record
generated im accept r none = none
generated im accept r (some (text, labels)) =
    some (record r { labels = some labels }, filtered accept (txt_record im r text))

-- `generateTXTRecordWithFilter`: the endpoint with its labels as the call leaves them, and its TXT
-- records; `none` is the fatal end of the process, in the encryption. The callers pass an endpoint
-- whose label map is not nil.
unfoldable pub generate_txt_record_with_filter :
    Cipher → TxtRegistry → (Endpoint → Bool) → Endpoint → Option (Endpoint × List Endpoint)
unfolding migrate_owner serialize generated
generate_txt_record_with_filter cipher im accept r =
    let r' = migrate_owner im r in
    generated im accept r' (
      serialize cipher (labels_or_nil r'.labels) true im.txt_encrypt_enabled im.txt_encrypt_aes_key)

unfoldable pub generate_txt_record :
    Cipher → TxtRegistry → Endpoint → Option (Endpoint × List Endpoint)
unfolding generate_txt_record_with_filter
generate_txt_record cipher im r = generate_txt_record_with_filter cipher im (λ ep. true) r
