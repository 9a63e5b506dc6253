-- ===== src/Registry/Dynamo/Keys.antt =====
-- The keys and the labels of registry/dynamodb/registry.go as attribute values, and back.
use external_dns.Prelude.{
  List, Map, Option, Text, [], if◌then◌else◌, insert, int_eq, nat_eq, none, some, split_n, text_eq,
  ◌++◌, ◌==◌, ◌∷◌,
}
use external_dns.Endpoint.Types.{EndpointKey, Labels, key_eq, owner_label_key}
use external_dns.Registry.Dynamo.Types.{Service}
use external_dns.Registry.Records.{name_key}

-- the key, an error of `Unmarshal`, or the panic of an index out of range
pub data ReadKey : Type 0 where
  read_key : EndpointKey → ReadKey
  unreadable_key : ReadKey
  malformed_key : ReadKey

-- the labels, an error of `Unmarshal`, or the panic of the write of the owner to a nil map
pub data ReadLabels : Type 0 where
  read_labels_of : Labels → ReadLabels
  unreadable_labels : ReadLabels
  nil_labels : ReadLabels

abbrev pub key_of_parts : List Text → ReadKey
key_of_parts (name ∷ record_type ∷ id ∷ rest) = read_key (name_key name record_type id)
key_of_parts _ = malformed_key

module _ (service : Service) where
  open service use {Value, text_value, map_value, unmarshal_text, unmarshal_labels}

  unfoldable pub key_of_text : Option Text → ReadKey
  unfolding split_n
  key_of_text none = unreadable_key
  key_of_text (some ep) = key_of_parts (split_n ep b'#' 3)

  unfoldable pub from_dynamo_key : Value → ReadKey
  unfolding key_of_text
  from_dynamo_key k = key_of_text (unmarshal_text k)

  unfoldable pub to_dynamo_key : EndpointKey → Value
  to_dynamo_key k = text_value (k.dns_name ++ b'#' ∷ (k.record_type ++ b'#' ∷ k.set_identifier))

  abbrev pub with_owner : Text → Option (Option Labels) → ReadLabels
  with_owner owner none = unreadable_labels
  with_owner owner (some none) = nil_labels
  with_owner owner (some (some labels)) = read_labels_of (insert owner_label_key owner labels)

  unfoldable pub from_dynamo_labels : Value → Text → ReadLabels
  unfolding insert
  from_dynamo_labels label owner = with_owner owner (unmarshal_labels label)

  -- the loop over the labels
  unfoldable pub label_values : Labels → Map Text Value
  label_values [] = []
  label_values ((k, v) ∷ labels) =
      let rest = label_values labels in
      if k == owner_label_key then rest else (k, text_value v) ∷ rest

  unfoldable pub to_dynamo_labels : Labels → Value
  unfolding label_values
  to_dynamo_labels labels = map_value (label_values labels)
