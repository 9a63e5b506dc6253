-- ===== src/Endpoint/Labels.antt =====
-- endpoint/labels.go: labels as the text of a TXT record, and back.
use mathlib.Core.List.{map}
use external_dns.Prelude.{
  Bool, List, Option, Text, [], codes, false, has_prefix, if◌then◌else◌, insert, int_eq, is_nil,
  join, lookup, nat_eq, none, not, some, split, text_eq, text_ltb, trim_byte, trim_prefix, true,
  ◌&&◌, ◌++◌, ◌==◌, ◌∷◌,
}
use external_dns.Endpoint.Targets.{insertion_sort}
use external_dns.Endpoint.Types.{Labels, or_empty}

-- endpoint/crypto.go stands on AES-GCM, gzip and base64, which are not modelled: it is an interface.
pub record Cipher : Type 0 where
  -- `EncryptText(text, aesKey, nonce)`; `none` is an error
  pub encrypt_text : Text → Text → Text → Option Text
  -- `DecryptText(text, aesKey)`
  pub decrypt_text : Text → Text → Option (Text × Text)
  -- `GenerateNonce()`
  pub generate_nonce : Option Text

abbrev pub heritage : Text
heritage = codes "external-dns"

abbrev pub heritage_key : Text
heritage_key = codes "heritage"

abbrev pub heritage_slash : Text
heritage_slash = codes "external-dns/"

abbrev pub txt_encryption_nonce : Text
txt_encryption_nonce = codes "txt-encryption-nonce"

-- what one token of the text does to the labels and to `foundExternalDNSHeritage`; `none` is the
-- return with `ErrInvalidHeritage`
unfoldable pub read_token : List Text → Labels × Bool → Option (Labels × Bool)
unfolding has_prefix trim_prefix insert
read_token (k ∷ v ∷ []) (labels, found) =
    if k == heritage_key && not (v == heritage)
    then none
    else if k == heritage_key
    then some (labels, true)
    else if has_prefix k heritage
    then some (insert (trim_prefix k heritage_slash) v labels, found)
    else some (labels, found)
read_token _ state = some state

unfoldable pub read_tokens : List Text → Labels × Bool → Option (Labels × Bool)
unfolding split read_token
read_tokens [] state = some state
read_tokens (t ∷ ts) state = elim (read_token (split t b'=') state) [
  | none ↦ none
  | some after ↦ read_tokens ts after
]

abbrev if_found : Option (Labels × Bool) → Option Labels
if_found none = none
if_found (some (labels, found)) = if found then some labels else none

-- `NewLabelsFromStringPlain`; `none` is `ErrInvalidHeritage`, the only error
unfoldable pub new_labels_from_string_plain : Text → Option Labels
unfolding read_tokens trim_byte
new_labels_from_string_plain text =
    if_found (read_tokens (split (trim_byte b'"' text) b',') ([], false))

abbrev with_nonce : Text → Option Labels → Option Labels
with_nonce nonce none = none
with_nonce nonce (some labels) = some (insert txt_encryption_nonce nonce labels)

abbrev of_decrypted : Option (Text × Text) → Text → Option Labels
of_decrypted none text = new_labels_from_string_plain text
of_decrypted (some (plain, nonce)) text = with_nonce nonce (new_labels_from_string_plain plain)

-- `NewLabelsFromString`: a text that does not decrypt is read as it is
unfoldable pub new_labels_from_string : Cipher → Text → Text → Option Labels
unfolding new_labels_from_string_plain
new_labels_from_string cipher text aes_key =
    if is_nil aes_key
    then new_labels_from_string_plain text
    else of_decrypted (cipher.decrypt_text (trim_byte b'"' text) aes_key) text

abbrev pub keys_of : Labels → List Text
keys_of labels = map (λ (e : Text × Text). e.0) labels

unfoldable pub label_token : Labels → Text → Text
unfolding lookup
label_token labels k = heritage_slash ++ (k ++ b'=' ∷ or_empty (lookup k labels))

-- the loop over the sorted keys
unfoldable pub label_tokens : Labels → List Text → List Text
unfolding label_token
label_tokens labels [] = []
label_tokens labels (k ∷ ks) =
    if k == txt_encryption_nonce
    then label_tokens labels ks
    else label_token labels k ∷ label_tokens labels ks

abbrev pub heritage_token : Text
heritage_token = codes "heritage=external-dns"

abbrev pub quote : Text → Text
quote s = b'"' ∷ s ++ b'"' ∷ []

-- `SerializePlain`
unfoldable pub serialize_plain : Labels → Bool → Text
unfolding label_tokens join insertion_sort
serialize_plain labels with_quotes =
    let text =
      join (heritage_token ∷ label_tokens labels (insertion_sort text_ltb (keys_of labels))) b',' in
    if with_quotes then quote text else text

abbrev pub with_new_nonce : Labels → Option Text → Option (Text × Labels)
with_new_nonce labels none = none
with_new_nonce labels (some nonce) = some (nonce, insert txt_encryption_nonce nonce labels)

abbrev pub with_known_nonce : Cipher → Labels → Option Text → Option (Text × Labels)
with_known_nonce cipher labels none = with_new_nonce labels cipher.generate_nonce
with_known_nonce cipher labels (some nonce) = some (nonce, labels)

-- the nonce, and the labels that hold it
unfoldable pub ensure_nonce : Cipher → Labels → Option (Text × Labels)
unfolding lookup insert
ensure_nonce cipher labels = with_known_nonce cipher labels (lookup txt_encryption_nonce labels)

abbrev pub as_sealed : Bool → Labels → Option Text → Option (Text × Labels)
as_sealed with_quotes labels none = none
as_sealed with_quotes labels (some sealed) =
    some ((if with_quotes then quote sealed else sealed), labels)

abbrev pub seal : Cipher → Bool → Text → Option (Text × Labels) → Option (Text × Labels)
seal cipher with_quotes aes_key none = none
seal cipher with_quotes aes_key (some (nonce, labels)) =
    as_sealed with_quotes labels (cipher.encrypt_text (serialize_plain labels false) aes_key nonce)

-- `Serialize`: the text and the labels after it; `none` is the fatal end of the process
unfoldable pub serialize : Cipher → Labels → Bool → Bool → Text → Option (Text × Labels)
unfolding serialize_plain ensure_nonce
serialize cipher labels with_quotes encrypt aes_key =
    if not encrypt
    then some (serialize_plain labels with_quotes, labels)
    else seal cipher with_quotes aes_key (ensure_nonce cipher labels)
