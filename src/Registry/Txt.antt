-- ===== src/Registry/Txt.antt =====
-- registry/txt/registry.go: ownership of records in TXT records beside them. The provider is the
-- list that its `Records` returns and the changes that it is handed; time is a number.
use external_dns.Prelude.{
  Bool, Comparable, List, Map, Option, Text, [], arith, eqb, if◌then◌else◌, insert, int_eq, is_nil,
  length, lookup, nat_eq, none, not, some, text_beq_iff, text_eq, true, ℕ, ◌&&◌, ◌==◌, ◌↔◌, ◌≡◌,
}
use external_dns.Endpoint.Owner.{is_visited}
use external_dns.Endpoint.Types.{Endpoint}
use external_dns.Registry.Mapper.{AffixNameMapper, new_affix_name_mapper}

pub record RecordKey : Type 0 where
  pub dns_name : Text
  pub set_identifier : Text

abbrev pub record_key_beq : RecordKey → RecordKey → Bool
record_key_beq k j = k.dns_name == j.dns_name && k.set_identifier == j.set_identifier

pub record_key_beq_iff : (k j : RecordKey) → (record_key_beq k j ≡ true) ↔ (k ≡ j)
record_key_beq_iff k j =
    ground
      (arith, text_beq_iff k.dns_name j.dns_name, text_beq_iff k.set_identifier j.set_identifier)

instance abbrev pub record_key_eq : Comparable RecordKey
record_key_eq = record { equals = record_key_beq; equals_iff = record_key_beq_iff }

-- `existingTXTs`
abbrev pub ExistingTxts : Type 0
ExistingTxts = Map RecordKey (Unit {0})

abbrev pub record_key : Endpoint → RecordKey
record_key r = record { dns_name = r.dns_name; set_identifier = r.set_identifier }

unfoldable pub add_existing : Endpoint → ExistingTxts → ExistingTxts
unfolding insert
add_existing r entries = insert (record_key r) tt entries

unfoldable pub is_absent : ExistingTxts → Endpoint → Bool
unfolding lookup
is_absent entries r = not (is_visited (lookup (record_key r) entries))

pub record TxtRegistry : Type 0 where
  pub owner_id : Text
  pub mapper : AffixNameMapper
  pub records_cache : Option (List Endpoint)
  pub records_cache_refresh_time : ℕ
  pub cache_interval : ℕ
  pub wildcard_replacement : Text
  pub managed_record_types : List Text
  pub exclude_record_types : List Text
  pub txt_encrypt_enabled : Bool
  pub txt_encrypt_aes_key : Text
  pub old_owner_id : Text
  pub existing_txts : ExistingTxts

pub data ConfigError : Type 0 where
  owner_empty bad_aes_key aes_key_missing affixes_exclusive : ConfigError

pub data Configured (A : Type 0) : Type 0 where
  configured : A → Configured A
  refused : ConfigError → Configured A

-- the AES key: as it is, or decoded from base64, where it then has 32 bytes; nil is the empty key
abbrev pub key_of_decoded : Option Text → Option Text
key_of_decoded none = none
key_of_decoded (some k) = if eqb (length k) 32 then some k else none

unfoldable pub aes_key_of : (Text → Option Text) → Text → Option Text
aes_key_of b64_decode k =
    if is_nil k
    then some []
    else if not (eqb (length k) 32)
    then key_of_decoded (b64_decode k)
    else some k

unfoldable pub configure_key :
    Option Text → Bool → Text → Text → (Text → TxtRegistry) → Configured TxtRegistry
configure_key none encrypt prefix suffix build = refused bad_aes_key
configure_key (some k) encrypt prefix suffix build =
    if encrypt && is_nil k
    then refused aes_key_missing
    else if not (is_nil prefix) && not (is_nil suffix)
    then refused affixes_exclusive
    else configured (build k)

-- `NewTXTRegistry`; `b64_decode` is `base64.StdEncoding.DecodeString`
unfoldable pub new_txt_registry :
    (Text → Option Text)
    → Text
    → Text
    → Text
    → ℕ
    → Text
    → List Text
    → List Text
    → Bool
    → Text
    → Text
    → Configured TxtRegistry
unfolding aes_key_of configure_key new_affix_name_mapper
new_txt_registry b64_decode prefix suffix owner_id interval wildcard managed excluded encrypt
      aes_key old_owner_id =
    if is_nil owner_id
    then refused owner_empty
    else configure_key (aes_key_of b64_decode aes_key) encrypt prefix suffix (λ k. record {
      owner_id = owner_id;
      mapper = new_affix_name_mapper prefix suffix wildcard;
      records_cache = none;
      records_cache_refresh_time = 0;
      cache_interval = interval;
      wildcard_replacement = wildcard;
      managed_record_types = managed;
      exclude_record_types = excluded;
      txt_encrypt_enabled = encrypt;
      txt_encrypt_aes_key = k;
      old_owner_id = old_owner_id;
      existing_txts = [];
    })
