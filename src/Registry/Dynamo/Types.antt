-- ===== src/Registry/Dynamo/Types.antt =====
-- The registry of registry/dynamodb/registry.go, its statements, and what it takes from the AWS
-- library and from the provider: an interface with the documented facts that the theorems use.
use mathlib.Core.List.{map}
use external_dns.Prelude.{
  Bool, List, Map, Option, Text, [], if◌then◌else◌, inl, inr, is_nil, none, not, some, ℕ, ◌&&◌, ◌≡◌,
  ◌⊎◌,
}
use external_dns.Endpoint.Types.{Endpoint, EndpointKey, Labels}
use external_dns.Plan.Types.{Changes}
use external_dns.Registry.Mapper.{AffixNameMapper, new_affix_name_mapper}
use external_dns.Registry.Txt.{aes_key_of}

pub data DynamoError : Type 0 where
  owner_missing table_missing bad_dynamo_aes_key dynamo_affixes_exclusive : DynamoError
  describe_failed key_not_string key_undefined no_hash_key range_key_found : DynamoError
  scan_failed key_unreadable labels_unreadable : DynamoError
  batch_failed parameter_unreadable statement_failed provider_failed : DynamoError

-- how a piece of the code ends: it returns, it returns an error with the state it leaves, it
-- panics, or the fuel of its loop is spent
pub data Progress {ℓ} (State : Type ℓ) : Type ℓ where
  done : State → Progress State
  stopped : State → DynamoError → Progress State
  panicked : Progress State
  unfinished : Progress State

abbrev pub and_then {ℓ} : {S : Type ℓ} → Progress S → (S → Progress S) → Progress S
and_then (done s) f = f s
and_then (stopped s e) f = stopped s e
and_then panicked f = panicked
and_then unfinished f = unfinished

-- `dynamodbtypes.BatchStatementRequest`; `ConsistentRead` is not read
pub record Statement (Value : Type 0) : Type 0 where
  pub statement : Text
  pub parameters : List Value

-- `dynamodbtypes.BatchStatementError`; the message is a pointer, which may be nil
pub record BatchError : Type 0 where
  pub code : Text
  pub message : Option Text

pub record Service : Type 1 where
  -- `dynamodbtypes.AttributeValue`, with its members S and M
  pub Value : Type 0
  pub text_value : Text → Value
  pub map_value : Map Text Value → Value
  -- `attributevalue.Unmarshal` into a string and into an empty label map; `none` is an error, and
  -- an attribute that is missing or NULL leaves the nil map, `some none`
  pub unmarshal_text : Value → Option Text
  pub unmarshal_labels : Value → Option (Option Labels)
  pub unmarshal_text_value : (s : Text) → unmarshal_text (text_value s) ≡ some s
  pub unmarshal_map_value :
      (m : Labels)
      → unmarshal_labels (map_value (map (λ (e : Text × Text). (e.0, text_value e.1)) m))
        ≡ some (some m)
  -- `fmt.Sprintf` of a text with the verb q
  pub go_quote : Text → Text
  -- the table and the DNS provider
  pub World : Type 0
  -- `BatchExecuteStatement`: an error, or one response for each statement
  pub batch_execute : World → List (Statement Value) → World × Option (List (Option BatchError))
  -- `provider.ApplyChanges`: whether there was no error
  pub provider_apply : World → Changes → World × Bool

-- `labels` is nil until the table is read; a nil set of orphaned labels acts as an empty one
pub record DynamoRegistry : Type 0 where
  pub owner_id : Text
  pub table : Text
  pub mapper : AffixNameMapper
  pub wildcard_replacement : Text
  pub managed_record_types : List Text
  pub exclude_record_types : List Text
  pub txt_encrypt_aes_key : Text
  pub labels : Option (Map EndpointKey Labels)
  pub orphaned_labels : Map EndpointKey (Unit {0})
  pub records_cache : Option (List Endpoint)
  pub records_cache_refresh_time : ℕ
  pub cache_interval : ℕ

abbrev pub configure_dynamo :
    Option Text → Text → Text → (Text → DynamoRegistry) → DynamoRegistry ⊎ DynamoError
configure_dynamo none prefix suffix build = inr bad_dynamo_aes_key
configure_dynamo (some k) prefix suffix build =
    if not (is_nil prefix) && not (is_nil suffix)
    then inr dynamo_affixes_exclusive
    else inl (build k)

-- `NewDynamoDBRegistry`; `b64_decode` is `base64.StdEncoding.DecodeString`
unfoldable pub new_dynamo_registry :
    (Text → Option Text)
    → Text
    → Text
    → Text
    → Text
    → Text
    → List Text
    → List Text
    → Text
    → ℕ
    → DynamoRegistry ⊎ DynamoError
unfolding aes_key_of new_affix_name_mapper
new_dynamo_registry b64_decode owner_id table prefix suffix wildcard managed excluded aes_key
      interval =
    if is_nil owner_id
    then inr owner_missing
    else if is_nil table
    then inr table_missing
    else configure_dynamo (aes_key_of b64_decode aes_key) prefix suffix (λ k. record {
      owner_id = owner_id;
      table = table;
      mapper = new_affix_name_mapper prefix suffix wildcard;
      wildcard_replacement = wildcard;
      managed_record_types = managed;
      exclude_record_types = excluded;
      txt_encrypt_aes_key = k;
      labels = none;
      orphaned_labels = [];
      records_cache = none;
      records_cache_refresh_time = 0;
      cache_interval = interval;
    })
