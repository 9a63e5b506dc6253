-- ===== src/Tests/DynamoTests.antt =====
-- registry/dynamodb at a table whose keys are all taken.
use mathlib.Core.List.{map}
use mathlib.Core.Option
use external_dns.Prelude.{
  List, Map, Option, Text, [], any, ap, arith, codes, if◌then◌else◌, inl, inr, int_eq, length,
  lookup, nat_eq, none, refl, snoc, some, text_beq, text_eq, true, ℕ, ◌==◌, ◌∷◌, ◌≡◌, ◌⊎◌,
}
use external_dns.Endpoint.Labels.{Cipher, quote}
use external_dns.Endpoint.Types.{Endpoint, EndpointKey, Labels, key, key_eq, owner_label_key}
use external_dns.Plan.Types.{Changes, no_changes}
use external_dns.Registry.Dynamo.Apply.{Applied, apply_dynamo_changes}
use external_dns.Registry.Dynamo.Execute.{Handler, execute_statements}
use external_dns.Registry.Dynamo.ExecuteLaws.{Sent, execute_statements-Sent}
use external_dns.Registry.Dynamo.ExecuteRule.{Answers}
use external_dns.Registry.Dynamo.HandedLaws.{HandsOurs, apply_dynamo_changes-HandsOurs}
use external_dns.Registry.Dynamo.KeyLaws.{entry-reads_back}
use external_dns.Registry.Dynamo.Keys.{
  from_dynamo_key, from_dynamo_labels, read_key, read_labels_of, to_dynamo_key, to_dynamo_labels,
}
use external_dns.Registry.Dynamo.NoPanic.{HasMessage, Returns, apply_dynamo_changes-Returns}
use external_dns.Registry.Dynamo.OrphanLaws.{OrphansOf, list_provider-OrphansOf}
use external_dns.Registry.Dynamo.Read.{LabelTable}
use external_dns.Registry.Dynamo.Records.{dynamo_records, list_provider}
use external_dns.Registry.Dynamo.Statements.{delete_statement, insert_statement}
use external_dns.Registry.Dynamo.Types.{
  BatchError, DynamoRegistry, Progress, Service, Statement, done, panicked, stopped, unfinished,
}
use external_dns.Registry.Mapper.{new_affix_name_mapper}
use external_dns.Registry.Records.{name_key}
use external_dns.Registry.Txt.{record_key_eq}
use external_dns.Tests.Samples.{me, record_of, sample_changes, sample_net}

-- a text, or the members of a map that are texts
abbrev SampleValue : Type 0
SampleValue = Text ⊎ Labels

abbrev text_member : SampleValue → Text
text_member (inl t) = t
text_member (inr m) = []

abbrev text_of : SampleValue → Option Text
text_of (inl t) = some t
text_of (inr m) = none

abbrev labels_of : SampleValue → Option (Option Labels)
labels_of (inl t) = none
labels_of (inr m) = some (some m)

abbrev members : Map Text SampleValue → Labels
members m = map (λ (e : Text × SampleValue). (e.0, text_member e.1)) m

members-texts : (m : Labels) → members (map (λ (e : Text × Text). (e.0, inl e.1)) m) ≡ m
members-texts [] = refl
members-texts ((k, v) ∷ m) = ap (λ r. (k, v) ∷ r) (members-texts m)

-- the first statement of a batch is a duplicate
abbrev first_duplicate : List (Statement SampleValue) → List (Option BatchError)
first_duplicate [] = []
first_duplicate (q ∷ qs) =
    some (record { code = codes "DuplicateItem"; message = some (codes "taken") }) ∷ []

abbrev sample_service : Service
sample_service = record {
  Value = SampleValue;
  text_value = λ t. inl t;
  map_value = λ m. inr (members m);
  unmarshal_text = text_of;
  unmarshal_labels = labels_of;
  unmarshal_text_value = λ t. refl;
  unmarshal_map_value = λ m. ap (λ r. some (some r)) (members-texts m);
  go_quote = quote;
  World = List (List (Statement SampleValue));
  batch_execute = λ w c. (snoc w c, some (first_duplicate c));
  provider_apply = λ w c. (w, true);
}

abbrev sample_table : LabelTable
sample_table =
    (key (record_of (codes "a.example.org") (codes "1.1.1.1") none), (owner_label_key, me) ∷ [])
    ∷ []

abbrev sample_dynamo : DynamoRegistry
sample_dynamo = record {
  owner_id = me;
  table = codes "records";
  mapper = new_affix_name_mapper (codes "txt.") [] [];
  wildcard_replacement = [];
  managed_record_types = [];
  exclude_record_types = [];
  txt_encrypt_aes_key = [];
  labels = some sample_table;
  orphaned_labels = [];
  records_cache = some [];
  records_cache_refresh_time = 0;
  cache_interval = 60;
}

apply_dynamo_changes-HandsOurs_example :
    HandsOurs sample_service me
      (apply_dynamo_changes sample_service [] sample_dynamo sample_changes)
apply_dynamo_changes-HandsOurs_example =
    apply_dynamo_changes-HandsOurs sample_service [] sample_dynamo sample_changes

sample_answers :
    (w : List (List (Statement SampleValue))) (c : List (Statement SampleValue))
    → Answers sample_service ⊥ (HasMessage sample_service) c (some (first_duplicate c))
sample_answers w [] = (inr (omega arith), tt)
sample_answers w (q ∷ qs) = (inr (omega arith), (λ e. cc, tt))

apply_dynamo_changes-Returns_example :
    Returns sample_service (apply_dynamo_changes sample_service [] sample_dynamo sample_changes)
apply_dynamo_changes-Returns_example =
    apply_dynamo_changes-Returns sample_service sample_answers [] sample_dynamo sample_changes
      (sample_table, refl)

-- how many records the provider is told to create; the first deletion fails too
abbrev created_count : Progress (Applied sample_service) → Option ℕ
created_count (stopped a e) = Option.map (λ (c : Changes). length c.create) a.handed
created_count _ = none

-- the one record to create is taken by another owner
none_created :
    created_count (apply_dynamo_changes sample_service [] sample_dynamo sample_changes) ≡ some 0
unfolding apply_dynamo_changes text_beq any
none_created = refl

abbrev sample_key : EndpointKey
sample_key = name_key (codes "a.example.org") (codes "A") []

entry-reads_back_example :
    (from_dynamo_key sample_service (to_dynamo_key sample_service sample_key) ≡ read_key sample_key)
    × ((m : Labels) × (from_dynamo_labels sample_service
            (to_dynamo_labels sample_service ((owner_label_key, codes "you") ∷ []))
            me
          ≡ read_labels_of m)
        × ((j : Text)
            → lookup j m ≡ (
                if owner_label_key == j
                then some me
                else lookup j ((owner_label_key, codes "you") ∷ []))))
entry-reads_back_example =
    entry-reads_back sample_service sample_key ((owner_label_key, codes "you") ∷ []) me
      (omega arith) (omega arith)

abbrev two_statements : List (Statement SampleValue)
two_statements =
    insert_statement sample_service sample_dynamo sample_key []
    ∷ delete_statement sample_service sample_dynamo sample_key
    ∷ []

-- a handler that goes on
abbrev go_on : Handler sample_service (Unit {0})
go_on s q e = done s

execute_statements-Sent_example :
    Sent sample_service
      (λ w. w)
      (λ w c. refl)
      []
      two_statements
      (execute_statements sample_service go_on two_statements ([], tt))
execute_statements-Sent_example =
    execute_statements-Sent sample_service (λ w. w) (λ w c. refl) go_on two_statements [] tt
      (λ s q e. tt)

abbrev no_cipher : Cipher
no_cipher = record {
  encrypt_text = λ text aes nonce. none;
  decrypt_text = λ text aes. none;
  generate_nonce = none;
}

list_provider-OrphansOf_example :
    OrphansOf sample_table [] (list_provider no_cipher 0 sample_table (some []) sample_dynamo)
list_provider-OrphansOf_example = list_provider-OrphansOf no_cipher 0 sample_table [] sample_dynamo

-- every statement fails
abbrev failing : List (Statement SampleValue) → List (Option BatchError)
failing [] = []
failing (q ∷ qs) =
    some (record { code = codes "ThrottlingError"; message = some (codes "slow down") })
    ∷ failing qs

abbrev failing_service : Service
failing_service = record sample_service { batch_execute = λ w c. (snoc w c, some (failing c)) }

-- the cached records and the next changes after an error
abbrev next_round : Progress (Applied failing_service) → Progress (Applied failing_service)
next_round (stopped a e) = go (dynamo_records failing_service no_cipher 1 none [] none a.registry)
  where
    go : Progress (DynamoRegistry × List Endpoint) → Progress (Applied failing_service)
    go (done (im, eps)) = apply_dynamo_changes failing_service [] im sample_changes
    go _ = unfinished
next_round _ = unfinished

-- a deletion in the table fails, and the cache is kept where the labels are dropped
panic_after_deletion :
    next_round (
      apply_dynamo_changes failing_service [] sample_dynamo
        (record no_changes { delete = sample_changes.delete }))
    ≡ panicked
unfolding apply_dynamo_changes dynamo_records text_beq any
panic_after_deletion = refl
