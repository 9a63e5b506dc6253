-- ===== src/Registry/Dynamo/Records.antt =====
-- `Records` of registry/dynamodb/registry.go: the labels are shared maps in the source, and are
-- copied here.
use mathlib.Core.List.{map}
use external_dns.Prelude.{
  List, Map, Option, Text, [], codes, if◌then◌else◌, insert, int_eq, is_nil, join, lookup, ltb,
  nat_eq, none, remove, snoc, some, split, text_eq, ℕ, ◌++◌, ◌+◌, ◌==◌, ◌∷◌,
}
use external_dns.Endpoint.Labels.{Cipher, new_labels_from_string}
use external_dns.Endpoint.Properties.{set_provider_specific_property, write_label}
use external_dns.Endpoint.Types.{
  Endpoint, EndpointKey, Labels, key, key_eq, owner_label_key, record_type_aaaa, record_type_txt,
}
use external_dns.Registry.Apply.{option_bind}
use external_dns.Registry.Dynamo.Read.{LabelTable, TableDescription, read_labels}
use external_dns.Registry.Dynamo.Types.{
  DynamoRegistry, Progress, Service, done, panicked, provider_failed, stopped, unfinished,
}
use external_dns.Registry.Generate.{labels_or_nil}
use external_dns.Registry.Mapper.{to_endpoint_name}
use external_dns.Registry.Records.{copy_labels, name_key, replace_first}

-- the state of the first loop
pub record DynamoScan : Type 0 where
  pub orphaned_labels : Map EndpointKey (Unit {0})
  pub endpoints : List Endpoint
  pub label_map : Map EndpointKey Labels
  pub txt_records_map : Map EndpointKey Endpoint

abbrev pub aaaa_only : Text → Text
aaaa_only record_type = if record_type == record_type_aaaa then record_type else []

abbrev pub keep_record : Endpoint → DynamoScan → DynamoScan
keep_record r s = record s { endpoints = snoc s.endpoints r }

-- a TXT record whose labels were read; `none` is the panic of the name mapper
abbrev pub set_aside : Endpoint → Labels → Option (Text × Text) → DynamoScan → Option DynamoScan
set_aside r labels none s = none
set_aside r labels (some (name, record_type)) s =
    let k = name_key name (aaaa_only record_type) r.set_identifier in
    some (record s {
      label_map = insert k labels s.label_map;
      txt_records_map = insert k r s.txt_records_map;
    })

abbrev pub aside_if : DynamoRegistry → Endpoint → Option Labels → DynamoScan → Option DynamoScan
aside_if im r none s = some (keep_record r s)
aside_if im r (some labels) s = set_aside r labels (to_endpoint_name im.mapper r.dns_name) s

-- `record.Targets[0]` of a record without targets panics
abbrev pub scan_txt :
    Cipher → DynamoRegistry → Endpoint → List Text → DynamoScan → Option DynamoScan
scan_txt cipher im r [] s = none
scan_txt cipher im r (t ∷ ts) s =
    aside_if im r (new_labels_from_string cipher t im.txt_encrypt_aes_key) s

abbrev pub labelled : Labels → Endpoint → Endpoint
labelled labels r = record r { labels = some labels }

-- one round, by the labels of the table
unfoldable pub scan_known :
    Cipher → DynamoRegistry → Endpoint → Option Labels → DynamoScan → Option DynamoScan
unfolding new_labels_from_string to_endpoint_name remove insert
scan_known cipher im r (some labels) s = some (
    keep_record (labelled labels r)
      (record s { orphaned_labels = remove (key r) s.orphaned_labels }))
scan_known cipher im r none s =
    let r' = labelled [] r in
    if r'.record_type == record_type_txt
    then scan_txt cipher im r' r'.targets s
    else some (keep_record r' s)

unfoldable pub scan_all :
    Cipher → DynamoRegistry → LabelTable → List Endpoint → DynamoScan → Option DynamoScan
unfolding scan_known lookup
scan_all cipher im labels [] s = some s
scan_all cipher im labels (r ∷ rs) s =
    option_bind (scan_known cipher im r (lookup (key r) labels) s)
      λ s'. scan_all cipher im labels rs s'

abbrev pub dynamodb_attribute_migrate : Text
dynamodb_attribute_migrate = codes "dynamodb/needs-migration"

-- the key under which the labels of an endpoint were set aside
unfoldable pub txt_key : Text → Endpoint → EndpointKey
unfolding split join
txt_key wildcard ep =
    name_key (join (replace_first wildcard (split ep.dns_name b'.')) b'.')
      (aaaa_only ep.record_type) ep.set_identifier

-- an endpoint, and the TXT records that no endpoint has used
abbrev pub use_labels :
    Endpoint
    → EndpointKey
    → Option Labels
    → Map EndpointKey Endpoint
    → Endpoint × Map EndpointKey Endpoint
use_labels ep k none txts = (ep, txts)
use_labels ep k (some labels) txts = (
  set_provider_specific_property dynamodb_attribute_migrate (codes "true")
      (record ep { labels = some (copy_labels (labels_or_nil ep.labels) labels) }),
  remove k txts,
)

unfoldable pub migrate_endpoint :
    Text
    → Map EndpointKey Labels
    → Option Labels
    → Endpoint
    → Map EndpointKey Endpoint
    → Endpoint × Map EndpointKey Endpoint
unfolding txt_key lookup remove copy_labels set_provider_specific_property
migrate_endpoint wildcard label_map (some known) ep txts = (ep, txts)
migrate_endpoint wildcard label_map none ep txts =
    let k = txt_key wildcard ep in use_labels ep k (lookup k label_map) txts

-- the second loop
unfoldable pub migrate_endpoints :
    Text
    → Map EndpointKey Labels
    → LabelTable
    → List Endpoint
    → Map EndpointKey Endpoint
    → List Endpoint × Map EndpointKey Endpoint
unfolding migrate_endpoint lookup
migrate_endpoints wildcard label_map labels [] txts = ([], txts)
migrate_endpoints wildcard label_map labels (ep ∷ eps) txts =
    let (ep', txts') = migrate_endpoint wildcard label_map (lookup (key ep) labels) ep txts in
    let (eps', left) = migrate_endpoints wildcard label_map labels eps txts' in (ep' ∷ eps', left)

abbrev pub migrated :
    DynamoRegistry → LabelTable → DynamoScan → List Endpoint × Map EndpointKey Endpoint
migrated im labels s =
    if is_nil s.label_map
    then (s.endpoints, s.txt_records_map)
    else migrate_endpoints im.wildcard_replacement s.label_map labels s.endpoints s.txt_records_map

-- the third loop, in the order of the map, which Go leaves open
unfoldable pub claim_unused : Text → Map EndpointKey Endpoint → List Endpoint
claim_unused owner [] = []
claim_unused owner ((k, r) ∷ txts) =
    record r { labels = write_label owner_label_key owner r.labels } ∷ claim_unused owner txts

-- the endpoints that a scan results in
unfoldable pub listed_endpoints : DynamoRegistry → LabelTable → DynamoScan → List Endpoint
unfolding migrate_endpoints claim_unused
listed_endpoints im labels s =
    let (eps, txts) = migrated im labels s in eps ++ claim_unused im.owner_id txts

abbrev pub fill_cache : ℕ → List Endpoint → DynamoRegistry → DynamoRegistry
fill_cache now eps im =
    if ltb 0 im.cache_interval
    then record im { records_cache = some eps; records_cache_refresh_time = now }
    else im

abbrev pub list_scanned :
    DynamoRegistry → ℕ → LabelTable → Option DynamoScan → Progress (DynamoRegistry × List Endpoint)
list_scanned im now labels none = panicked
list_scanned im now labels (some s) =
    let eps = listed_endpoints im labels s in
    done (fill_cache now eps (record im { orphaned_labels = s.orphaned_labels }), eps)

-- `sets.KeySet`
abbrev pub key_set : LabelTable → Map EndpointKey (Unit {0})
key_set labels = map (λ (e : EndpointKey × Labels). (e.0, tt)) labels

-- the records of the provider, `none` for its error
unfoldable pub list_provider :
    Cipher
    → ℕ
    → LabelTable
    → Option (List Endpoint)
    → DynamoRegistry
    → Progress (DynamoRegistry × List Endpoint)
unfolding scan_all listed_endpoints
list_provider cipher now labels none im = stopped (im, []) provider_failed
list_provider cipher now labels (some rs) im = list_scanned im now labels (
    scan_all cipher im labels rs (record {
      orphaned_labels = key_set labels;
      endpoints = [];
      label_map = [];
      txt_records_map = [];
    }))

-- the registry whose labels are read where they were nil
unfoldable pub with_labels :
    (service : Service)
    → Option TableDescription
    → List (Option (List (service.Value × service.Value)))
    → DynamoRegistry
    → Option LabelTable
    → Progress DynamoRegistry
unfolding read_labels
with_labels service table pages im none = read_labels service table pages im
with_labels service table pages im (some labels) = done im

abbrev pub list_labelled :
    Cipher
    → ℕ
    → Option (List Endpoint)
    → DynamoRegistry
    → Option LabelTable
    → Progress (DynamoRegistry × List Endpoint)
list_labelled cipher now rs im none = panicked
list_labelled cipher now rs im (some labels) = list_provider cipher now labels rs im

abbrev pub list_after :
    Cipher
    → ℕ
    → Option (List Endpoint)
    → Progress DynamoRegistry
    → Progress (DynamoRegistry × List Endpoint)
list_after cipher now rs (done im) = list_labelled cipher now rs im im.labels
list_after cipher now rs (stopped im e) = stopped (im, []) e
list_after cipher now rs panicked = panicked
list_after cipher now rs unfinished = unfinished

abbrev pub cached_or :
    Option (List Endpoint)
    → DynamoRegistry
    → Progress (DynamoRegistry × List Endpoint)
    → Progress (DynamoRegistry × List Endpoint)
cached_or none im otherwise = otherwise
cached_or (some eps) im otherwise = done (im, eps)

-- `Records`, at the time `now`
unfoldable pub dynamo_records :
    (service : Service)
    → Cipher
    → ℕ
    → Option TableDescription
    → List (Option (List (service.Value × service.Value)))
    → Option (List Endpoint)
    → DynamoRegistry
    → Progress (DynamoRegistry × List Endpoint)
unfolding with_labels list_provider
dynamo_records service cipher now table pages rs im =
    cached_or
      (if ltb now (im.records_cache_refresh_time + im.cache_interval)
        then im.records_cache
        else none)
      im (list_after cipher now rs (with_labels service table pages im im.labels))
