-- ===== src/Registry/Dynamo/Read.antt =====
-- `readLabels` of registry/dynamodb/registry.go.
use external_dns.Prelude.{
  Bool, List, Map, Option, Text, [], codes, false, if◌then◌else◌, insert, int_eq, length, ltb,
  nat_eq, none, not, some, text_eq, true, ◌&&◌, ◌==◌, ◌∷◌,
}
use external_dns.Endpoint.Types.{EndpointKey, Labels, key_eq}
use external_dns.Registry.Dynamo.Keys.{
  ReadKey, ReadLabels, from_dynamo_key, from_dynamo_labels, malformed_key, nil_labels, read_key,
  read_labels_of, unreadable_key, unreadable_labels,
}
use external_dns.Registry.Dynamo.Types.{
  DynamoRegistry, Progress, Service, and_then, describe_failed, done, key_not_string, key_undefined,
  key_unreadable, labels_unreadable, no_hash_key, panicked, range_key_found, scan_failed, stopped,
  unfinished,
}

-- what `DescribeTable` returns: the attributes with their types, and the names of the key schema
pub record TableDescription : Type 0 where
  pub attribute_definitions : List (Text × Text)
  pub key_schema : List Text

-- the loop over the attributes: `foundKey`, or `none` where the key is not a string
unfoldable pub find_key : List (Text × Text) → Bool → Option Bool
find_key [] found = some found
find_key ((name, kind) ∷ defs) found =
    let next_found = find_key defs (if name == codes "k" then true else found) in
    if name == codes "k" && not (kind == codes "S") then none else next_found

abbrev pub LabelTable : Type 0
LabelTable = Map EndpointKey Labels

abbrev pub check_schema : List Text → LabelTable → Progress LabelTable
check_schema [] s = panicked
check_schema (name ∷ names) s =
    if not (name == codes "k")
    then stopped s no_hash_key
    else if ltb 1 (length (name ∷ names))
    then stopped s range_key_found
    else done s

abbrev pub check_found : Option Bool → List Text → LabelTable → Progress LabelTable
check_found none schema s = stopped s key_not_string
check_found (some false) schema s = stopped s key_undefined
check_found (some true) schema s = check_schema schema s

-- the guards on the table's description; `none` is the error of `DescribeTable`
unfoldable pub check_table : Option TableDescription → LabelTable → Progress LabelTable
unfolding find_key
check_table none s = stopped s describe_failed
check_table (some t) s = check_found (find_key t.attribute_definitions false) t.key_schema s

module _ (service : Service) where
  open service use {Value}

  abbrev pub add_item : ReadKey → ReadLabels → LabelTable → Progress LabelTable
  add_item unreadable_key labels s = stopped s key_unreadable
  add_item malformed_key labels s = panicked
  add_item (read_key k) unreadable_labels s = stopped s labels_unreadable
  add_item (read_key k) nil_labels s = panicked
  add_item (read_key k) (read_labels_of labels) s = done (insert k labels s)

  -- the loop over the items of a page: the values of "k" and "l"
  unfoldable pub add_items : Text → List (Value × Value) → LabelTable → Progress LabelTable
  unfolding from_dynamo_key from_dynamo_labels
  add_items owner [] s = done s
  add_items owner ((k, l) ∷ items) s =
      and_then (add_item (from_dynamo_key service k) (from_dynamo_labels service l owner) s)
        λ s'. add_items owner items s'

  -- the loop over the pages of the scan; `none` is an error of `NextPage`
  unfoldable pub add_pages :
      Text → List (Option (List (Value × Value))) → LabelTable → Progress LabelTable
  unfolding add_items
  add_pages owner [] s = done s
  add_pages owner (none ∷ pages) s = stopped s scan_failed
  add_pages owner (some items ∷ pages) s =
      and_then (add_items owner items s) λ s'. add_pages owner pages s'

  abbrev pub keep_labels : DynamoRegistry → Progress LabelTable → Progress DynamoRegistry
  keep_labels im (done labels) = done (record im { labels = some labels })
  keep_labels im (stopped labels e) = stopped im e
  keep_labels im panicked = panicked
  keep_labels im unfinished = unfinished

  -- `readLabels`
  unfoldable pub read_labels :
      Option TableDescription
      → List (Option (List (Value × Value)))
      → DynamoRegistry
      → Progress DynamoRegistry
  unfolding check_table add_pages
  read_labels table pages im =
      keep_labels im (and_then (check_table table []) λ labels. add_pages im.owner_id pages labels)
