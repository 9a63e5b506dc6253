-- ===== src/Registry/Dynamo/Statements.antt =====
-- `appendInsert`, `appendUpdate` and `appendDelete` of registry/dynamodb/registry.go.
use external_dns.Prelude.{
  Bool, List, Option, Text, [], codes, eqb, false, if◌then◌else◌, int_eq, length, lookup, nat_eq,
  none, snoc, some, text_eq, true, ◌&&◌, ◌++◌, ◌==◌, ◌∷◌,
}
use external_dns.Endpoint.Types.{EndpointKey, Labels, key_eq}
use external_dns.Registry.Dynamo.Keys.{to_dynamo_key, to_dynamo_labels}
use external_dns.Registry.Dynamo.Types.{DynamoRegistry, Service, Statement}

abbrev pub same_label : Text → Option Text → Bool
same_label v none = false
same_label v (some w) = v == w

-- the loop over the old labels
unfoldable pub labels_kept : Labels → Labels → Bool
unfolding lookup
labels_kept [] new_labels = true
labels_kept ((k, v) ∷ old) new_labels =
    let rest = labels_kept old new_labels in
    if same_label v (lookup k new_labels) then rest else false

-- the guard of `appendUpdate`
unfoldable pub labels_equal : Labels → Labels → Bool
unfolding labels_kept
labels_equal old new_labels = eqb (length old) (length new_labels) && labels_kept old new_labels

module _ (service : Service) (im : DynamoRegistry) where
  open service use {Value, text_value, go_quote}

  unfoldable pub insert_statement : EndpointKey → Labels → Statement Value
  unfolding to_dynamo_key to_dynamo_labels
  insert_statement k new_labels = record {
    statement = codes "INSERT INTO " ++ go_quote im.table ++ codes " VALUE {'k':?, 'o':?, 'l':?}";
    parameters =
        to_dynamo_key service k ∷ text_value im.owner_id ∷ to_dynamo_labels service new_labels ∷ [];
  }

  unfoldable pub append_insert :
      List (Statement Value) → EndpointKey → Labels → List (Statement Value)
  unfolding insert_statement
  append_insert statements k new_labels = snoc statements (insert_statement k new_labels)

  unfoldable pub update_statement : EndpointKey → Labels → Statement Value
  unfolding to_dynamo_key to_dynamo_labels
  update_statement k new_labels = record {
    statement = codes "UPDATE " ++ go_quote im.table ++ codes " SET \"l\"=? WHERE \"k\"=?";
    parameters = to_dynamo_labels service new_labels ∷ to_dynamo_key service k ∷ [];
  }

  unfoldable pub append_update :
      List (Statement Value) → EndpointKey → Labels → Labels → List (Statement Value)
  unfolding update_statement labels_equal
  append_update statements k old new_labels =
      if labels_equal old new_labels
      then statements
      else snoc statements (update_statement k new_labels)

  unfoldable pub delete_statement : EndpointKey → Statement Value
  unfolding to_dynamo_key
  delete_statement k = record {
    statement = codes "DELETE FROM " ++ go_quote im.table ++ codes " WHERE \"k\"=? AND \"o\"=?";
    parameters = to_dynamo_key service k ∷ text_value im.owner_id ∷ [];
  }

  unfoldable pub append_delete : List (Statement Value) → EndpointKey → List (Statement Value)
  unfolding delete_statement
  append_delete statements k = snoc statements (delete_statement k)
