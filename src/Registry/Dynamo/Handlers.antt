-- ===== src/Registry/Dynamo/Handlers.antt =====
-- The error handlers of `ApplyChanges` of registry/dynamodb/registry.go.
use mathlib.Core.Option
use external_dns.Prelude.{
  List, Option, Text, [], codes, has_prefix, if◌then◌else◌, int_eq, nat_eq, none, remove, some,
  text_eq, ℕ, ◌==◌, ◌∷◌,
}
use external_dns.Endpoint.Net.{Net}
use external_dns.Endpoint.Types.{Endpoint, EndpointKey, key, key_eq}
use external_dns.Registry.Apply.{remove_from_cache}
use external_dns.Registry.Dynamo.Execute.{parameter, read_parameter}
use external_dns.Registry.Dynamo.Keys.{
  ReadKey, from_dynamo_key, malformed_key, read_key, unreadable_key,
}
use external_dns.Registry.Dynamo.Loops.{forget_labels}
use external_dns.Registry.Dynamo.Types.{
  BatchError, DynamoRegistry, Progress, Service, Statement, and_then, done, key_unreadable,
  panicked, statement_failed, stopped,
}

-- the first endpoint with the key, and the list without it
unfoldable pub take_out : EndpointKey → List Endpoint → Option (Endpoint × List Endpoint)
take_out k [] = none
take_out k (ep ∷ eps) =
    let rest = take_out k eps in
    if key ep == k
    then some (ep, eps)
    else Option.map (λ (r : Endpoint × List Endpoint). (r.0, ep ∷ r.1)) rest

-- the registry, and the endpoints to create
abbrev pub Creating : Type 0
Creating = DynamoRegistry × List Endpoint

-- the error with the message, which is dereferenced
abbrev pub report : {S : Type 0} → Option Text → S → Progress S
report none s = panicked
report (some message) s = stopped s statement_failed

module _ (service : Service) where
  open service use {Value}

  abbrev pub report_parameter : {S : Type 0} → ℕ → Statement Value → BatchError → S → Progress S
  report_parameter i request e s =
      and_then (read_parameter service (parameter i request.parameters) s) λ s'. report e.message s'

  -- an endpoint whose key another owner holds is no longer created
  abbrev pub drop_created :
      ⦃net : Net⦄
      → Statement Value
      → BatchError
      → EndpointKey
      → Option (Endpoint × List Endpoint)
      → Creating
      → Progress Creating
  drop_created request e k none s = report_parameter 0 request e s
  drop_created request e k (some (ep, rest)) (im, create) = done (
    forget_labels k (record im { records_cache = (remove_from_cache ep im.records_cache).1 }),
    rest,
  )

  abbrev pub drop_duplicate :
      ⦃net : Net⦄ → Statement Value → BatchError → ReadKey → Creating → Progress Creating
  drop_duplicate request e unreadable_key s = stopped s key_unreadable
  drop_duplicate request e malformed_key s = panicked
  drop_duplicate request e (read_key k) s = drop_created request e k (take_out k s.1) s

  -- `request.Parameters[0]` as a key
  abbrev pub key_parameter : Option Value → ReadKey
  key_parameter none = malformed_key
  key_parameter (some v) = from_dynamo_key service v

  -- the handler of the statements before the provider is called
  unfoldable pub handle_write :
      ⦃net : Net⦄ → Creating → Statement Value → BatchError → Progress Creating
  unfolding has_prefix take_out remove_from_cache remove from_dynamo_key parameter
  handle_write s request e =
      if has_prefix request.statement (codes "INSERT")
      then (if e.code == codes "DuplicateItem"
          then drop_duplicate request e (key_parameter (parameter 0 request.parameters)) s
          else report_parameter 0 request e s)
      else report_parameter 1 request e s

  abbrev pub report_key : ReadKey → BatchError → DynamoRegistry → Progress DynamoRegistry
  report_key unreadable_key e im = stopped im key_unreadable
  report_key malformed_key e im = panicked
  report_key (read_key k) e im = report e.message im

  -- the handler of the statements that delete
  unfoldable pub handle_delete :
      DynamoRegistry → Statement Value → BatchError → Progress DynamoRegistry
  unfolding from_dynamo_key parameter
  handle_delete im request e =
      report_key (key_parameter (parameter 0 request.parameters)) e (record im { labels = none })
