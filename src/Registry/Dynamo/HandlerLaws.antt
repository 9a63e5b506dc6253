-- ===== src/Registry/Dynamo/HandlerLaws.antt =====
-- What the handlers of `ApplyChanges` of registry/dynamodb/registry.go keep, and where they panic.
use mathlib.Core.Option
use external_dns.Prelude.{
  All, List, Option, Text, [], codes, false, has_prefix, if-both, if-cases, int_eq, nat_eq, none,
  refl, some, text_eq, true, ℕ, ◌==◌, ◌∷◌, ◌≡◌,
}
use external_dns.Endpoint.Net.{Net}
use external_dns.Endpoint.Types.{Endpoint, EndpointKey, key, key_eq}
use external_dns.Registry.Dynamo.Execute.{parameter, read_parameter}
use external_dns.Registry.Dynamo.ExecuteRule.{Within, and_then-Within, read_text-Within}
use external_dns.Registry.Dynamo.Handlers.{
  Creating, drop_created, drop_duplicate, handle_delete, handle_write, key_parameter, report,
  report_key, report_parameter, take_out,
}
use external_dns.Registry.Dynamo.Keys.{ReadKey, malformed_key, read_key, unreadable_key}
use external_dns.Registry.Dynamo.Types.{BatchError, DynamoRegistry, Service, Statement}
use external_dns.Registry.GenerateLaws.{Whenever}

take_out-All :
    (P : Endpoint → Type 0) (k : EndpointKey) (eps : List Endpoint)
    → All P eps
    → Whenever (λ (r : Endpoint × List Endpoint). All P r.1) (take_out k eps)
unfolding take_out
take_out-All P k [] h = tt
take_out-All P k (ep ∷ eps) (hp, h) =
    if-both (Whenever (λ (r : Endpoint × List Endpoint). All P r.1)) (key ep == k) _ _ h
      (put_back (take_out k eps) (take_out-All P k eps h))
  where
    put_back :
        (o : Option (Endpoint × List Endpoint))
        → Whenever (λ (r : Endpoint × List Endpoint). All P r.1) o
        → Whenever
            (λ (r : Endpoint × List Endpoint). All P r.1)
            (Option.map (λ (r : Endpoint × List Endpoint). (r.0, ep ∷ r.1)) o)
    put_back none hr = tt
    put_back (some r) hr = (hp, hr)

report-Within :
    {S : Type 0} (I : S → Type 0) (P : Type 0) (m : Option Text) (s : S)
    → (m ≡ none → P)
    → I s
    → Within I P (report m s)
report-Within I P none s hm h = hm refl
report-Within I P (some t) s hm h = h

module _ (service : Service) where
  open service use {Value}

  pub found-Within :
      {S : Type 0} (I : S → Type 0) (P : Type 0) (o : Option Value) (s : S)
      → (o ≡ none → P)
      → I s
      → Within I P (read_parameter service o s)
  found-Within I P none s ho h = ho refl
  found-Within I P (some v) s ho h = read_text-Within I P (service.unmarshal_text v) s h

  report_parameter-Within :
      {S : Type 0} (I : S → Type 0) (P : Type 0) (i : ℕ) (q : Statement Value) (e : BatchError)
      (s : S)
      → (parameter i q.parameters ≡ none → P)
      → (e.message ≡ none → P)
      → I s
      → Within I P (report_parameter service i q e s)
  report_parameter-Within I P i q e s hp hm h =
      and_then-Within I P _ _ (found-Within I P (parameter i q.parameters) s hp h)
        λ s' h'. report-Within I P e.message s' hm h'

  -- Where a handler would panic, there is `P`: at a parameter that is missing or, for an insertion,
  -- is no key, and at an error without a message.
  pub record Sound (P : Type 0) (q : Statement Value) (e : BatchError) : Type 0 where
    pub first_there : parameter 0 q.parameters ≡ none → P
    pub second_there :
        has_prefix q.statement (codes "INSERT") ≡ false → parameter 1 q.parameters ≡ none → P
    pub key_there :
        has_prefix q.statement (codes "INSERT") ≡ true
        → key_parameter service (parameter 0 q.parameters) ≡ malformed_key
        → P
    pub message_there : e.message ≡ none → P

  module _ ⦃net : Net⦄ (J : Endpoint → Type 0) (P : Type 0) (q : Statement Value) (e : BatchError)
      (sound : Sound P q e) where
    abbrev Kept : Creating → Type 0
    Kept s = All J s.1

    drop_created-Within :
        (k : EndpointKey) (o : Option (Endpoint × List Endpoint)) (s : Creating)
        → Whenever (λ (r : Endpoint × List Endpoint). All J r.1) o
        → Kept s
        → Within Kept P (drop_created service q e k o s)
    drop_created-Within k none s hr h =
        report_parameter-Within Kept P 0 q e s sound.first_there sound.message_there h
    drop_created-Within k (some (ep, rest)) s hr h = hr

    drop_duplicate-Within :
        (r : ReadKey) (s : Creating)
        → (r ≡ malformed_key → P)
        → Kept s
        → Within Kept P (drop_duplicate service q e r s)
    drop_duplicate-Within unreadable_key s hk h = h
    drop_duplicate-Within malformed_key s hk h = hk refl
    drop_duplicate-Within (read_key k) s hk h =
        drop_created-Within k (take_out k s.1) s (take_out-All J k s.1 h) h

    pub handle_write-Within : (s : Creating) → Kept s → Within Kept P (handle_write service s q e)
    unfolding handle_write
    handle_write-Within s h =
        if-cases (Within Kept P) (has_prefix q.statement (codes "INSERT")) _ _
          (λ t.
            if-both (Within Kept P) (e.code == codes "DuplicateItem") _ _
              (drop_duplicate-Within (key_parameter service (parameter 0 q.parameters)) s
                (sound.key_there t) h)
              (report_parameter-Within Kept P 0 q e s sound.first_there sound.message_there h))
          (λ f. report_parameter-Within Kept P 1 q e s (sound.second_there f) sound.message_there h)

  report_key-Within :
      (P : Type 0) (r : ReadKey) (e : BatchError) (im : DynamoRegistry)
      → (r ≡ malformed_key → P)
      → (e.message ≡ none → P)
      → Within (λ im. Unit {0}) P (report_key service r e im)
  report_key-Within P unreadable_key e im hk hm = tt
  report_key-Within P malformed_key e im hk hm = hk refl
  report_key-Within P (read_key k) e im hk hm = report-Within (λ im. Unit {0}) P e.message im hm tt

  pub handle_delete-Within :
      (P : Type 0) (im : DynamoRegistry) (q : Statement Value) (e : BatchError)
      → (key_parameter service (parameter 0 q.parameters) ≡ malformed_key → P)
      → (e.message ≡ none → P)
      → Within (λ im. Unit {0}) P (handle_delete service im q e)
  unfolding handle_delete
  handle_delete-Within P im q e hk hm =
      report_key-Within P (key_parameter service (parameter 0 q.parameters)) e _ hk hm
