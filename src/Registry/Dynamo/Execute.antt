-- ===== src/Registry/Dynamo/Execute.antt =====
-- `executeStatements` of registry/dynamodb/registry.go, on fuel.
use external_dns.Prelude.{
  List, Option, Text, [], codes, cut, if◌then◌else◌, int_eq, length, ltb, nat_eq, none, some, suc,
  text_eq, zero, ℕ, ◌==◌, ◌∷◌,
}
use external_dns.Registry.Dynamo.Types.{
  BatchError, Progress, Service, Statement, and_then, batch_failed, done, panicked,
  parameter_unreadable, stopped, unfinished,
}

abbrev pub dynamodb_max_batch_size : ℕ
dynamodb_max_batch_size = 25

-- `xs[:n]` and `xs[n:]` of a list that is at least so long
unfoldable pub first_part {ℓ} : {A : Type ℓ} → ℕ → List A → List A
first_part zero xs = []
first_part (suc n) [] = []
first_part (suc n) (x ∷ xs) = x ∷ first_part n xs

unfoldable pub last_part {ℓ} : {A : Type ℓ} → ℕ → List A → List A
last_part zero xs = xs
last_part (suc n) [] = []
last_part (suc n) (x ∷ xs) = last_part n xs

-- `request.Parameters[i]`
unfoldable pub parameter : {Value : Type 0} → ℕ → List Value → Option Value
parameter i [] = none
parameter zero (v ∷ vs) = some v
parameter (suc i) (v ∷ vs) = parameter i vs

-- `attributevalue.Unmarshal` of a parameter into a string, where only the error is used
abbrev pub read_text : {S : Type 0} → Option Text → S → Progress S
read_text none s = stopped s parameter_unreadable
read_text (some text) s = done s

module _ (service : Service) where
  open service use {Value, World, unmarshal_text, batch_execute}

  abbrev pub read_parameter : {S : Type 0} → Option Value → S → Progress S
  read_parameter none s = panicked
  read_parameter (some v) s = read_text (unmarshal_text v) s

  -- what a statement without an error is logged with
  unfoldable pub log_statement : {S : Type 0} → Statement Value → S → Progress S
  unfolding cut parameter
  log_statement request s =
      if (cut b' ' request.statement).0 == codes "UPDATE"
      then read_parameter (parameter 1 request.parameters) s
      else read_parameter (parameter 0 request.parameters) s

  abbrev pub Handler : Type 0 → Type 0
  Handler S = S → Statement Value → BatchError → Progress S

  -- one round of the loop over the responses
  abbrev pub respond :
      {S : Type 0} → Handler S → Statement Value → Option BatchError → S → Progress S
  respond handle request none s = log_statement request s
  respond handle request (some e) s = handle s request e

  -- the loop over the responses; there is no request for a response too many
  unfoldable pub respond_all :
      {S : Type 0} → Handler S → List (Statement Value) → List (Option BatchError) → S → Progress S
  unfolding log_statement
  respond_all handle chunk [] s = done s
  respond_all handle [] (r ∷ rs) s = panicked
  respond_all handle (q ∷ qs) (r ∷ rs) s =
      and_then (respond handle q r s) λ s'. respond_all handle qs rs s'

  -- the world beside the state of the handler
  abbrev pub beside_world : {S : Type 0} → World → Progress S → Progress (World × S)
  beside_world w (done s) = done (w, s)
  beside_world w (stopped s e) = stopped (w, s) e
  beside_world w panicked = panicked
  beside_world w unfinished = unfinished

  abbrev pub after_batch :
      {S : Type 0}
      → Handler S
      → List (Statement Value)
      → S
      → World × Option (List (Option BatchError))
      → Progress (World × S)
  after_batch handle chunk s (w, none) = stopped (w, s) batch_failed
  after_batch handle chunk s (w, some responses) =
      beside_world w (respond_all handle chunk responses s)

  abbrev pub chunk_of : List (Statement Value) → List (Statement Value)
  chunk_of statements =
      if ltb dynamodb_max_batch_size (length statements)
      then first_part dynamodb_max_batch_size statements
      else statements

  abbrev pub rest_of : List (Statement Value) → List (Statement Value)
  rest_of statements =
      if ltb dynamodb_max_batch_size (length statements)
      then last_part dynamodb_max_batch_size statements
      else []

  unfoldable pub execute_batch :
      {S : Type 0} → Handler S → List (Statement Value) → World × S → Progress (World × S)
  unfolding respond_all
  execute_batch handle chunk (w, s) = after_batch handle chunk s (batch_execute w chunk)

  unfoldable pub execute_from :
      {S : Type 0} → ℕ → Handler S → List (Statement Value) → World × S → Progress (World × S)
  unfolding execute_batch first_part last_part
  execute_from fuel handle [] s = done s
  execute_from zero handle (q ∷ qs) s = unfinished
  execute_from (suc fuel) handle (q ∷ qs) s =
      and_then (execute_batch handle (chunk_of (q ∷ qs)) s)
        λ s'. execute_from fuel handle (rest_of (q ∷ qs)) s'

  -- a round takes at least one statement
  unfoldable pub execute_statements :
      {S : Type 0} → Handler S → List (Statement Value) → World × S → Progress (World × S)
  unfolding execute_from
  execute_statements handle statements s = execute_from (length statements) handle statements s
