-- ===== src/Registry/Dynamo/ExecuteRule.antt =====
-- A rule for the loop of `executeStatements` of registry/dynamodb/registry.go: what its handler keeps
-- of the state, the loop keeps.
use mathlib.Core.Path.{subst}
use mathlib.Core.List.{append-nil}
use external_dns.Prelude.{
  All, All-append_left, All-append_right, All-unit, Bool-cases, List, Option, Text, [], ap, arith,
  if-both, inl, inr, length, ltb, ltb→lt, none, refl, some, suc, sym, zero, ℕ, ◌++◌, ◌-◌, ◌<◌, ◌∷◌,
  ◌≡◌, ◌≤◌, ◌⊎◌,
}
use external_dns.Registry.Dynamo.Execute.{
  Handler, after_batch, beside_world, chunk_of, dynamodb_max_batch_size, execute_batch,
  execute_from, execute_statements, first_part, last_part, log_statement, parameter, read_parameter,
  read_text, respond, respond_all, rest_of,
}
use external_dns.Registry.Dynamo.Types.{
  BatchError, Progress, Service, Statement, and_then, done, panicked, stopped, unfinished,
}

-- The state at the return or at the error has `I`; a panic has `P`; the fuel was enough.
abbrev pub Within {ℓ} : {S : Type ℓ} → (S → Type 0) → Type 0 → Progress S → Type 0
Within I P (done s) = I s
Within I P (stopped s e) = I s
Within I P panicked = P
Within I P unfinished = ⊥

pub and_then-Within {ℓ} :
    {S : Type ℓ} (I : S → Type 0) (P : Type 0) (p : Progress S) (f : S → Progress S)
    → Within I P p
    → ((s : S) → I s → Within I P (f s))
    → Within I P (and_then p f)
and_then-Within I P (done s) f h hf = hf s h
and_then-Within I P (stopped s e) f h hf = h
and_then-Within I P panicked f h hf = h
and_then-Within I P unfinished f h hf = h

pub read_text-Within :
    {S : Type 0} (I : S → Type 0) (P : Type 0) (o : Option Text) (s : S)
    → I s
    → Within I P (read_text o s)
read_text-Within I P none s h = h
read_text-Within I P (some text) s h = h

pub read_parameter-Within :
    (service : Service) {S : Type 0} (I : S → Type 0) (o : Option service.Value) (s : S)
    → I s
    → Within I (Unit {0}) (read_parameter service o s)
read_parameter-Within service I none s h = tt
read_parameter-Within service I (some v) s h =
    read_text-Within I Unit (service.unmarshal_text v) s h

first_part-last_part {ℓ} :
    {A : Type ℓ} (n : ℕ) (xs : List A) → first_part n xs ++ last_part n xs ≡ xs
unfolding first_part last_part
first_part-last_part zero xs = refl
first_part-last_part (suc n) [] = refl
first_part-last_part (suc n) (x ∷ xs) = ap (λ t. x ∷ t) (first_part-last_part n xs)

length-first_part {ℓ} :
    {A : Type ℓ} (n : ℕ) (xs : List A) → n ≤ length xs → length (first_part n xs) ≡ n
unfolding first_part
length-first_part zero xs h = refl
length-first_part (suc n) [] h = omega (arith, h)
length-first_part (suc n) (x ∷ xs) h = omega (arith, length-first_part n xs (omega (arith, h)))

length-last_part {ℓ} : {A : Type ℓ} (n : ℕ) (xs : List A) → length (last_part n xs) ≡ length xs - n
unfolding last_part
length-last_part zero xs = omega arith
length-last_part (suc n) [] = omega arith
length-last_part (suc n) (x ∷ xs) = omega (arith, length-last_part n xs)

-- A batch has at least one statement and at most 25.
abbrev pub Small {ℓ} : {A : Type ℓ} → List A → Type 0
Small c = (0 < length c) × (length c ≤ dynamodb_max_batch_size)

module _ (service : Service) where
  open service use {Value, World, batch_execute}

  pub chunk-rest : (qs : List (Statement Value)) → chunk_of service qs ++ rest_of service qs ≡ qs
  chunk-rest qs = elim (Bool-cases (ltb dynamodb_max_batch_size (length qs))) [
    | inl e ↦ rw e (first_part-last_part 25 qs)
    | inr e ↦ rw e (append-nil qs)
  ]

  pub chunk-Small :
      (q : Statement Value) (qs : List (Statement Value)) → Small (chunk_of service (q ∷ qs))
  chunk-Small q qs = elim (Bool-cases (ltb dynamodb_max_batch_size (length (q ∷ qs)))) [
    | inl e ↦
        let long = ltb→lt 25 (length (q ∷ qs)) e in
        let full = length-first_part 25 (q ∷ qs) (omega (arith, long)) in
        rw (e, full) (omega arith, omega arith)
    | inr e ↦ rw e (omega arith, ground (arith, e))
  ]

  pub rest-shorter :
      (q : Statement Value) (qs : List (Statement Value))
      → length (rest_of service (q ∷ qs)) ≤ length qs
  rest-shorter q qs = elim (Bool-cases (ltb dynamodb_max_batch_size (length (q ∷ qs)))) [
    | inl e ↦ rw e (omega (arith, length-last_part 25 (q ∷ qs)))
    | inr e ↦ rw e (omega arith)
  ]

  -- What a batch is answered: no response too many, or the panic has `P`; and each has `E`.
  abbrev pub Answers :
      Type 0
      → (Option BatchError → Type 0)
      → List (Statement Value)
      → Option (List (Option BatchError))
      → Type 0
  Answers P E c none = Unit
  Answers P E c (some rs) = (P ⊎ (length rs ≤ length c)) × All E rs

  module _ {S : Type 0} (I : S → Type 0) (P : Type 0) (Q : Statement Value → Type 0)
      (E : Option BatchError → Type 0) (handle : Handler service S)
      (kept : (s : S) (q : Statement Value) (r : Option BatchError)
        → Q q
        → E r
        → I s
        → Within I P (respond service handle q r s)) where
    one_fewer : (n m : ℕ) → P ⊎ (suc n ≤ suc m) → P ⊎ (n ≤ m)
    one_fewer n m (inl p) = inl p
    one_fewer n m (inr fit) = inr (omega (arith, fit))

    pub respond_all-Within :
        (qs : List (Statement Value)) (rs : List (Option BatchError)) (s : S)
        → All Q qs
        → P ⊎ (length rs ≤ length qs)
        → All E rs
        → I s
        → Within I P (respond_all service handle qs rs s)
    unfolding respond_all
    respond_all-Within qs [] s hq fit he h = h
    respond_all-Within [] (r ∷ rs) s hq (inl p) he h = p
    respond_all-Within [] (r ∷ rs) s hq (inr fit) he h = absurd (omega (arith, fit))
    respond_all-Within (q ∷ qs) (r ∷ rs) s (hq, hqs) fit (he, hes) h =
        and_then-Within I P (respond service handle q r s) _ (kept s q r hq he h)
          λ s' h'. respond_all-Within qs rs s' hqs (one_fewer (length rs) (length qs) fit) hes h'

    beside-Within :
        (w : World) (p : Progress S)
        → Within I P p
        → Within (λ (x : World × S). I x.1) P (beside_world service w p)
    beside-Within w (done s) h = h
    beside-Within w (stopped s e) h = h
    beside-Within w panicked h = h
    beside-Within w unfinished h = h

    after_batch-Within :
        (c : List (Statement Value)) (s : S) (o : World × Option (List (Option BatchError)))
        → All Q c
        → Answers P E c o.1
        → I s
        → Within (λ (x : World × S). I x.1) P (after_batch service handle c s o)
    after_batch-Within c s (w, none) hq ha h = h
    after_batch-Within c s (w, some rs) hq (fit, he) h =
        beside-Within w _ (respond_all-Within c rs s hq fit he h)

    execute_from-Within :
        (fuel : ℕ) (statements : List (Statement Value)) (w : World) (s : S)
        → ((w : World) (c : List (Statement Value)) → Answers P E c (batch_execute w c).1)
        → All Q statements
        → length statements ≤ fuel
        → I s
        → Within (λ (x : World × S). I x.1) P (execute_from service fuel handle statements (w, s))
    unfolding execute_from execute_batch
    execute_from-Within fuel [] w s ha hq enough h = h
    execute_from-Within zero (q ∷ qs) w s ha hq enough h = omega (arith, enough)
    execute_from-Within (suc fuel) (q ∷ qs) w s ha hq enough h =
        let c = chunk_of service (q ∷ qs) in
        let rest = rest_of service (q ∷ qs) in
        let both : All Q (c ++ rest) = subst (All Q) (sym (chunk-rest (q ∷ qs))) hq in
        let shorter : length rest ≤ fuel = omega (arith, enough, rest-shorter q qs) in
        and_then-Within (λ (x : World × S). I x.1) P _ _
          (after_batch-Within c s (batch_execute w c) (All-append_left Q c rest both) (ha w c) h)
          λ x hx.
            execute_from-Within fuel rest x.0 x.1 ha (All-append_right Q c rest both) shorter hx

    -- An invariant that the rounds keep holds of the state that the loop leaves.
    pub execute_statements-Within :
        (statements : List (Statement Value)) (w : World) (s : S)
        → ((w : World) (c : List (Statement Value)) → Answers P E c (batch_execute w c).1)
        → All Q statements
        → I s
        → Within (λ (x : World × S). I x.1) P (execute_statements service handle statements (w, s))
    unfolding execute_statements
    execute_statements-Within statements w s ha hq h =
        execute_from-Within (length statements) statements w s ha hq (omega arith) h

  pub respond-Within :
      {S : Type 0} (I : S → Type 0) (handle : Handler service S) (s : S) (q : Statement Value)
      (r : Option BatchError)
      → ((s : S) (q : Statement Value) (e : BatchError) → I s → Within I (Unit {0}) (handle s q e))
      → I s
      → Within I (Unit {0}) (respond service handle q r s)
  unfolding log_statement
  respond-Within I handle s q none hh h =
      if-both (Within I (Unit {0})) _ _ _
        (read_parameter-Within service I (parameter 1 q.parameters) s h)
        (read_parameter-Within service I (parameter 0 q.parameters) s h)
  respond-Within I handle s q (some e) hh h = hh s q e h

  pub respond_all-Finishes :
      {S : Type 0} (handle : Handler service S) (qs : List (Statement Value))
      (rs : List (Option BatchError)) (s : S)
      → ((s : S) (q : Statement Value) (e : BatchError)
          → Within (λ s. Unit {0}) (Unit {0}) (handle s q e))
      → Within (λ s. Unit {0}) (Unit {0}) (respond_all service handle qs rs s)
  respond_all-Finishes handle qs rs s h =
      respond_all-Within (λ s. Unit {0}) (Unit {0}) (λ q. Unit {0}) (λ r. Unit {0}) handle
        (λ s q r hq he hs. respond-Within (λ s. Unit {0}) handle s q r (λ s q e u. h s q e) tt) qs
        rs s (All-unit qs) (inl tt) (All-unit rs) tt
