-- ===== src/Registry/Dynamo/ExecuteLaws.antt =====
-- The batches that `executeStatements` of registry/dynamodb/registry.go sends.
use mathlib.Core.Path.{subst}
use mathlib.Core.List.{append_assoc, append-nil}
use external_dns.Prelude.{
  All, List, Option, [], ap, arith, length, none, refl, snoc, some, suc, sym, zero, ℕ, ◌++◌, ◌∙◌,
  ◌∷◌, ◌≡◌, ◌≤◌,
}
use external_dns.Registry.Dynamo.Execute.{
  Handler, after_batch, beside_world, chunk_of, execute_batch, execute_from, execute_statements,
  respond_all, rest_of,
}
use external_dns.Registry.Dynamo.ExecuteRule.{
  Small, Within, chunk-Small, chunk-rest, respond_all-Finishes, rest-shorter,
}
use external_dns.Registry.Dynamo.Types.{
  BatchError, Progress, Service, Statement, and_then, done, panicked, stopped, unfinished,
}

unfoldable pub flat {ℓ} : {A : Type ℓ} → List (List A) → List A
flat [] = []
flat (xs ∷ xss) = xs ++ flat xss

-- The fuel was enough.
abbrev pub Finishes : {S : Type 0} → Progress S → Type 0
Finishes p = Within (λ s. Unit {0}) (Unit {0}) p

module _ (service : Service) where
  open service use {Value, World, batch_execute}

  module _ (log : World → List (List (Statement Value)))
      (logs : (w : World) (c : List (Statement Value))
        → log (batch_execute w c).0 ≡ snoc (log w) c) where
    -- The batches sent between two worlds, and the statements that are left.
    pub record Batches (w w' : World) (statements left : List (Statement Value)) : Type 0 where
      pub batches : List (List (Statement Value))
      pub logged : log w' ≡ log w ++ batches
      pub content : flat batches ++ left ≡ statements
      pub small : All Small batches

    -- All statements were sent where the loop ends, and the first of them where it stops.
    abbrev pub Sent : {S : Type 0} → World → List (Statement Value) → Progress (World × S) → Type 0
    Sent w statements (done (w', s)) = Batches w w' statements []
    Sent w statements (stopped (w', s) e) =
        (left : List (Statement Value)) × Batches w w' statements left
    Sent w statements panicked = Unit
    Sent w statements unfinished = ⊥

    none_sent : (w : World) → Batches w w [] []
    unfolding flat
    none_sent w = record {
      batches = [];
      logged = sym (append-nil (log w));
      content = refl;
      small = tt;
    }

    one_more :
        (w w1 w' : World) (c rest left : List (Statement Value))
        → log w1 ≡ snoc (log w) c
        → Small c
        → Batches w1 w' rest left
        → Batches w w' (c ++ rest) left
    unfolding flat
    one_more w w1 w' c rest left e small b = record {
      batches = c ∷ b.batches;
      logged = b.logged ∙ ap (λ t. t ++ b.batches) e ∙ append_assoc (log w) (c ∷ []) b.batches;
      content = append_assoc c (flat b.batches) left ∙ ap (λ t. c ++ t) b.content;
      small = (small, b.small);
    }

    one_more-Sent :
        {S : Type 0} (w w1 : World) (c rest : List (Statement Value)) (p : Progress (World × S))
        → log w1 ≡ snoc (log w) c
        → Small c
        → Sent w1 rest p
        → Sent w (c ++ rest) p
    one_more-Sent w w1 c rest (done (w', s)) e small b = one_more w w1 w' c rest [] e small b
    one_more-Sent w w1 c rest (stopped (w', s) why) e small (left, b) =
        (left, one_more w w1 w' c rest left e small b)
    one_more-Sent w w1 c rest panicked e small b = tt
    one_more-Sent w w1 c rest unfinished e small b = b

    no_more :
        (w w1 : World) (c rest : List (Statement Value))
        → log w1 ≡ snoc (log w) c
        → Small c
        → Batches w w1 (c ++ rest) rest
    unfolding flat
    no_more w w1 c rest e small = record {
      batches = c ∷ [];
      logged = e;
      content = ap (λ t. t ++ rest) (append-nil c);
      small = (small, tt);
    }

    responses-Sent :
        {S : Type 0} (w w1 : World) (c rest : List (Statement Value)) (p : Progress S)
        (f : World × S → Progress (World × S))
        → ((s : S) → Sent w1 rest (f (w1, s)))
        → Finishes p
        → log w1 ≡ snoc (log w) c
        → Small c
        → Sent w (c ++ rest) (and_then (beside_world service w1 p) f)
    responses-Sent w w1 c rest (done s) f next_round ends e small =
        one_more-Sent w w1 c rest (f (w1, s)) e small (next_round s)
    responses-Sent w w1 c rest (stopped s why) f next_round ends e small =
        (rest, no_more w w1 c rest e small)
    responses-Sent w w1 c rest panicked f next_round ends e small = tt
    responses-Sent w w1 c rest unfinished f next_round ends e small = ends

    batch-Sent :
        {S : Type 0} (handle : Handler service S) (w : World) (c rest : List (Statement Value))
        (s : S) (f : World × S → Progress (World × S))
        (o : World × Option (List (Option BatchError)))
        → ((s : S) (q : Statement Value) (e : BatchError) → Finishes (handle s q e))
        → ((w1 : World) (s : S) → Sent w1 rest (f (w1, s)))
        → log o.0 ≡ snoc (log w) c
        → Small c
        → Sent w (c ++ rest) (and_then (after_batch service handle c s o) f)
    batch-Sent handle w c rest s f (w1, none) h next_round e small =
        (rest, no_more w w1 c rest e small)
    batch-Sent handle w c rest s f (w1, some rs) h next_round e small =
        responses-Sent w w1 c rest (respond_all service handle c rs s) f (next_round w1)
          (respond_all-Finishes service handle c rs s h) e small

    execute_from-Sent :
        {S : Type 0} (fuel : ℕ) (handle : Handler service S) (statements : List (Statement Value))
        (w : World) (s : S)
        → ((s : S) (q : Statement Value) (e : BatchError) → Finishes (handle s q e))
        → length statements ≤ fuel
        → Sent w statements (execute_from service fuel handle statements (w, s))
    unfolding execute_from execute_batch
    execute_from-Sent fuel handle [] w s h enough = none_sent w
    execute_from-Sent zero handle (q ∷ qs) w s h enough = omega (arith, enough)
    execute_from-Sent (suc fuel) handle (q ∷ qs) w s h enough =
        let c = chunk_of service (q ∷ qs) in
        let rest = rest_of service (q ∷ qs) in
        let shorter : length rest ≤ fuel = omega (arith, enough, rest-shorter service q qs) in
        subst (λ t. Sent w t (execute_from service (suc fuel) handle (q ∷ qs) (w, s)))
          (chunk-rest service (q ∷ qs))
          (batch-Sent handle w c rest s _ (batch_execute w c) h
            (λ w1 s1. execute_from-Sent fuel handle rest w1 s1 h shorter) (logs w c)
            (chunk-Small service q qs))

    -- Whatever the table answers, the loop of `executeStatements` ends within its fuel, if the
    -- handler ends: at its return, the batches that were sent hold the statements in their order,
    -- at an error they hold the first of them, and each has between 1 and 25. `log` is any record
    -- of the calls that the table keeps.
    pub execute_statements-Sent :
        {S : Type 0} (handle : Handler service S) (statements : List (Statement Value)) (w : World)
        (s : S)
        → ((s : S) (q : Statement Value) (e : BatchError) → Finishes (handle s q e))
        → Sent w statements (execute_statements service handle statements (w, s))
    unfolding execute_statements
    execute_statements-Sent handle statements w s h =
        execute_from-Sent (length statements) handle statements w s h (omega arith)
