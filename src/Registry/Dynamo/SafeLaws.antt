-- ===== src/Registry/Dynamo/SafeLaws.antt =====
-- `ApplyChanges` of registry/dynamodb/registry.go does not panic while the labels are there.
use mathlib.Core.Option
use external_dns.Prelude.{
  All, All-append, List, Option, [], ap, codes, has_prefix, if-both, insert, int_eq, nat_eq, none,
  refl, remove, some, text_eq, true, ◌∷◌, ◌≡◌, ◌≢◌,
}
use external_dns.Endpoint.Net.{Net}
use external_dns.Endpoint.Types.{Endpoint, EndpointKey, Labels, key, key_eq}
use external_dns.Registry.Apply.{option_bind}
use external_dns.Registry.Dynamo.Execute.{parameter}
use external_dns.Registry.Dynamo.Handlers.{key_parameter}
use external_dns.Registry.Dynamo.KeyLaws.{to_dynamo_key-no_panic}
use external_dns.Registry.Dynamo.Keys.{malformed_key}
use external_dns.Registry.Dynamo.Loops.{
  caching, delete_all, forget_labels, uncache, uncache_all, write_labels,
}
use external_dns.Registry.Dynamo.Read.{LabelTable}
use external_dns.Registry.Dynamo.Statements.{
  append_insert, append_update, delete_statement, insert_statement, labels_equal, update_statement,
}
use external_dns.Registry.Dynamo.Types.{DynamoRegistry, Service, Statement}

-- There is a result, and it has `P`.
abbrev pub Surely : {A : Type 0} → (A → Type 0) → Option A → Type 0
Surely P none = ⊥
Surely P (some x) = P x

pub Surely-bind :
    {A B : Type 0} (P : A → Type 0) (Q : B → Type 0) (f : A → Option B) (o : Option A)
    → ((x : A) → P x → Surely Q (f x))
    → Surely P o
    → Surely Q (option_bind o f)
Surely-bind P Q f none hf h = h
Surely-bind P Q f (some x) hf h = hf x h

-- The table was read.
abbrev pub Known : DynamoRegistry → Type 0
Known im = (m : LabelTable) × (im.labels ≡ some m)

pub write_labels-Known :
    (k : EndpointKey) (m : Labels) (im : DynamoRegistry) (o : Option LabelTable)
    → (known : LabelTable) × (o ≡ some known)
    → Surely Known (write_labels k m im o)
write_labels-Known k m im none (known, e) = absurd cc
write_labels-Known k m im (some known) h = (insert k m known, refl)

pub forget_labels-Known :
    (k : EndpointKey) (im : DynamoRegistry) → Known im → Known (forget_labels k im)
forget_labels-Known k im (known, e) = (remove k known, ap (λ o. Option.map (λ m. remove k m) o) e)

module _ ⦃net : Net⦄ (service : Service) where
  uncache-Known : (r : Endpoint) (im : DynamoRegistry) → Known im → Known (uncache service r im).1
  unfolding uncache
  uncache-Known r im h =
      if-both (λ (p : Endpoint × DynamoRegistry). Known p.1) (caching im) _ (r, im) h h

  pub delete_all-Known :
      (rs : List Endpoint) (im : DynamoRegistry) → Known im → Known (delete_all service im rs).1
  unfolding delete_all
  delete_all-Known [] im h = h
  delete_all-Known (r ∷ rs) im h =
      delete_all-Known rs _
        (uncache-Known r (forget_labels (key r) im) (forget_labels-Known (key r) im h))

  pub uncache_all-Known :
      (rs : List Endpoint) (im : DynamoRegistry) → Known im → Known (uncache_all service im rs).1
  unfolding uncache_all
  uncache_all-Known [] im h = h
  uncache_all-Known (r ∷ rs) im h = uncache_all-Known rs _ (uncache-Known r im h)

module _ (service : Service) where
  open service use {Value, World, batch_execute}

  -- The parameters that the loop and its handler read are there, and are keys.
  pub record Writes (q : Statement Value) : Type 0 where
    pub first_given : parameter 0 q.parameters ≢ none
    pub second_given : parameter 1 q.parameters ≢ none
    pub key_given :
        has_prefix q.statement (codes "INSERT") ≡ true
        → key_parameter service (parameter 0 q.parameters) ≢ malformed_key

  module _ (im : DynamoRegistry) (k : EndpointKey) where
    insert_statement-Writes : (m : Labels) → Writes (insert_statement service im k m)
    unfolding insert_statement parameter
    insert_statement-Writes m = record {
      first_given = λ e. cc;
      second_given = λ e. cc;
      key_given = λ t. to_dynamo_key-no_panic service k;
    }

    update_statement-Writes : (m : Labels) → Writes (update_statement service im k m)
    unfolding update_statement parameter has_prefix
    update_statement-Writes m = record {
      first_given = λ e. cc;
      second_given = λ e. cc;
      key_given = λ t. absurd cc;
    }

    pub delete_statement-Writes : Writes (delete_statement service im k)
    unfolding delete_statement parameter
    delete_statement-Writes = record {
      first_given = λ e. cc;
      second_given = λ e. cc;
      key_given = λ t. to_dynamo_key-no_panic service k;
    }

    pub append_insert-Writes :
        (qs : List (Statement Value)) (m : Labels)
        → All Writes qs
        → All Writes (append_insert service im qs k m)
    unfolding append_insert
    append_insert-Writes qs m h = All-append Writes qs (_ ∷ []) h (insert_statement-Writes m, tt)

    pub append_update-Writes :
        (qs : List (Statement Value)) (old m : Labels)
        → All Writes qs
        → All Writes (append_update service im qs k old m)
    unfolding append_update
    append_update-Writes qs old m h =
        if-both (All Writes) (labels_equal old m) qs _ h
          (All-append Writes qs (_ ∷ []) h (update_statement-Writes m, tt))
