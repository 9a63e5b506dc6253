-- ===== src/Controller/RunLaws.antt =====
-- What a run of the controller hands to the registry (controller/controller.go).
use mathlib.Core.Path.{subst}
use external_dns.Prelude.{
  Bool, List, Option, Option-cases, [], if-both, inl, inr, int_eq, nat_eq, none, some, text_eq,
  true, ◌∷◌, ◌≡◌, ◌≢◌,
}
use external_dns.Controller.Run.{
  Answers, Controller, RunOutcome, applied, apply_planned, failed, run_once, run_plan, up_to_date,
  with_desired, with_records, with_source,
}
use external_dns.Endpoint.DomainFilter.{match_all}
use external_dns.Endpoint.Net.{Net}
use external_dns.Endpoint.Types.{Endpoint}
use external_dns.Plan.Calculate.{Plan, calculate, is_managed_record}
use external_dns.Plan.Content.{Content}
use external_dns.Plan.Outcome.{Outcome}
use external_dns.Plan.Safety.{OwnedBy, Produces, calculate-InScope, calculate-OwnedBy}
use external_dns.Plan.Types.{Changes, Ranges, has_changes}

-- The changes that the run hands to the registry, if it does, have `P`.
abbrev pub Hands : (Changes → Type 0) → RunOutcome → Type 0
Hands P up_to_date = Unit
Hands P (applied c) = P c
Hands P (failed e none) = Unit
Hands P (failed e (some c)) = P c

apply_planned-Hands :
    (equal : List Endpoint → List Endpoint → Bool) (a : Answers) (P : Changes → Type 0)
    → (p : Plan) → Produces P p
    → Hands P (apply_planned equal a p.changes)
apply_planned-Hands equal a P p h = elim (Option-cases p.changes) [
  | inl e ↦ rw e tt
  | inr (c, e) ↦
      let h' : P c = subst (λ o. elim o [ none ↦ ⊥ | some c ↦ P c ]) e h in
      rw e
        (if-both (Hands P) (has_changes equal c) _ _ (if-both (Hands P) (a.accepts c) _ _ h' h') tt)
]

-- What holds of the changes that the plan of a run produces, the run hands over.
module _ ⦃net : Net⦄ (ranges : Ranges) (equal : List Endpoint → List Endpoint → Bool)
    (c : Controller) (a : Answers) (P : Changes → Type 0)
    (planned : (current desired : List Endpoint)
      → Produces P (calculate ranges (run_plan c a current desired))) where
  with_desired-Hands :
      (current : List Endpoint) (desired : Option (List Endpoint))
      → Hands P (with_desired ranges equal c a current desired)
  with_desired-Hands current none = tt
  with_desired-Hands current (some desired) =
      apply_planned-Hands equal a P (calculate ranges (run_plan c a current desired))
        (planned current desired)

  with_source-Hands :
      (current : List Endpoint) (endpoints : Option (List Endpoint))
      → Hands P (with_source ranges equal c a current endpoints)
  with_source-Hands current none = tt
  with_source-Hands current (some endpoints) = with_desired-Hands current (a.adjust endpoints)

  with_records-Hands :
      (current : Option (List Endpoint)) → Hands P (with_records ranges equal c a current)
  with_records-Hands none = tt
  with_records-Hands (some current) = with_source-Hands current a.source_endpoints

  run_once-Hands : Hands P (run_once ranges equal c a)
  unfolding run_once
  run_once-Hands = with_records-Hands a.registry_records

-- What a run with an owner hands to the registry updates and deletes only records that carry the
-- owner's label, and deletes no name, type and set identifier twice.
pub run_once-OwnedBy :
    ⦃net : Net⦄ (ranges : Ranges) (equal : List Endpoint → List Endpoint → Bool)
    → (c : Controller) (a : Answers) → a.owner_id ≢ []
    → Hands (OwnedBy a.owner_id) (run_once ranges equal c a)
unfolding run_plan
run_once-OwnedBy ranges equal c a named =
    run_once-Hands ranges equal c a (OwnedBy a.owner_id)
      (λ current desired. calculate-OwnedBy ranges (run_plan c a current desired) named)

-- The controller's and the registry's filters, if they are set, match the name, and the type is
-- managed and not excluded.
abbrev pub InReach : Controller → Answers → Content → Type 0
InReach c a k =
    (match_all (c.domain_filter ∷ a.registry_filter ∷ []) k.dns_name ≡ true)
    × (is_managed_record k.record_type c.managed_record_types c.exclude_record_types ≡ true)

-- What a run hands to the registry touches only names that both filters match, and types that are
-- managed and not excluded.
pub run_once-InReach :
    ⦃net : Net⦄ (ranges : Ranges) (equal : List Endpoint → List Endpoint → Bool)
    → (c : Controller) (a : Answers)
    → Hands (Outcome (InReach c a) (InReach c a) (InReach c a)) (run_once ranges equal c a)
unfolding run_plan
run_once-InReach ranges equal c a =
    run_once-Hands ranges equal c a (Outcome (InReach c a) (InReach c a) (InReach c a))
      (λ current desired. calculate-InScope ranges (run_plan c a current desired))
