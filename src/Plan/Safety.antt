-- ===== src/Plan/Safety.antt =====
-- What `Plan.Calculate` may change, and what it leaves alone.
use mathlib.Core.Path.{subst}
use external_dns.Prelude.{
  All, All-keep_test, All-map, All-unit, List, Text, [], and-true, arith, if-cases, inl, inr,
  int_eq, is_nil, is_nil-true, keep, nat_eq, none, not, refl, some, sym, text_eq, true, ◌∷◌, ◌≡◌,
  ◌≢◌, ◌⊎◌,
}
use external_dns.Endpoint.DomainFilter.{match_all}
use external_dns.Endpoint.Net.{Net}
use external_dns.Endpoint.OwnerLaws.{
  All-remove_duplicates, HasDistinctKeys, IsOwned, filter_endpoints-IsOwned,
  remove_duplicates-HasDistinctKeys,
}
use external_dns.Endpoint.Types.{Endpoint}
use external_dns.Idna.{normalize_dns_name}
use external_dns.Plan.Calculate.{
  Plan, calculate, calculate_changes, filter_by_owner, filter_records_for_plan, in_scope,
  is_managed_record, owners_match, plan_table, rows_from,
}
use external_dns.Plan.Content.{Content, content}
use external_dns.Plan.Keyed.{AllKeyed}
use external_dns.Plan.Outcome.{Outcome, calculate_changes-Outcome}
use external_dns.Plan.Policy.{apply_all}
use external_dns.Plan.Rows.{Placed, at, filled-Holds}
use external_dns.Plan.Table.{plan_key}
use external_dns.Plan.Types.{Changes, PlanKey, Ranges, no_changes, plan_key_eq}

-- The plan has changes, and `P` holds of them.
abbrev pub Produces : (Changes → Type 0) → Plan → Type 0
Produces P p = elim p.changes [ none ↦ ⊥ | some c ↦ P c ]

abbrev pub current_in_scope : Plan → List Endpoint
current_in_scope p =
    filter_records_for_plan p.current p.domain_filter p.managed_records p.exclude_records

abbrev pub desired_in_scope : Plan → List Endpoint
desired_in_scope p =
    filter_records_for_plan p.desired p.domain_filter p.managed_records p.exclude_records

-- Some endpoint of the list says just this.
abbrev pub FoundIn : List Endpoint → Content → Type 0
FoundIn [] k = ⊥
FoundIn (e ∷ es) k = (content e ≡ k) ⊎ FoundIn es k

All-FoundIn : (es : List Endpoint) → All (λ e. FoundIn es (content e)) es
All-FoundIn [] = tt
All-FoundIn (e ∷ es) = (
  inl refl,
  All-map (λ f. FoundIn es (content f)) (λ f. FoundIn (e ∷ es) (content f)) (λ f h. inr h) es
      (All-FoundIn es),
)

-- Every created or replacing record has the name, type, set identifier, TTL, properties and, up to
-- their order, targets of a desired record in scope, and every replaced or deleted one has those of a
-- current record in scope; for any policies and owner, and whatever the order in which the maps are
-- visited.
pub calculate-FoundIn :
    ⦃net : Net⦄ (ranges : Ranges) (p : Plan)
    → Produces
        (Outcome
          (FoundIn (current_in_scope p))
          (FoundIn (desired_in_scope p))
          (FoundIn (desired_in_scope p)))
        (calculate ranges p)
unfolding calculate plan_table
calculate-FoundIn ranges p =
    let C = λ (k : PlanKey) (j : Content). FoundIn (current_in_scope p) j in
    let D = λ (k : PlanKey) (j : Content). FoundIn (desired_in_scope p) j in
    calculate_changes-Outcome ranges p (current_in_scope p) C D (FoundIn (current_in_scope p))
      (FoundIn (desired_in_scope p)) (FoundIn (desired_in_scope p)) (λ k j h. h) (λ k j h. h)
      (λ k j _ h. h) _
      (filled-Holds C D (current_in_scope p) (desired_in_scope p) (All-FoundIn (current_in_scope p))
        (All-FoundIn (desired_in_scope p)))

-- The domain filters of the plan match the name, and the type is managed and not excluded.
abbrev pub InScope : Plan → Content → Type 0
InScope p k =
    (match_all p.domain_filter k.dns_name ≡ true)
    × (is_managed_record k.record_type p.managed_records p.exclude_records ≡ true)

filter_records-InScope :
    (p : Plan) (es : List Endpoint)
    → All
        (λ e. InScope p (content e))
        (filter_records_for_plan es p.domain_filter p.managed_records p.exclude_records)
unfolding filter_records_for_plan in_scope
filter_records-InScope p es =
    All-keep_test (λ e. InScope p (content e)) _
      (λ e h.
        and-true (match_all p.domain_filter e.dns_name)
          (is_managed_record e.record_type p.managed_records p.exclude_records) h)
      es

-- No change touches a record whose name the domain filters refuse or whose type is not managed.
pub calculate-InScope :
    ⦃net : Net⦄ (ranges : Ranges) (p : Plan)
    → Produces (Outcome (InScope p) (InScope p) (InScope p)) (calculate ranges p)
unfolding calculate plan_table
calculate-InScope ranges p =
    let S = λ (k : PlanKey) (j : Content). InScope p j in
    calculate_changes-Outcome ranges p (current_in_scope p) S S (InScope p) (InScope p) (InScope p)
      (λ k j h. h) (λ k j h. h) (λ k j _ h. h) _
      (filled-Holds S S (current_in_scope p) (desired_in_scope p)
        (filter_records-InScope p p.current) (filter_records-InScope p p.desired))

-- the key of the plan table that an endpoint of this name and set identifier goes under
abbrev pub place : ⦃net : Net⦄ → Content → PlanKey
place k = record { dns_name = normalize_dns_name k.dns_name; set_identifier = k.set_identifier }

-- The owner of the plan, if it has one, owns every current record in scope at this place.
abbrev pub MayCreate : ⦃net : Net⦄ → Plan → Content → Type 0
MayCreate p j = owners_match p.owner_id (keep (at (place j)) (current_in_scope p)) ≡ true

All-plan_key : ⦃net : Net⦄ (es : List Endpoint) → All (Placed (λ k j. place j ≡ k)) es
unfolding plan_key
All-plan_key [] = tt
All-plan_key (e ∷ es) = (refl, All-plan_key es)

-- A record is created only where every current record in scope of the same normalised name and set
-- identifier belongs to the owner of the plan, or where there is none, or the plan has no owner.
pub calculate-MayCreate :
    ⦃net : Net⦄ (ranges : Ranges) (p : Plan)
    → Produces (λ c. AllKeyed (MayCreate p) c.create) (calculate ranges p)
unfolding calculate plan_table
calculate-MayCreate ranges p =
    let C = λ (k : PlanKey) (j : Content). Unit {0} in
    let D = λ (k : PlanKey) (j : Content). place j ≡ k in
    (calculate_changes-Outcome ranges p (current_in_scope p) C D (λ j. Unit) (λ j. Unit)
      (MayCreate p) (λ k j h. tt) (λ k j h. tt)
      (λ k j may e.
        subst (λ q. owners_match p.owner_id (keep (at q) (current_in_scope p)) ≡ true) (sym e) may)
      _
      (filled-Holds C D (current_in_scope p) (desired_in_scope p) (All-unit (current_in_scope p))
        (All-plan_key (desired_in_scope p)))).create

pub record OwnedBy (owner_id : Text) (c : Changes) : Type 0 where
  pub update_old : All (IsOwned owner_id) c.update_old
  pub update_new : All (IsOwned owner_id) c.update_new
  pub delete : All (IsOwned owner_id) c.delete
  pub delete_once : HasDistinctKeys c.delete

-- A plan with an owner updates and deletes only records that carry the owner's label, and deletes
-- no name, type and set identifier twice.
pub calculate-OwnedBy :
    ⦃net : Net⦄ (ranges : Ranges) (p : Plan)
    → p.owner_id ≢ []
    → Produces (OwnedBy p.owner_id) (calculate ranges p)
unfolding calculate calculate_changes filter_by_owner
calculate-OwnedBy ranges p named =
    let c =
      apply_all p.policies (rows_from ranges p no_changes (ranges.rows (plan_table ranges p))) in
    if-cases (OwnedBy p.owner_id) (not (is_nil p.owner_id)) _ c
      (λ _. record {
        update_old = filter_endpoints-IsOwned p.owner_id c.update_old;
        update_new = filter_endpoints-IsOwned p.owner_id c.update_new;
        delete =
            All-remove_duplicates (IsOwned p.owner_id) _
              (filter_endpoints-IsOwned p.owner_id c.delete);
        delete_once = remove_duplicates-HasDistinctKeys _;
      })
      (λ e. absurd (named (is_nil-true p.owner_id (ground (arith, e)))))
