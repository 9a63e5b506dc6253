-- ===== src/Plan/PolicyLaws.antt =====
-- What the policies of plan/policy.go let through `Plan.Calculate`.
-- `upsert-only` is one of the policies
use external_dns.Prelude.{
  Bool, List, [], false, if-both, int_eq, is_nil, nat_eq, not, refl, text_eq, true, ◌∷◌, ◌≡◌,
}
use external_dns.Endpoint.Net.{Net}
use external_dns.Endpoint.Owner.{filter_endpoints_by_owner_id, remove_duplicates, remove_from}
use external_dns.Plan.Calculate.{
  Plan, calculate, calculate_changes, filter_by_owner, plan_table, rows_from,
}
use external_dns.Plan.Policy.{
  Policy, apply, apply_all, create_only_policy, sync_policy, upsert_only_policy,
}
use external_dns.Plan.Safety.{Produces}
use external_dns.Plan.Types.{Changes, Ranges, no_changes}

abbrev pub has_upsert_only : List Policy → Bool
has_upsert_only [] = false
has_upsert_only (upsert_only_policy ∷ pols) = true
has_upsert_only (pol ∷ pols) = has_upsert_only pols

abbrev pub has_create_only : List Policy → Bool
has_create_only [] = false
has_create_only (create_only_policy ∷ pols) = true
has_create_only (pol ∷ pols) = has_create_only pols

-- A policy never puts a deletion or an update back.
apply_all-no_delete :
    (pols : List Policy) (c : Changes) → c.delete ≡ [] → (apply_all pols c).delete ≡ []
unfolding apply_all apply
apply_all-no_delete [] c h = h
apply_all-no_delete (sync_policy ∷ pols) c h = apply_all-no_delete pols c h
apply_all-no_delete (upsert_only_policy ∷ pols) c h = apply_all-no_delete pols _ refl
apply_all-no_delete (create_only_policy ∷ pols) c h = apply_all-no_delete pols _ refl

apply_all-no_update :
    (pols : List Policy) (c : Changes)
    → (c.update_old ≡ []) × (c.update_new ≡ [])
    → ((apply_all pols c).update_old ≡ []) × ((apply_all pols c).update_new ≡ [])
unfolding apply_all apply
apply_all-no_update [] c h = h
apply_all-no_update (sync_policy ∷ pols) c h = apply_all-no_update pols c h
apply_all-no_update (upsert_only_policy ∷ pols) c h = apply_all-no_update pols _ h
apply_all-no_update (create_only_policy ∷ pols) c h = apply_all-no_update pols _ (refl, refl)

has_upsert_only-apply_all :
    (pols : List Policy) (c : Changes)
    → has_upsert_only pols ≡ true
    → (apply_all pols c).delete ≡ []
unfolding apply_all apply
has_upsert_only-apply_all [] c h = cc
has_upsert_only-apply_all (sync_policy ∷ pols) c h = has_upsert_only-apply_all pols c h
has_upsert_only-apply_all (upsert_only_policy ∷ pols) c h = apply_all-no_delete pols _ refl
has_upsert_only-apply_all (create_only_policy ∷ pols) c h = has_upsert_only-apply_all pols _ h

has_create_only-apply_all :
    (pols : List Policy) (c : Changes)
    → has_create_only pols ≡ true
    → ((apply_all pols c).update_old ≡ [])
      × ((apply_all pols c).update_new ≡ [])
      × ((apply_all pols c).delete ≡ [])
unfolding apply_all apply
has_create_only-apply_all [] c h = cc
has_create_only-apply_all (sync_policy ∷ pols) c h = has_create_only-apply_all pols c h
has_create_only-apply_all (upsert_only_policy ∷ pols) c h = has_create_only-apply_all pols _ h
has_create_only-apply_all (create_only_policy ∷ pols) c h =
    let d : Changes = record { create = c.create; update_old = []; update_new = []; delete = [] } in
    let u = apply_all-no_update pols d (refl, refl) in (u.0, u.1, apply_all-no_delete pols d refl)

filter_by_owner-nil :
    ⦃net : Net⦄ (ranges : Ranges) (p : Plan) (c : Changes)
    → c.delete ≡ []
    → (filter_by_owner ranges p c).delete ≡ []
unfolding filter_by_owner remove_duplicates filter_endpoints_by_owner_id remove_from
filter_by_owner-nil ranges p c h =
    if-both (λ (d : Changes). d.delete ≡ []) (not (is_nil p.owner_id)) _ c (rw h) h

filter_by_owner-no_update :
    ⦃net : Net⦄ (ranges : Ranges) (p : Plan) (c : Changes)
    → (c.update_old ≡ []) × (c.update_new ≡ [])
    → ((filter_by_owner ranges p c).update_old ≡ [])
      × ((filter_by_owner ranges p c).update_new ≡ [])
unfolding filter_by_owner filter_endpoints_by_owner_id
filter_by_owner-no_update ranges p c h =
    if-both (λ (d : Changes). (d.update_old ≡ []) × (d.update_new ≡ [])) (not (is_nil p.owner_id)) _
      c (rw h.0, rw h.1) h

-- Under the upsert-only policy, alone or among others, nothing is deleted.
pub calculate-upsert_only :
    ⦃net : Net⦄ (ranges : Ranges) (p : Plan)
    → has_upsert_only p.policies ≡ true
    → Produces (λ c. c.delete ≡ []) (calculate ranges p)
unfolding calculate calculate_changes
calculate-upsert_only ranges p h =
    let c = rows_from ranges p no_changes (ranges.rows (plan_table ranges p)) in
    filter_by_owner-nil ranges p (apply_all p.policies c) (has_upsert_only-apply_all p.policies c h)

-- Under the create-only policy, alone or among others, nothing is updated and nothing is deleted.
pub calculate-create_only :
    ⦃net : Net⦄ (ranges : Ranges) (p : Plan)
    → has_create_only p.policies ≡ true
    → Produces
        (λ c. ((c.update_old ≡ []) × (c.update_new ≡ [])) × (c.delete ≡ []))
        (calculate ranges p)
unfolding calculate calculate_changes
calculate-create_only ranges p h =
    let c = rows_from ranges p no_changes (ranges.rows (plan_table ranges p)) in
    let only = has_create_only-apply_all p.policies c h in
    (
      filter_by_owner-no_update ranges p (apply_all p.policies c) (only.0, only.1),
      filter_by_owner-nil ranges p (apply_all p.policies c) only.2,
    )
