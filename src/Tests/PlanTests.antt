-- ===== src/Tests/PlanTests.antt =====
-- plan/ at a plan with owned and foreign records.
use external_dns.Prelude.{
  All, List, [], codes, insert, int_eq, lookup, nat_eq, refl, some, text_eq, to_lower, ◌∷◌, ◌≡◌,
}
use external_dns.Endpoint.Targets.{same}
use external_dns.Endpoint.Types.{Endpoint}
use external_dns.Plan.Calculate.{
  append_if_changed, calculate, is_old_owner_id_set_and_different, plan_table,
}
use external_dns.Plan.Cname.{NoConflict, plan_table-NoConflict}
use external_dns.Plan.Conflict.{resolve_create, resolve_record_types, resolve_update}
use external_dns.Plan.Keyed.{AllKeyed}
use external_dns.Plan.Outcome.{Outcome}
use external_dns.Plan.Policy.{Policy, create_only_policy, sync_policy, upsert_only_policy}
use external_dns.Plan.PolicyLaws.{calculate-create_only, calculate-upsert_only}
use external_dns.Plan.Safety.{
  FoundIn, InScope, MayCreate, OwnedBy, Produces, calculate-FoundIn, calculate-InScope,
  calculate-MayCreate, calculate-OwnedBy, current_in_scope, desired_in_scope,
}
use external_dns.Plan.Stable.{append_if_changed-IsUpToDate}
use external_dns.Plan.Types.{no_changes}
use external_dns.Registry.Txt.{record_key_eq}
use external_dns.Tests.Samples.{
  in_order, me, owned, record_of, sample_changes, sample_net, sample_plan,
}

abbrev sync : List Policy
sync = sync_policy ∷ []

planned : (calculate in_order (sample_plan sync)).changes ≡ some sample_changes
unfolding calculate lookup insert to_lower resolve_record_types resolve_create resolve_update same
planned = refl

calculate-OwnedBy_example : Produces (OwnedBy me) (calculate in_order (sample_plan sync))
calculate-OwnedBy_example = calculate-OwnedBy in_order (sample_plan sync) (λ e. cc)

calculate-InScope_example :
    Produces
      (Outcome
        (InScope (sample_plan sync))
        (InScope (sample_plan sync))
        (InScope (sample_plan sync)))
      (calculate in_order (sample_plan sync))
calculate-InScope_example = calculate-InScope in_order (sample_plan sync)

calculate-MayCreate_example :
    Produces
      (λ c. AllKeyed (MayCreate (sample_plan sync)) c.create)
      (calculate in_order (sample_plan sync))
calculate-MayCreate_example = calculate-MayCreate in_order (sample_plan sync)

calculate-FoundIn_example :
    Produces
      (Outcome
        (FoundIn (current_in_scope (sample_plan sync)))
        (FoundIn (desired_in_scope (sample_plan sync)))
        (FoundIn (desired_in_scope (sample_plan sync))))
      (calculate in_order (sample_plan sync))
calculate-FoundIn_example = calculate-FoundIn in_order (sample_plan sync)

calculate-upsert_only_example :
    Produces (λ c. c.delete ≡ []) (calculate in_order (sample_plan (upsert_only_policy ∷ [])))
calculate-upsert_only_example =
    calculate-upsert_only in_order (sample_plan (upsert_only_policy ∷ [])) refl

calculate-create_only_example :
    Produces
      (λ c. ((c.update_old ≡ []) × (c.update_new ≡ [])) × (c.delete ≡ []))
      (calculate in_order (sample_plan (create_only_policy ∷ [])))
calculate-create_only_example =
    calculate-create_only in_order (sample_plan (create_only_policy ∷ [])) refl

plan_table-NoConflict_example :
    All (λ kr. NoConflict (resolve_record_types kr.1)) (plan_table in_order (sample_plan sync))
plan_table-NoConflict_example = plan_table-NoConflict in_order (sample_plan sync)

abbrev unchanged : Endpoint
unchanged = record (record_of (codes "a.example.org") (codes "1.1.1.1") (owned me)) {
  provider_specific =
      record { name = codes "alias"; value = codes "true" }
      ∷ record { name = codes "weight"; value = codes "10" }
      ∷ [];
}

append_if_changed-IsUpToDate_example :
    append_if_changed [] no_changes unchanged unchanged ≡ no_changes
unfolding is_old_owner_id_set_and_different
append_if_changed-IsUpToDate_example =
    append_if_changed-IsUpToDate [] no_changes unchanged unchanged
      (record {
        targets = refl;
        record_ttl = refl;
        provider_specific = refl;
        distinct = (((λ e. cc), tt), (tt, tt));
      })
      refl
