-- ===== src/Controller/Run.antt =====
-- `RunOnce` and the error handling of `Run` of controller/controller.go. The metrics and the log are
-- not modelled.
use external_dns.Prelude.{
  Bool, List, Option, Text, [], if◌then◌else◌, int_eq, nat_eq, none, some, text_eq, ℕ, ◌+◌, ◌∷◌,
}
use external_dns.Endpoint.Net.{Net}
use external_dns.Endpoint.Types.{Endpoint}
use external_dns.Plan.Calculate.{Plan, calculate}
use external_dns.Plan.Policy.{Policy}
use external_dns.Plan.Types.{Changes, Ranges, has_changes}

pub data RunError : Type 0 where
  -- an error, with whether it wraps `SoftError`
  registry_records source_endpoints adjust_endpoints apply_changes_failed : Bool → RunError

-- What the source and the registry answer in one run.
pub record Answers : Type 0 where
  pub registry_records : Option (List Endpoint)
  pub source_endpoints : Option (List Endpoint)
  -- `Registry.AdjustEndpoints`
  pub adjust : List Endpoint → Option (List Endpoint)
  -- `Registry.ApplyChanges`; false is an error
  pub accepts : Changes → Bool
  pub is_soft : Bool
  pub registry_filter : Option (Text → Bool)
  pub owner_id : Text

pub record Controller : Type 0 where
  pub policy : Policy
  pub domain_filter : Option (Text → Bool)
  pub managed_record_types : List Text
  pub exclude_record_types : List Text
  pub txt_owner_old : Text

-- What a run did: nothing to do, changes applied, or an error, with the changes handed to the
-- registry.
pub data RunOutcome : Type 0 where
  up_to_date : RunOutcome
  applied : Changes → RunOutcome
  failed : RunError → Option Changes → RunOutcome

unfoldable pub run_plan : Controller → Answers → List Endpoint → List Endpoint → Plan
run_plan c a current desired = record {
  current = current;
  desired = desired;
  policies = c.policy ∷ [];
  changes = none;
  domain_filter = c.domain_filter ∷ a.registry_filter ∷ [];
  managed_records = c.managed_record_types;
  exclude_records = c.exclude_record_types;
  owner_id = a.owner_id;
  old_owner_id = c.txt_owner_old;
}

abbrev pub apply_planned :
    (List Endpoint → List Endpoint → Bool) → Answers → Option Changes → RunOutcome
apply_planned equal a none = up_to_date
apply_planned equal a (some c) =
    if has_changes equal c
    then (if a.accepts c then applied c else failed (apply_changes_failed a.is_soft) (some c))
    else up_to_date

module _ ⦃net : Net⦄ (ranges : Ranges) (equal : List Endpoint → List Endpoint → Bool) where
  abbrev pub with_desired :
      Controller → Answers → List Endpoint → Option (List Endpoint) → RunOutcome
  with_desired c a current none = failed (adjust_endpoints a.is_soft) none
  with_desired c a current (some desired) =
      apply_planned equal a (calculate ranges (run_plan c a current desired)).changes

  abbrev pub with_source :
      Controller → Answers → List Endpoint → Option (List Endpoint) → RunOutcome
  with_source c a current none = failed (source_endpoints a.is_soft) none
  with_source c a current (some endpoints) = with_desired c a current (a.adjust endpoints)

  abbrev pub with_records : Controller → Answers → Option (List Endpoint) → RunOutcome
  with_records c a none = failed (registry_records a.is_soft) none
  with_records c a (some current) = with_source c a current a.source_endpoints

  -- `RunOnce`
  unfoldable pub run_once : Controller → Answers → RunOutcome
  unfolding run_plan calculate has_changes
  run_once c a = with_records c a a.registry_records

abbrev pub soft : RunError → Bool
soft (registry_records b) = b
soft (source_endpoints b) = b
soft (adjust_endpoints b) = b
soft (apply_changes_failed b) = b

-- The body of the loop of `Run` behind `ShouldRunOnce`: the count of soft errors in a row, or `none`
-- for the fatal end of the process.
unfoldable pub count_errors : RunOutcome → ℕ → Option ℕ
count_errors up_to_date n = some 0
count_errors (applied c) n = some 0
count_errors (failed e c) n = if soft e then some (n + 1) else none
