-- ===== src/Tests/ControllerTests.antt =====
-- controller/ at a run over the sample records, and at a schedule of two runs.
use external_dns.Prelude.{
  [], arith, codes, false, has_suffix, insert, int_eq, lookup, nat_eq, none, refl, some, text_eq,
  to_lower, true, ℕ, ◌+◌, ◌∷◌, ◌≡◌, ◌≤◌,
}
use external_dns.Controller.Run.{Answers, Controller, applied, run_once}
use external_dns.Controller.RunLaws.{Hands, InReach, run_once-InReach, run_once-OwnedBy}
use external_dns.Controller.Schedule.{
  Timing, batch_delay, decide, earliest, event_before_start, latest, schedule_run_once,
  should_run_once, start, start_run,
}
use external_dns.Controller.ScheduleLaws.{
  also_event, schedule_run_once-runs, should_run_once-IsSpaced, still,
}
use external_dns.Endpoint.Targets.{same}
use external_dns.Endpoint.Types.{record_type_a, record_type_cname}
use external_dns.Plan.Conflict.{resolve_create, resolve_record_types, resolve_update}
use external_dns.Plan.Outcome.{Outcome}
use external_dns.Plan.Policy.{sync_policy}
use external_dns.Plan.Safety.{OwnedBy}
use external_dns.Registry.Txt.{record_key_eq}
use external_dns.Tests.Samples.{
  in_order, me, sample_changes, sample_current, sample_desired, sample_net,
}

abbrev sample_controller : Controller
sample_controller = record {
  policy = sync_policy;
  domain_filter = some (λ s. has_suffix s (codes "example.org"));
  managed_record_types = record_type_a ∷ record_type_cname ∷ [];
  exclude_record_types = [];
  txt_owner_old = [];
}

abbrev sample_answers : Answers
sample_answers = record {
  registry_records = some sample_current;
  source_endpoints = some sample_desired;
  adjust = λ es. some es;
  accepts = λ c. true;
  is_soft = true;
  registry_filter = none;
  owner_id = me;
}

ran : run_once in_order (λ xs ys. false) sample_controller sample_answers ≡ applied sample_changes
unfolding run_once lookup insert to_lower resolve_record_types resolve_create resolve_update same
ran = refl

run_once-OwnedBy_example :
    Hands (OwnedBy me) (run_once in_order (λ xs ys. false) sample_controller sample_answers)
run_once-OwnedBy_example =
    run_once-OwnedBy in_order (λ xs ys. false) sample_controller sample_answers (λ e. cc)

run_once-InReach_example :
    Hands
      (Outcome
        (InReach sample_controller sample_answers)
        (InReach sample_controller sample_answers)
        (InReach sample_controller sample_answers))
      (run_once in_order (λ xs ys. false) sample_controller sample_answers)
run_once-InReach_example =
    run_once-InReach in_order (λ xs ys. false) sample_controller sample_answers

abbrev timing : ℕ → ℕ → Timing
timing due last = record {
  interval = 60;
  min_event_sync_interval = 5;
  next_run_at = due;
  last_run_at = last;
}

schedule_run_once-runs_example :
    (should_run_once 6000000000
      (schedule_run_once 50 (schedule_run_once 42 (timing 9000000000 40)))).0
    ≡ true
schedule_run_once-runs_example =
    schedule_run_once-runs 42 (timing 9000000000 40) 6000000000 (also_event 50 still (omega arith))
      (omega arith)

-- an event between the decision and the start of a run, under a minimal interval of 60 seconds
abbrev wide_timing : Timing
wide_timing = record {
  interval = 60000000000;
  min_event_sync_interval = 60000000000;
  next_run_at = 60000000000;
  last_run_at = 0;
}

abbrev raced : Timing
unfolding should_run_once schedule_run_once start_run earliest latest
raced =
    start_run 60000000002
      (schedule_run_once 60000000001 (should_run_once 60000000000 wide_timing).1)

-- the next run is due 5 seconds after the event
raced_due : raced.next_run_at ≡ 65000000001
unfolding raced should_run_once schedule_run_once start_run earliest latest
raced_due = refl

should_run_once-IsSpaced_example : 60000000000 + batch_delay ≤ 65000000001
unfolding raced should_run_once schedule_run_once start_run earliest latest
should_run_once-IsSpaced_example =
    should_run_once-IsSpaced {decided = 60000000000} {c = wide_timing} {d = raced} 65000000001
      (omega arith)
      (start 60000000002 (event_before_start 60000000001 (decide refl) (omega arith)) (omega arith))
      refl
