-- ===== src/Controller/ScheduleLaws.antt =====
-- The distance of the runs of controller/controller.go, and the batching of events.
use Prim.Native.Nat.{max, min}
use external_dns.Prelude.{
  Bool, Bool-cases, arith, false, inl, inr, ltb, refl, true, ℕ, ◌+◌, ◌≡◌, ◌≤◌,
}
use external_dns.Controller.Schedule.{
  Phase, Since, Timing, batch_delay, decide, earliest, event, event_before_start, idle, latest,
  schedule_run_once, should_run_once, start, start_run, starting, waiting,
}

-- `ScheduleRunOnce` in closed form.
pub schedule_run_once_lem :
    (now : ℕ) (c : Timing)
    → (schedule_run_once now c).next_run_at
      ≡ max (c.last_run_at + c.min_event_sync_interval) (min (now + batch_delay) c.next_run_at)
unfolding schedule_run_once earliest latest
schedule_run_once_lem now c = ground arith

-- After an event the next run is due at the latest 5 seconds later, or when the minimal interval
-- since the last run is over, and at the earliest at the end of that interval.
schedule_run_once_bounds :
    (now : ℕ) (c : Timing)
    → (c.last_run_at + c.min_event_sync_interval ≤ (schedule_run_once now c).next_run_at)
      × ((schedule_run_once now c).next_run_at
          ≤ max (c.last_run_at + c.min_event_sync_interval) (now + batch_delay))
schedule_run_once_bounds now c =
    (omega (arith, schedule_run_once_lem now c), omega (arith, schedule_run_once_lem now c))

-- A second event does not put off a run: unless the minimal interval demands it, the next run is
-- never later than it was.
schedule_run_once_mono :
    (now : ℕ) (c : Timing)
    → c.last_run_at + c.min_event_sync_interval ≤ c.next_run_at
    → (schedule_run_once now c).next_run_at ≤ c.next_run_at
schedule_run_once_mono now c h = omega (arith, schedule_run_once_lem now c)

-- The distance that the next run keeps from the decision of this one: the delay of an event that came
-- before the start bounds it.
abbrev pub distance : Bool → Timing → ℕ
distance false c = c.min_event_sync_interval
distance true c = min c.min_event_sync_interval batch_delay

-- the run has started at or after its decision
abbrev HasStarted : ℕ → Phase → Timing → Type 0
HasStarted decided starting d = Unit
HasStarted decided waiting d = decided ≤ d.last_run_at

-- what the schedule keeps of the decision
record IsSpaced (decided : ℕ) (c : Timing) (b : Bool) (p : Phase) (t : ℕ) (d : Timing)
    : Type 0 where
  past : decided ≤ t
  same_minimum : d.min_event_sync_interval ≡ c.min_event_sync_interval
  has_started : HasStarted decided p d
  spaced : decided + distance b c ≤ d.next_run_at

distance_le : (b : Bool) (c : Timing) → distance b c ≤ c.min_event_sync_interval
distance_le false c = omega arith
distance_le true c = omega arith

distance-true : (b : Bool) (c : Timing) → distance true c ≤ distance b c
distance-true false c = omega arith
distance-true true c = omega arith

-- the four ways after the decision
module _ {decided : ℕ} {c : Timing} {b : Bool} {t : ℕ} {d : Timing} (now : ℕ) (le : t ≤ now) where
  before_start-IsSpaced :
      IsSpaced decided c b starting t d
      → IsSpaced decided c true starting now (schedule_run_once now d)
  unfolding schedule_run_once
  before_start-IsSpaced s = record {
    past = omega (arith, s.past);
    same_minimum = s.same_minimum;
    has_started = tt;
    spaced = omega (arith, schedule_run_once_lem now d, s.past, s.spaced, distance-true b c);
  }

  start-IsSpaced :
      IsSpaced decided c b starting t d → IsSpaced decided c b waiting now (start_run now d)
  unfolding start_run
  start-IsSpaced s = record {
    past = omega (arith, s.past);
    same_minimum = s.same_minimum;
    has_started = omega (arith, s.past);
    spaced = s.spaced;
  }

  event-IsSpaced :
      IsSpaced decided c b waiting t d → IsSpaced decided c b waiting now (schedule_run_once now d)
  unfolding schedule_run_once
  event-IsSpaced s = record {
    past = omega (arith, s.past);
    same_minimum = s.same_minimum;
    has_started = s.has_started;
    spaced =
        omega (arith, schedule_run_once_lem now d, s.has_started, s.same_minimum, distance_le b c);
  }

  idle-IsSpaced :
      IsSpaced decided c b waiting t d
      → (should_run_once now d).0 ≡ false
      → IsSpaced decided c b waiting now (should_run_once now d).1
  unfolding should_run_once
  idle-IsSpaced s e = elim (Bool-cases (ltb now d.next_run_at)) [
    | inl early ↦ rw early (record {
      past = omega (arith, s.past);
      same_minimum = s.same_minimum;
      has_started = s.has_started;
      spaced = s.spaced;
    })
    | inr late ↦ absurd (ground (arith, late, e))
  ]

decide-IsSpaced :
    (decided : ℕ) (c : Timing)
    → c.min_event_sync_interval ≤ c.interval
    → (should_run_once decided c).0 ≡ true
    → IsSpaced decided c false starting decided (should_run_once decided c).1
unfolding should_run_once
decide-IsSpaced decided c wide e = elim (Bool-cases (ltb decided c.next_run_at)) [
  | inl early ↦ absurd (ground (arith, early, e))
  | inr late ↦ rw late (record {
    past = omega arith;
    same_minimum = refl;
    has_started = tt;
    spaced = omega (arith, wide);
  })
]

Since-IsSpaced :
    {decided : ℕ} {c : Timing} {b : Bool} {p : Phase} {t : ℕ} {d : Timing}
    → c.min_event_sync_interval ≤ c.interval
    → Since decided c b p t d
    → IsSpaced decided c b p t d
Since-IsSpaced wide (decide e) = decide-IsSpaced _ _ wide e
Since-IsSpaced wide (event_before_start now r le) =
    before_start-IsSpaced now le (Since-IsSpaced wide r)
Since-IsSpaced wide (start now r le) = start-IsSpaced now le (Since-IsSpaced wide r)
Since-IsSpaced wide (event now r le) = event-IsSpaced now le (Since-IsSpaced wide r)
Since-IsSpaced wide (idle now r le e) = idle-IsSpaced now le (Since-IsSpaced wide r) e

-- If the loop's interval is at least the minimal one, then `ShouldRunOnce` decides on the next run at
-- least the minimal interval after it decided on this one, whatever events and ticks come between; or,
-- if an event came between that decision and the start of the run, at least the smaller of the minimal
-- interval and 5 seconds after it.
pub should_run_once-IsSpaced :
    {decided t : ℕ} {c d : Timing} {b : Bool} (now : ℕ)
    → c.min_event_sync_interval ≤ c.interval
    → Since decided c b waiting t d
    → (should_run_once now d).0 ≡ true
    → decided + distance b c ≤ now
unfolding should_run_once
should_run_once-IsSpaced now wide r e = ground (arith, e, (Since-IsSpaced wide r).spaced)

-- Events and ticks that start no run.
pub data QuietSteps (t : ℕ) (c : Timing) : ℕ → Timing → Type 0 where
  still : QuietSteps t c t c
  also_event :
      {u : ℕ} {d : Timing} (now : ℕ)
      → QuietSteps t c u d
      → u ≤ now
      → QuietSteps t c now (schedule_run_once now d)
  also_idle :
      {u : ℕ} {d : Timing} (now : ℕ)
      → QuietSteps t c u d
      → u ≤ now
      → (should_run_once now d).0 ≡ false
      → QuietSteps t c now (should_run_once now d).1

-- The run is due by `deadline`, which the minimal interval leaves free.
record IsDueBy (deadline : ℕ) (c : Timing) : Type 0 where
  due : c.next_run_at ≤ deadline
  free : c.last_run_at + c.min_event_sync_interval ≤ deadline

schedule_run_once-IsDueBy :
    {deadline : ℕ} (now : ℕ) {c : Timing}
    → IsDueBy deadline c
    → IsDueBy deadline (schedule_run_once now c)
unfolding schedule_run_once
schedule_run_once-IsDueBy now {c = c} b = record {
  due = omega (arith, schedule_run_once_lem now c, b.due, b.free);
  free = b.free;
}

QuietSteps-IsDueBy :
    {deadline t : ℕ} {c : Timing} {u : ℕ} {d : Timing}
    → IsDueBy deadline c
    → QuietSteps t c u d
    → IsDueBy deadline d
unfolding should_run_once
QuietSteps-IsDueBy b still = b
QuietSteps-IsDueBy b (also_event now r le) = schedule_run_once-IsDueBy now (QuietSteps-IsDueBy b r)
QuietSteps-IsDueBy b (also_idle now r le e) =
    let inner = QuietSteps-IsDueBy b r in
    record { due = ground (arith, e, inner.due); free = ground (arith, e, inner.free) }

schedule_run_once-IsDueBy_delay :
    (now : ℕ) (c : Timing)
    → IsDueBy
        (max (c.last_run_at + c.min_event_sync_interval) (now + batch_delay))
        (schedule_run_once now c)
unfolding schedule_run_once
schedule_run_once-IsDueBy_delay now c = record {
  due = (schedule_run_once_bounds now c).1;
  free = omega arith;
}

-- Events do not starve the loop: after an event, whatever further events and ticks follow without a
-- run, a tick starts a run when 5 seconds since the event and the minimal interval since the last
-- run are over.
pub schedule_run_once-runs :
    {u : ℕ} {d : Timing} (now : ℕ) (c : Timing) (later : ℕ)
    → QuietSteps now (schedule_run_once now c) u d
    → max (c.last_run_at + c.min_event_sync_interval) (now + batch_delay) ≤ later
    → (should_run_once later d).0 ≡ true
unfolding should_run_once
schedule_run_once-runs now c later r le =
    let b = QuietSteps-IsDueBy (schedule_run_once-IsDueBy_delay now c) r in
    ground (arith, b.due, le)
