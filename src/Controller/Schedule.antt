-- ===== src/Controller/Schedule.antt =====
-- The schedule of controller/controller.go. Instants and durations are numbers, in nanoseconds; the
-- mutex makes each part of a method that holds it one step.
use external_dns.Prelude.{Bool, List, [], false, if◌then◌else◌, ltb, true, ℕ, ◌+◌, ◌∷◌, ◌≡◌, ◌≤◌}

pub record Timing : Type 0 where
  pub interval : ℕ
  pub min_event_sync_interval : ℕ
  pub next_run_at : ℕ
  pub last_run_at : ℕ

-- `earliest(r, t)` and `latest(r, t)`
unfoldable pub earliest : ℕ → List ℕ → ℕ
earliest r [] = r
earliest r (t ∷ ts) = earliest (if ltb t r then t else r) ts

unfoldable pub latest : ℕ → List ℕ → ℕ
latest r [] = r
latest r (t ∷ ts) = latest (if ltb r t then t else r) ts

abbrev pub batch_delay : ℕ
batch_delay = 5000000000

-- `ScheduleRunOnce`
unfoldable pub schedule_run_once : ℕ → Timing → Timing
unfolding earliest latest
schedule_run_once now c = record c {
  next_run_at =
      latest (c.last_run_at + c.min_event_sync_interval)
        (earliest (now + batch_delay) (c.next_run_at ∷ []) ∷ []);
}

-- `ShouldRunOnce`
unfoldable pub should_run_once : ℕ → Timing → Bool × Timing
should_run_once now c =
    if ltb now c.next_run_at
    then (false, c)
    else (true, record c { next_run_at = now + c.interval })

-- `RunOnce` under the mutex: `now` is its own reading of the clock, after that of `ShouldRunOnce`
unfoldable pub start_run : ℕ → Timing → Timing
start_run now c = record c { last_run_at = now }

-- Where the loop of `Run` stands: it waits for a tick, or `ShouldRunOnce` has returned true and
-- `RunOnce` has not yet taken the mutex.
pub data Phase : Type 0 where
  waiting starting : Phase

-- What can happen to the schedule from the instant at which a run is decided, until the next is: the
-- three methods take the mutex one at a time, events come from other goroutines between any two of
-- them, and the clock does not go back. The Boolean tells whether an event came between the decision
-- and the start of the run. The last three indices are the phase, the time and the schedule.
pub data Since (decided : ℕ) (c : Timing) : Bool → Phase → ℕ → Timing → Type 0 where
  decide :
      (should_run_once decided c).0 ≡ true
      → Since decided c false starting decided (should_run_once decided c).1
  event_before_start :
      {b : Bool} {t : ℕ} {d : Timing} (now : ℕ)
      → Since decided c b starting t d
      → t ≤ now
      → Since decided c true starting now (schedule_run_once now d)
  start :
      {b : Bool} {t : ℕ} {d : Timing} (now : ℕ)
      → Since decided c b starting t d
      → t ≤ now
      → Since decided c b waiting now (start_run now d)
  event :
      {b : Bool} {t : ℕ} {d : Timing} (now : ℕ)
      → Since decided c b waiting t d
      → t ≤ now
      → Since decided c b waiting now (schedule_run_once now d)
  idle :
      {b : Bool} {t : ℕ} {d : Timing} (now : ℕ)
      → Since decided c b waiting t d
      → t ≤ now
      → (should_run_once now d).0 ≡ false
      → Since decided c b waiting now (should_run_once now d).1
