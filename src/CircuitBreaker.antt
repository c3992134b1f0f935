-- ===== src/CircuitBreaker.antt =====
-- src/core/interfaces/circuit-breaker.interface.ts and the class `CircuitBreaker` of
-- src/infrastructure/services/circuit-breaker.manager.ts.
-- `Date.now()` is an argument at each place that reads it. `execute` is cut at its `await`: `admit`
-- runs before the operation, `settle` when its promise settles, and other calls may come between.
-- The calls of `onStateChange` are listed in `notified`, the latest first; the callback returns.
pub mod Invariant
pub mod Trips
pub mod Recovery
pub mod Manager
mod Tests
use job_queue.Prelude.{
  ℕ, ◌+◌, Bool, true, false, Option, none, some, List, [], ◌∷◌, String, leb, ltb, get_or,
  if◌then◌else◌,
}

-- `CircuitBreakerState`
pub data State : Type 0 where
  closed opened half_open : State

-- `failureThreshold`: a number of failures in a row, or a percentage of all requests
pub data Threshold : Type 0 where
  count : ℕ → Threshold
  rate : ℕ → Option ℕ → Threshold

-- `CircuitBreakerConfig`, the fields that the class reads
pub record Config : Type 0 where
  pub id : String
  pub failure_threshold : Threshold
  pub timeout : Option ℕ
  pub success_threshold : Option ℕ

-- `CircuitBreakerStats`
pub record Stats : Type 0 where
  pub state : State
  pub success_count : ℕ
  pub failure_count : ℕ
  pub last_failure_at : Option ℕ
  pub last_success_at : Option ℕ
  pub consecutive_successes : ℕ
  pub consecutive_failures : ℕ

-- The fields of `CircuitBreaker`
pub record Breaker : Type 0 where
  pub config : Config
  pub state : State
  pub stats : Stats
  pub next_attempt_at : ℕ
  pub notified : List (State × State)

abbrev pub no_stats : Stats
no_stats = record {
  state = closed;
  success_count = 0;
  failure_count = 0;
  last_failure_at = none;
  last_success_at = none;
  consecutive_successes = 0;
  consecutive_failures = 0;
}

-- the constructor
abbrev pub new : Config → Breaker
new config = record {
  config = config;
  state = closed;
  stats = no_stats;
  next_attempt_at = 0;
  notified = [];
}

-- `===` on states
abbrev pub same : State → State → Bool
same closed closed = true
same opened opened = true
same half_open half_open = true
same _ _ = false

abbrev pub timeout_ms : Config → ℕ
timeout_ms config = get_or config.timeout 60000

abbrev pub success_limit : Config → ℕ
success_limit config = get_or config.success_threshold 2

-- `transitionTo`; `now` is read only on the way to `opened`
unfoldable pub transition_to : State → ℕ → Breaker → Breaker
transition_to new_state now b = if same b.state new_state then b else record b {
  state = new_state;
  stats = record (b.stats) { state = new_state };
  next_attempt_at = if same new_state opened then now + timeout_ms b.config else b.next_attempt_at;
  notified = (b.state, new_state) ∷ b.notified;
}

-- `rate_reached failures total percentage` is the test `(failures / total) * 100 >= percentage` on
-- JavaScript's doubles, which round.
module _ (rate_reached : ℕ → ℕ → ℕ → Bool) where
  -- `shouldOpen`
  unfoldable pub should_open_at : Threshold → Stats → Bool
  should_open_at (count n) stats = leb n stats.consecutive_failures
  should_open_at (rate percentage min_requests) stats =
      let total = stats.success_count + stats.failure_count in
      if ltb total (get_or min_requests 5)
      then false
      else rate_reached stats.failure_count total percentage

  unfoldable pub should_open : Breaker → Bool
  unfolding should_open_at
  should_open b = should_open_at b.config.failure_threshold b.stats

  -- `onSuccess`, which runs at the time `now`
  unfoldable pub on_success : ℕ → Breaker → Breaker
  unfolding transition_to
  on_success now b =
      let counted = record b {
        stats = record (b.stats) {
          success_count = b.stats.success_count + 1;
          consecutive_successes = b.stats.consecutive_successes + 1;
          consecutive_failures = 0;
          last_success_at = some now;
        };
      } in
      if same counted.state half_open
      then (if leb (success_limit b.config) counted.stats.consecutive_successes
          then transition_to closed now counted
          else counted)
      else counted

  -- `onFailure`, which reads the clock at `now`, and once more at `later` if it opens
  unfoldable pub on_failure : ℕ → ℕ → Breaker → Breaker
  unfolding transition_to should_open
  on_failure now later b =
      let counted = record b {
        stats = record (b.stats) {
          failure_count = b.stats.failure_count + 1;
          consecutive_failures = b.stats.consecutive_failures + 1;
          consecutive_successes = 0;
          last_failure_at = some now;
        };
      } in
      if (if same counted.state half_open then true else should_open counted)
      then transition_to opened later counted
      else counted

-- `execute` before its `await`: none is the error `Circuit breaker is OPEN`, which leaves the
-- breaker as it was
unfoldable pub admit : ℕ → Breaker → Option Breaker
unfolding transition_to
admit now b =
    if same b.state opened
    then (if ltb now b.next_attempt_at then none else some (transition_to half_open now b))
    else some b

-- How the promise of `operation()` settles, and how that of `execute` does
pub data Outcome (A X : Type 0) : Type 0 where
  resolved : A → Outcome A X
  rejected : X → Outcome A X

pub data Executed (A X : Type 0) : Type 0 where
  refused : Executed A X
  returned : A → Executed A X
  threw : X → Executed A X

module _ (rate_reached : ℕ → ℕ → ℕ → Bool) {A X : Type 0} where
  -- `execute` after its `await`
  unfoldable pub settle : Outcome A X → ℕ → ℕ → Breaker → Breaker × Executed A X
  settle (resolved a) now later b = (on_success rate_reached now b, returned a)
  settle (rejected x) now later b = (on_failure rate_reached now later b, threw x)

  -- `execute`, with no other call between its two parts
  unfoldable pub execute : Outcome A X → ℕ → ℕ → ℕ → Breaker → Breaker × Executed A X
  unfolding settle
  execute outcome entered now later b = elim (admit entered b) [
    | none ↦ (b, refused)
    | some b' ↦ settle outcome now later b'
  ]

-- `open`
unfoldable pub open_manually : ℕ → Breaker → Breaker
unfolding transition_to
open_manually now b = transition_to opened now b

-- `close`
unfoldable pub close : ℕ → Breaker → Breaker
unfolding transition_to
close now b = transition_to closed now b

-- `reset`
unfoldable pub reset : ℕ → Breaker → Breaker
unfolding transition_to
reset now b = transition_to closed now (record b { stats = no_stats })

-- What the event loop may run next. A call that was admitted settles by `succeed` or `fail`.
pub data Event : Type 0 where
  enter : ℕ → Event
  succeed : ℕ → Event
  fail : ℕ → ℕ → Event
  manual_open manual_close manual_reset : ℕ → Event

module _ (rate_reached : ℕ → ℕ → ℕ → Bool) where
  unfoldable pub step : Event → Breaker → Breaker
  step (enter now) b = get_or (admit now b) b
  step (succeed now) b = on_success rate_reached now b
  step (fail now later) b = on_failure rate_reached now later b
  step (manual_open now) b = open_manually now b
  step (manual_close now) b = close now b
  step (manual_reset now) b = reset now b

  -- A schedule of the event loop
  unfoldable pub run : List Event → Breaker → Breaker
  run [] b = b
  run (e ∷ es) b = run es (step e b)
