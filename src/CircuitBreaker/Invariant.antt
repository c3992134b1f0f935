-- ===== src/CircuitBreaker/Invariant.antt =====
-- What holds of a breaker after every schedule of its calls.
use job_queue.Prelude.{ℕ, ◌≤◌, ◌≡◌, ◌≢◌, ◌⊎◌, Bool, refl, List, [], ◌∷◌, arith, ◌∙◌}
use job_queue.CircuitBreaker.{
  State, closed, Breaker, Config, new, on_success, on_failure, admit, open_manually, close, reset,
  Event, enter, step, run,
}

-- The notifications, latest first, form one path from `closed`: each starts at the state in which
-- the one before it ended, and goes to another state.
abbrev pub Traces : List (State × State) → State → Type 0
Traces [] s = s ≡ closed
Traces ((from, to) ∷ earlier) s = (to ≡ s) × (from ≢ to) × Traces earlier from

pub record Inv (b : Breaker) : Type 0 where
  pub reported : b.stats.state ≡ b.state
  pub successes : b.stats.consecutive_successes ≤ b.stats.success_count
  pub failures : b.stats.consecutive_failures ≤ b.stats.failure_count
  pub one_run : (b.stats.consecutive_successes ≡ 0) ⊎ (b.stats.consecutive_failures ≡ 0)
  pub traced : Traces b.notified b.state

pub new-Inv : (config : Config) → Inv (new config)
new-Inv config = ground arith

module _ (rate_reached : ℕ → ℕ → ℕ → Bool) where
  step-Inv : (e : Event) (b : Breaker) → Inv b → Inv (step rate_reached e b)
  unfolding step on_success on_failure open_manually close reset admit
  step-Inv (enter now) b v = ground arith
  step-Inv _ b v = ground arith

  run-Inv_from : (es : List Event) (b : Breaker) → Inv b → Inv (run rate_reached es b)
  unfolding run
  run-Inv_from [] b v = v
  run-Inv_from (e ∷ es) b v = run-Inv_from es (step rate_reached e b) (step-Inv e b v)

  -- After every schedule of calls from a new breaker the statistics report its state, each run of
  -- outcomes is at most the number of such outcomes, one of the two runs is empty, and the
  -- notifications form a path of changes from `closed` to the state.
  pub run-Inv : (config : Config) (es : List Event) → Inv (run rate_reached es (new config))
  run-Inv config es = run-Inv_from es (new config) (new-Inv config)

  config-step : (e : Event) (b : Breaker) → (step rate_reached e b).config ≡ b.config
  unfolding step on_success on_failure open_manually close reset admit
  config-step (enter now) b = ground arith
  config-step _ b = ground arith

  pub config-run : (es : List Event) (b : Breaker) → (run rate_reached es b).config ≡ b.config
  unfolding run
  config-run [] b = refl
  config-run (e ∷ es) b = config-run es (step rate_reached e b) ∙ config-step e b
