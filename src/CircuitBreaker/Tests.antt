-- ===== src/CircuitBreaker/Tests.antt =====
-- Runs of a breaker, and the theorems at concrete breakers.
use job_queue.Prelude.{ℕ, ◌≡◌, refl, Bool, none, some, [], ◌∷◌, arith, leb, ◌*◌}
use job_queue.CircuitBreaker.{
  closed, opened, half_open, Breaker, Config, count, rate, new, on_success, on_failure,
  open_manually, close, admit, enter, succeed, fail, step, run, Outcome, resolved, refused, execute,
  manual_open, manual_close,
}
use job_queue.CircuitBreaker.Invariant.{Inv, run-Inv}
use job_queue.CircuitBreaker.Trips.{failures, failure_shuts_out}
use job_queue.CircuitBreaker.Recovery.{
  successes, recovers, manual_open_keeps_successes, manual_close_keeps_failures,
}

breaker : Unit {0}
unfolding run step on_success on_failure admit open_manually close execute
breaker = tt

-- the percentage test over exact fractions
abbrev exact_rate : ℕ → ℕ → ℕ → Bool
exact_rate failures total percentage = leb (percentage * total) (failures * 100)

abbrev answer : Outcome ℕ ℕ
answer = resolved 7

abbrev two_strikes : Config
two_strikes = record {
  id = "stripe-api";
  failure_threshold = count 2;
  timeout = some 100;
  success_threshold = none;
}

abbrev by_rate : Config
by_rate = record {
  id = "api-breaker";
  failure_threshold = rate 50 none;
  timeout = none;
  success_threshold = some 1;
}

abbrev one_strike : Breaker
one_strike = record (new two_strikes) {
  stats = record {
    state = closed;
    success_count = 3;
    failure_count = 1;
    last_failure_at = some 9;
    last_success_at = some 8;
    consecutive_successes = 0;
    consecutive_failures = 1;
  };
}

abbrev probing : Breaker
probing = record one_strike { state = half_open }

abbrev praised : Breaker
praised = record (new two_strikes) {
  stats = record {
    state = closed;
    success_count = 3;
    failure_count = 0;
    last_failure_at = none;
    last_success_at = some 8;
    consecutive_successes = 3;
    consecutive_failures = 0;
  };
}

rate_tests :
    ((run exact_rate (succeed 1 ∷ succeed 2 ∷ fail 3 3 ∷ fail 4 4 ∷ []) (new by_rate)).state
      ≡ closed)
    × ((run exact_rate
          (succeed 1 ∷ succeed 2 ∷ fail 3 3 ∷ fail 4 4 ∷ fail 5 5 ∷ [])
          (new by_rate)).state
        ≡ opened)
    × ((run exact_rate
          (succeed 1 ∷ succeed 2 ∷ fail 3 3 ∷ fail 4 4 ∷ fail 5 5 ∷ [])
          (new by_rate)).next_attempt_at
        ≡ 60005)
unfolding breaker
rate_tests = (refl, refl, refl)

run-Inv_example :
    Inv (run exact_rate (fail 1 1 ∷ fail 2 2 ∷ enter 150 ∷ succeed 151 ∷ []) (new two_strikes))
run-Inv_example =
    run-Inv exact_rate two_strikes (fail 1 1 ∷ fail 2 2 ∷ enter 150 ∷ succeed 151 ∷ [])

failure_shuts_out_example :
    let b' =
      run exact_rate
        (enter 50 ∷ succeed 60 ∷ fail 70 71 ∷ [])
        (on_failure exact_rate 10 12 one_strike) in
    (b'.state ≡ opened) × (execute exact_rate (answer) 111 0 0 b' ≡ (b', refused))
unfolding breaker
failure_shuts_out_example =
    failure_shuts_out exact_rate one_strike 10 12 (enter 50 ∷ succeed 60 ∷ fail 70 71 ∷ []) answer
      111 0 0 (λ e. ground arith) refl (omega arith) (omega arith)

recovers_example :
    (run exact_rate
      (enter 112 ∷ successes (120 ∷ 130 ∷ []))
      (on_failure exact_rate 10 12 one_strike)).state
    ≡ closed
unfolding breaker
recovers_example =
    recovers exact_rate one_strike 10 12 112 (120 ∷ 130 ∷ []) (λ e. ground arith) refl (omega arith)
      (omega arith)

manual_open_keeps_successes_example :
    (run exact_rate (manual_open 10 ∷ enter 110 ∷ succeed 111 ∷ []) praised).state ≡ closed
manual_open_keeps_successes_example =
    manual_open_keeps_successes exact_rate praised 10 110 111 refl (omega arith) (omega arith)

manual_close_keeps_failures_example :
    (run exact_rate (manual_close 10 ∷ fail 11 11 ∷ []) one_strike).state ≡ opened
manual_close_keeps_failures_example =
    manual_close_keeps_failures exact_rate 2 one_strike 10 11 11 refl (omega arith)
