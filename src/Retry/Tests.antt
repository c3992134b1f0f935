-- ===== src/Retry/Tests.antt =====
-- Delays and budgets at concrete configurations.
use job_queue.Prelude.{true, ◌↔◌, ◌<◌, ◌*◌, ◌≤◌, ◌≡◌, refl, some, none, arith}
use job_queue.Retry.{
  BackoffConfig, RetryConfig, Job, exponential, linear, jittered, max_delay, exponential_delay,
  linear_delay, jittered_delay, calculate_delay, get_retry_delay, handle_failure, can_retry,
  get_remaining_attempts,
}
use job_queue.Retry.Delays.{jittered_bounds}
use job_queue.Retry.Budget.{retries, retries_lem, handle_failure_iff}

abbrev backoff : BackoffConfig
backoff = record { delay = some 1000; max_delay = some 5000 }

abbrev config : RetryConfig
config = record { max_attempts = none; backoff_delay = some 1000; max_backoff_delay = some 5000 }

abbrev job : Job
job = record { id = "7"; name = "send-email"; attempts_made = 1 }

delay_tests :
    (get_retry_delay exponential job config ≡ 2000)
    × (exponential_delay 3 backoff ≡ 5000)
    × (linear_delay 3 backoff ≡ 4000)
    × (calculate_delay (jittered 100 7) 1 backoff ≡ 214000)
unfolding get_retry_delay calculate_delay
delay_tests = (refl, refl, refl, refl)

jittered_bounds_example :
    (exponential_delay 1 backoff * 100 ≤ jittered_delay 100 7 1 backoff)
    × (jittered_delay 100 7 1 backoff ≤ exponential_delay 1 backoff * 2 * 100)
    × (jittered_delay 100 7 1 backoff ≤ max_delay backoff * 100)
jittered_bounds_example = jittered_bounds 100 7 1 backoff (omega arith)

retries_lem_example : retries 5 exponential config job ≡ 2
unfolding get_remaining_attempts
retries_lem_example = retries_lem 5 exponential config job (omega arith)

handle_failure_iff_example :
    (handle_failure linear job config ≡ can_retry job config)
    × ((can_retry job config ≡ true) ↔ (0 < get_remaining_attempts job config))
handle_failure_iff_example = handle_failure_iff linear config job
