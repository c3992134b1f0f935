-- ===== src/Retry/Budget.antt =====
-- How many retries a failing job gets.
use job_queue.Prelude.{ℕ, zero, suc, ◌+◌, ◌≤◌, ◌<◌, ◌≡◌, ◌↔◌, refl, arith, true, if◌then◌else◌}
use job_queue.Retry.{RetryConfig, Job, Strategy, handle_failure, can_retry, get_remaining_attempts}

-- A job that fails at every attempt: it is tried again as long as `handleFailure` says so, and
-- BullMQ counts each attempt. The result is the number of retries, for as much fuel.
unfoldable pub retries : ℕ → Strategy → RetryConfig → Job → ℕ
retries zero strategy config job = 0
retries (suc fuel) strategy config job =
    let rest =
      retries fuel strategy config (record job { attempts_made = job.attempts_made + 1 }) in
    if handle_failure strategy job config then suc rest else 0

-- A job that keeps failing is retried exactly `getRemainingAttempts` times, and then no more: that
-- much fuel is enough, whatever the strategy.
pub retries_lem :
    (fuel : ℕ) (strategy : Strategy) (config : RetryConfig) (job : Job)
    → get_remaining_attempts job config ≤ fuel
    → retries fuel strategy config job ≡ get_remaining_attempts job config
unfolding retries handle_failure get_remaining_attempts
retries_lem zero strategy config job h = omega arith
retries_lem (suc fuel) strategy config job h =
    ground (
      arith,
      retries_lem fuel strategy config (record job { attempts_made = job.attempts_made + 1 }),
    )

-- A failed job is retried exactly if `canRetry` holds, and exactly if attempts remain.
pub handle_failure_iff :
    (strategy : Strategy) (config : RetryConfig) (job : Job)
    → (handle_failure strategy job config ≡ can_retry job config)
      × ((can_retry job config ≡ true) ↔ (0 < get_remaining_attempts job config))
unfolding handle_failure can_retry get_remaining_attempts
handle_failure_iff strategy config job = (refl, (λ h. ground arith, λ h. ground arith))
