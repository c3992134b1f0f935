-- ===== src/Retry.antt =====
-- src/core/services/retry: the three strategies and `JobRetryCoordinator`.
-- Delays and counts are natural numbers; `2**attempt` is exact. The coordinator is built with one of
-- the strategies. What it logs is left out.
pub mod Delays
pub mod Budget
mod Tests
use job_queue.Prelude.{
  ℕ, ◌+◌, ◌-◌, ◌*◌, ◌^◌, min, String, Bool, true, false, Option, none, some, ltb, get_or,
}

-- `BackoffConfig` as `calculateDelay` reads it
pub record BackoffConfig : Type 0 where
  pub delay : Option ℕ
  pub max_delay : Option ℕ

-- `RetryConfig` as the coordinator and `shouldRetry` read it
pub record RetryConfig : Type 0 where
  pub max_attempts : Option ℕ
  pub backoff_delay : Option ℕ
  pub max_backoff_delay : Option ℕ

-- `IJob`, the fields that are read here
pub record Job : Type 0 where
  pub id : String
  pub name : String
  pub attempts_made : ℕ

-- Which class. With jitter, `noise / scale` is `Math.random() * jitterPercentage`.
pub data Strategy : Type 0 where
  exponential linear : Strategy
  jittered : (scale noise : ℕ) → Strategy

abbrev pub base_delay : BackoffConfig → ℕ
base_delay config = get_or config.delay 1000

abbrev pub max_delay : BackoffConfig → ℕ
max_delay config = get_or config.max_delay 60000

-- `ExponentialBackoffStrategy.calculateDelay`
unfoldable pub exponential_delay : ℕ → BackoffConfig → ℕ
exponential_delay attempt config = min (base_delay config * 2 ^ attempt) (max_delay config)

-- `LinearBackoffStrategy.calculateDelay`
unfoldable pub linear_delay : ℕ → BackoffConfig → ℕ
linear_delay attempt config = min (base_delay config * (1 + attempt)) (max_delay config)

-- `ExponentialBackoffWithJitterStrategy.calculateDelay`, in units of `1 / scale` milliseconds
unfoldable pub jittered_delay : (scale noise attempt : ℕ) → BackoffConfig → ℕ
jittered_delay scale noise attempt config =
    let exponential = base_delay config * 2 ^ attempt in
    min (exponential * scale + exponential * noise) (max_delay config * scale)

-- `calculateDelay`; with jitter the unit is that of `jittered_delay`
unfoldable pub calculate_delay : Strategy → ℕ → BackoffConfig → ℕ
unfolding exponential_delay linear_delay jittered_delay
calculate_delay exponential attempt config = exponential_delay attempt config
calculate_delay linear attempt config = linear_delay attempt config
calculate_delay (jittered scale noise) attempt config = jittered_delay scale noise attempt config

-- `shouldRetry`, which is the same in all three
unfoldable pub should_retry : Strategy → Job → RetryConfig → Bool
should_retry strategy job config = ltb job.attempts_made (get_or config.max_attempts 3)

-- `{ delay: config.backoffDelay, maxDelay: config.maxBackoffDelay }`
abbrev pub backoff_of : RetryConfig → BackoffConfig
backoff_of config = record { delay = config.backoff_delay; max_delay = config.max_backoff_delay }

-- `handleFailure`: what its promise resolves to
unfoldable pub handle_failure : Strategy → Job → RetryConfig → Bool
unfolding should_retry
handle_failure strategy job config = should_retry strategy job config

-- `getRetryDelay`
unfoldable pub get_retry_delay : Strategy → Job → RetryConfig → ℕ
unfolding calculate_delay
get_retry_delay strategy job config = calculate_delay strategy job.attempts_made (backoff_of config)

-- `canRetry`
unfoldable pub can_retry : Job → RetryConfig → Bool
can_retry job config = ltb job.attempts_made (get_or config.max_attempts 3)

-- `getRemainingAttempts`; subtraction stops at 0, as `Math.max(0, …)` does
unfoldable pub get_remaining_attempts : Job → RetryConfig → ℕ
get_remaining_attempts job config = get_or config.max_attempts 3 - job.attempts_made
