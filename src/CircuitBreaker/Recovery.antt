-- ===== src/CircuitBreaker/Recovery.antt =====
-- The way back to `closed`, by successes after the timeout or by hand.
use job_queue.Prelude.{
  ℕ, suc, ◌+◌, ◌≤◌, ◌<◌, ◌≡◌, ◌≢◌, ◌∙◌, refl, ap, inl, inr, Bool, true, false, List, [], ◌∷◌, arith,
  leb, length, if◌then◌else◌, Bool-cases,
}
use job_queue.CircuitBreaker.Invariant.{config-run}
use job_queue.CircuitBreaker.{
  closed, opened, half_open, Breaker, count, timeout_ms, success_limit, on_success, on_failure,
  admit, open_manually, close, Event, enter, succeed, fail, manual_open, manual_close, step, run,
}

abbrev pub successes : List ℕ → List Event
successes [] = []
successes (now ∷ ts) = succeed now ∷ successes ts

reaches_later : (n f k : ℕ) → leb n (f + 1) ≡ true → leb n (f + suc k) ≡ true
reaches_later n f k h = ground arith

module _ (rate_reached : ℕ → ℕ → ℕ → Bool) where
  successes-closed :
      (ts : List ℕ) (b : Breaker)
      → b.state ≡ closed
      → (run rate_reached (successes ts) b).state ≡ closed
  unfolding run step on_success
  successes-closed [] b c = c
  successes-closed (now ∷ ts) b c = successes-closed ts _ (ground arith)

  one_success :
      (now : ℕ) (b : Breaker)
      → b.state ≡ half_open
      → ((on_success rate_reached now b).config ≡ b.config)
        × ((on_success rate_reached now b).stats.consecutive_successes
            ≡ b.stats.consecutive_successes + 1)
        × (leb (success_limit b.config) (b.stats.consecutive_successes + 1) ≡ true
            → (on_success rate_reached now b).state ≡ closed)
        × (leb (success_limit b.config) (b.stats.consecutive_successes + 1) ≡ false
            → (on_success rate_reached now b).state ≡ half_open)
  unfolding on_success
  one_success now b h = (ground arith, ground arith, λ p. ground arith, λ p. ground arith)

  half_open-successes :
      (limit : ℕ) (ts : List ℕ) (b : Breaker)
      → success_limit b.config ≡ limit
      → b.state ≡ half_open
      → b.stats.consecutive_successes < limit
      → (run rate_reached (successes ts) b).state
        ≡ (if leb limit (b.stats.consecutive_successes + length ts) then closed else half_open)
  unfolding run step
  half_open-successes limit [] b c s h = ground arith
  half_open-successes limit (now ∷ ts) b c s h =
      let (c', f, closes, stays) = one_success now b s in
      elim (Bool-cases (leb limit (b.stats.consecutive_successes + 1))) [
        | inl reached ↦
            successes-closed ts _ (closes (rw c reached))
            ∙ ground (arith, reaches_later limit b.stats.consecutive_successes (length ts) reached)
        | inr below ↦
            half_open-successes limit ts _ (rw c' c) (stays (rw c below)) (ground arith)
            ∙ ground (arith, f)
      ]

  after_timeout :
      (b : Breaker) (failed opened_at now : ℕ)
      → b.state ≢ opened
      → (on_failure rate_reached failed opened_at b).state ≡ opened
      → opened_at + timeout_ms b.config ≤ now
      → let b' = step rate_reached (enter now) (on_failure rate_reached failed opened_at b) in
        (b'.state ≡ half_open) × (b'.stats.consecutive_successes ≡ 0) × (b'.config ≡ b.config)
  unfolding step on_failure admit
  after_timeout b failed opened_at now shut opens late = ground arith

  -- A breaker that a failure opened admits a call once its timeout has passed since. With a
  -- success threshold of at least one it then closes after that many successes, and not earlier.
  pub recovers :
      (b : Breaker) (failed opened_at now : ℕ) (ts : List ℕ)
      → b.state ≢ opened
      → (on_failure rate_reached failed opened_at b).state ≡ opened
      → opened_at + timeout_ms b.config ≤ now
      → 0 < success_limit b.config
      → let opened_b = on_failure rate_reached failed opened_at b in
        (run rate_reached (enter now ∷ successes ts) opened_b).state
        ≡ (if leb (success_limit b.config) (length ts) then closed else half_open)
  unfolding run
  recovers b failed opened_at now ts shut opens late pos =
      let (h, z, c) = after_timeout b failed opened_at now shut opens late in
      half_open-successes (success_limit b.config) ts _ (rw c) h (rw z pos) ∙ ground (arith, z)

  failure_reopens :
      (b : Breaker) (failed opened_at : ℕ)
      → b.state ≡ half_open
      → ((on_failure rate_reached failed opened_at b).state ≡ opened)
        × ((on_failure rate_reached failed opened_at b).next_attempt_at
            ≡ opened_at + timeout_ms b.config)
  unfolding on_failure
  failure_reopens b failed opened_at h = ground arith

  -- A half open breaker that has seen fewer successes than its threshold opens again at one
  -- failure, and for a whole timeout from then.
  pub probe_failure :
      (b : Breaker) (ts : List ℕ) (failed opened_at : ℕ)
      → b.state ≡ half_open
      → b.stats.consecutive_successes + length ts < success_limit b.config
      → let b' = on_failure rate_reached failed opened_at (run rate_reached (successes ts) b) in
        (b'.state ≡ opened) × (b'.next_attempt_at ≡ opened_at + timeout_ms b.config)
  probe_failure b ts failed opened_at h few =
      let still = half_open-successes (success_limit b.config) ts b refl h (omega arith) in
      let (o, n) =
        failure_reopens (run rate_reached (successes ts) b) failed opened_at
          (still ∙ ground arith) in
      (o, n ∙ ap (λ c. opened_at + timeout_ms c) (config-run rate_reached (successes ts) b))

  -- A closed breaker that has just seen one success less than its success threshold, or more, and
  -- is opened by hand closes again at the first success after its timeout: opening by hand
  -- does not end the run of successes.
  pub manual_open_keeps_successes :
      (b : Breaker) (t now ended : ℕ)
      → b.state ≡ closed
      → success_limit b.config ≤ b.stats.consecutive_successes + 1
      → t + timeout_ms b.config ≤ now
      → (run rate_reached (manual_open t ∷ enter now ∷ succeed ended ∷ []) b).state ≡ closed
  unfolding run step open_manually admit on_success
  manual_open_keeps_successes b t now ended c s late = ground arith

  -- A breaker with a count for its threshold that is closed by hand opens at the first
  -- failure if the failures in a row, that one included, reach the threshold: closing by hand does
  -- not end the run of failures.
  pub manual_close_keeps_failures :
      (n : ℕ) (b : Breaker) (t failed opened_at : ℕ)
      → b.config.failure_threshold ≡ count n
      → n ≤ b.stats.consecutive_failures + 1
      → (run rate_reached (manual_close t ∷ fail failed opened_at ∷ []) b).state ≡ opened
  unfolding run step close on_failure
  manual_close_keeps_failures n b t failed opened_at c h = ground arith
