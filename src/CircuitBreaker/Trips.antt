-- ===== src/CircuitBreaker/Trips.antt =====
-- When a breaker opens, and how long it stays open.
use job_queue.Prelude.{
  ℕ, suc, ◌+◌, ◌<◌, ◌≡◌, Bool, true, false, List, [], ◌∷◌, All, Bool-cases, inl, inr, length,
  if◌then◌else◌, ◌≢◌, ◌∙◌, arith, leb,
}
use job_queue.CircuitBreaker.{
  closed, opened, Breaker, count, timeout_ms, on_success, on_failure, admit, Event, enter, succeed,
  fail, step, run, Outcome, refused, execute,
}

-- A call that is made before `at`, or the end of a call that was under way.
abbrev pub Before : ℕ → Event → Type 0
Before at (enter now) = now < at
Before at (succeed now) = Unit
Before at (fail now later) = Unit
Before at _ = ⊥

module _ (rate_reached : ℕ → ℕ → ℕ → Bool) where
  step-opened :
      (e : Event) (b : Breaker)
      → b.state ≡ opened
      → Before b.next_attempt_at e
      → ((step rate_reached e b).state ≡ opened)
        × ((step rate_reached e b).next_attempt_at ≡ b.next_attempt_at)
  unfolding step on_success on_failure admit
  step-opened (enter now) b o h = ground arith
  step-opened _ b o h = ground arith

  opening_time :
      (b : Breaker) (failed opened_at : ℕ)
      → b.state ≢ opened
      → (on_failure rate_reached failed opened_at b).state ≡ opened
      → (on_failure rate_reached failed opened_at b).next_attempt_at
        ≡ opened_at + timeout_ms b.config
  unfolding on_failure
  opening_time b failed opened_at shut opens = ground arith

  execute-refused :
      {A X : Type 0} (outcome : Outcome A X) (now t t' : ℕ) (b : Breaker)
      → b.state ≡ opened
      → now < b.next_attempt_at
      → execute rate_reached outcome now t t' b ≡ (b, refused)
  unfolding execute admit
  execute-refused outcome now t t' b o early = ground arith

  run-opened :
      (at : ℕ) (es : List Event) (b : Breaker)
      → b.state ≡ opened
      → b.next_attempt_at ≡ at
      → All (Before at) es
      → ((run rate_reached es b).state ≡ opened) × ((run rate_reached es b).next_attempt_at ≡ at)
  unfolding run
  run-opened at [] b o n h = (o, n)
  run-opened at (e ∷ es) b o n (h, hs) =
      let (o', n') = step-opened e b o (rw n h) in
      run-opened at es (step rate_reached e b) o' (n' ∙ n) hs

  -- When a failure opens a breaker, then until its timeout has passed since, and whatever calls
  -- are tried or end in between, it stays open and `execute` is refused without an effect.
  pub failure_shuts_out :
      {A X : Type 0} (b : Breaker) (failed opened_at : ℕ) (es : List Event) (outcome : Outcome A X)
      (now t t' : ℕ)
      → b.state ≢ opened
      → (on_failure rate_reached failed opened_at b).state ≡ opened
      → All (Before (opened_at + timeout_ms b.config)) es
      → now < opened_at + timeout_ms b.config
      → let b' = run rate_reached es (on_failure rate_reached failed opened_at b) in
        (b'.state ≡ opened) × (execute rate_reached outcome now t t' b' ≡ (b', refused))
  failure_shuts_out b failed opened_at es outcome now t t' shut opens before early =
      let (o, n) =
        run-opened (opened_at + timeout_ms b.config) es _ opens
          (opening_time b failed opened_at shut opens) before in
      (o, execute-refused outcome now t t' _ o (rw n early))

abbrev pub failures : List (ℕ × ℕ) → List Event
failures [] = []
failures ((now, later) ∷ ts) = fail now later ∷ failures ts

lots : (n f k : ℕ) → leb n (f + 1) ≡ true → leb n (f + suc k) ≡ true
lots n f k h = ground arith

module _ (rate_reached : ℕ → ℕ → ℕ → Bool) where
  failures-opened :
      (ts : List (ℕ × ℕ)) (b : Breaker)
      → b.state ≡ opened
      → (run rate_reached (failures ts) b).state ≡ opened
  unfolding run step on_failure
  failures-opened [] b o = o
  failures-opened ((now, later) ∷ ts) b o = failures-opened ts _ (ground arith)

  one_failure :
      (n now later : ℕ) (b : Breaker)
      → b.config.failure_threshold ≡ count n
      → b.state ≡ closed
      → ((on_failure rate_reached now later b).config.failure_threshold ≡ count n)
        × ((on_failure rate_reached now later b).stats.consecutive_failures
            ≡ b.stats.consecutive_failures + 1)
        × (leb n (b.stats.consecutive_failures + 1) ≡ true
            → (on_failure rate_reached now later b).state ≡ opened)
        × (leb n (b.stats.consecutive_failures + 1) ≡ false
            → (on_failure rate_reached now later b).state ≡ closed)
  unfolding on_failure
  one_failure n now later b c s = (ground arith, ground arith, λ h. ground arith, λ h. ground arith)

  -- With a count of at least one for its threshold, a closed breaker that has not reached it opens
  -- after that many failures in a row, those before included, and not earlier.
  pub failures_trip :
      (n : ℕ) (ts : List (ℕ × ℕ)) (b : Breaker)
      → b.config.failure_threshold ≡ count n
      → b.state ≡ closed
      → b.stats.consecutive_failures < n
      → (run rate_reached (failures ts) b).state
        ≡ (if leb n (b.stats.consecutive_failures + length ts) then opened else closed)
  unfolding run step
  failures_trip n [] b c s h = ground arith
  failures_trip n ((now, later) ∷ ts) b c s h =
      let (c', f, opens, stays) = one_failure n now later b c s in
      elim (Bool-cases (leb n (b.stats.consecutive_failures + 1))) [
        | inl reached ↦
            failures-opened ts _ (opens reached)
            ∙ ground (arith, lots n (b.stats.consecutive_failures) (length ts) reached)
        | inr below ↦ failures_trip n ts _ c' (stays below) (ground arith) ∙ ground (arith, f)
      ]
