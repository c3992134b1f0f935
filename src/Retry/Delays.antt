-- ===== src/Retry/Delays.antt =====
-- How the delays grow from one attempt to the next, and their bounds.
use job_queue.Prelude.{ℕ, suc, ◌+◌, ◌*◌, ◌^◌, ◌≤◌, min, ◌≡◌, arith}
use native.Mathlib.Nat.{pow-suc}
use native.Mathlib.Decide.{dec_le}
use job_queue.Retry.{
  BackoffConfig, base_delay, max_delay, exponential_delay, linear_delay, jittered_delay,
}

double_step : (b p m : ℕ) → min (b * (p * 2)) m ≡ min (min (b * p) m * 2) m
double_step b p m = grind arith

linear_step : (b a m : ℕ) → min (b * (1 + suc a)) m ≡ min (min (b * (1 + a)) m + b) m
linear_step b a m = grind arith

mul_mono_left : (e a b : ℕ) → a ≤ b → e * a ≤ e * b
mul_mono_left e a b h = grind arith

mul_mono_right : (a b e : ℕ) → a ≤ b → a * e ≤ b * e
mul_mono_right a b e h = grind arith

jitter_step :
    (e m scale noise : ℕ)
    → noise ≤ scale
    → (min e m * scale ≤ min (e * scale + e * noise) (m * scale))
      × (min (e * scale + e * noise) (m * scale) ≤ min e m * 2 * scale)
      × (min (e * scale + e * noise) (m * scale) ≤ m * scale)
jitter_step e m scale noise h =
    let grown = mul_mono_left e noise scale h in
    elim (dec_le e m) [
      | yes p ↦
          let capped = mul_mono_right e m scale p in
          let eq : min e m ≡ e = omega arith in
          (rw eq (omega (arith, capped, grown)), rw eq (omega (arith, capped, grown)), omega arith)
      | no p ↦
          let capped = mul_mono_right m e scale (omega arith) in
          let eq : min e m ≡ m = omega arith in
          (rw eq (omega (arith, capped, grown)), rw eq (omega (arith, capped, grown)), omega arith)
    ]

-- Each exponential delay is twice the one before, up to the maximum, from the base delay on.
pub exponential_growth :
    (attempt : ℕ) (config : BackoffConfig)
    → (exponential_delay 0 config ≡ min (base_delay config) (max_delay config))
      × (exponential_delay (suc attempt) config
          ≡ min (exponential_delay attempt config * 2) (max_delay config))
unfolding exponential_delay
exponential_growth attempt config =
    (omega arith, rw pow-suc (double_step (base_delay config) (2 ^ attempt) (max_delay config)))

-- Each linear delay is the base delay more than the one before, up to the maximum.
pub linear_growth :
    (attempt : ℕ) (config : BackoffConfig)
    → (linear_delay 0 config ≡ min (base_delay config) (max_delay config))
      × (linear_delay (suc attempt) config
          ≡ min (linear_delay attempt config + base_delay config) (max_delay config))
unfolding linear_delay
linear_growth attempt config =
    (omega arith, linear_step (base_delay config) attempt (max_delay config))

-- With jitter of at most the whole delay, the delay is at least the exponential one and at most
-- twice that, and never above the maximum; all three in units of `1 / scale` milliseconds.
pub jittered_bounds :
    (scale noise attempt : ℕ) (config : BackoffConfig)
    → noise ≤ scale
    → (exponential_delay attempt config * scale ≤ jittered_delay scale noise attempt config)
      × (jittered_delay scale noise attempt config ≤ exponential_delay attempt config * 2 * scale)
      × (jittered_delay scale noise attempt config ≤ max_delay config * scale)
unfolding exponential_delay jittered_delay
jittered_bounds scale noise attempt config h =
    jitter_step (base_delay config * 2 ^ attempt) (max_delay config) scale noise h
