-- ===== src/JobChain/Deadline.antt =====
-- When `waitForDependencies` ends.
use job_queue.Prelude.{
  ℕ, zero, suc, ◌+◌, ◌-◌, ◌*◌, ◌≤◌, ◌≡◌, refl, Option, none, some, List, [], ◌∷◌, arith, ltb,
  Bool-cases, Settled-cases, inl, inr, Settled, returned, threw,
}
use job_queue.JsMap.{JsMap}
use job_queue.JobQueue.{Ref}
use job_queue.AccessControl.{Text}
use job_queue.Redis.{text_eq}
use job_queue.JobChain.{JobDependency}
use job_queue.JobChain.Waiting.{
  World, Waited, done, truthy, found_at, polled, wait_for_result, with_result, wait_for_all,
}

-- A loop that ends, between two times
abbrev pub EndsWithin : {A : Type 0} → ℕ → ℕ → Waited A → Type 0
EndsWithin {A} from until w =
    (t : ℕ) × ((settled : Settled A) × ((w ≡ done t settled) × ((from ≤ t) × (t ≤ until))))

module _ (world : World) (start_time timeout_ms slack : ℕ)
    (fast : (t : ℕ) → world.lasts t ≤ slack) where
  -- The last time at which a poll can end
  abbrev last_time : ℕ
  last_time = start_time + timeout_ms + slack + 100

  found-EndsWithin :
      (from until now : ℕ) (raw : Text)
      → from ≤ now
      → now ≤ until
      → EndsWithin from until (found_at world now raw)
  found-EndsWithin from until now raw h g = elim (Settled-cases (world.parse raw)) [
    | inl (r, e) ↦ (now, (returned (some r), (rw (e, found_at) refl, (h, g))))
    | inr (error, e) ↦ (now, (threw error, (rw (e, found_at) refl, (h, g))))
  ]

  polled-EndsWithin :
      (from until now : ℕ) (raw : Settled (Option Text)) (rest : Waited (Option Ref))
      → from ≤ now
      → now ≤ until
      → EndsWithin from until rest
      → EndsWithin from until (polled world now raw rest)
  polled-EndsWithin from until now (threw error) rest h g r = (now, (threw error, (refl, (h, g))))
  polled-EndsWithin from until now (returned none) rest h g r = r
  polled-EndsWithin from until now (returned (some raw)) rest h g r =
      found-EndsWithin from until now raw h g

  wait-EndsWithin :
      (n : ℕ) (parent : Text) (from until now : ℕ)
      → start_time ≤ now
      → start_time + timeout_ms ≤ now + 100 * n
      → from ≤ now
      → now ≤ until
      → last_time ≤ until
      → EndsWithin from until (wait_for_result (suc n) world parent start_time timeout_ms now)
  unfolding wait_for_result
  wait-EndsWithin zero parent from until now h e g l u =
      elim (Bool-cases (ltb (now - start_time) timeout_ms)) [
        | inr late ↦ (now, (returned none, (rw (late, wait_for_result) refl, (g, l))))
        | inl early ↦ absurd (ground (arith, early, h, e))
      ]
  wait-EndsWithin (suc n) parent from until now h e g l u =
      elim (Bool-cases (ltb (now - start_time) timeout_ms)) [
        | inr late ↦ (now, (returned none, (rw (late, wait_for_result) refl, (g, l))))
        | inl early ↦
            let close : now ≤ start_time + timeout_ms = ground (arith, early, h) in
            let next =
              wait-EndsWithin n parent from until (now + world.lasts now + 100) (omega (arith, h))
                (omega (arith, e)) (omega (arith, g)) (omega (arith, close, u, fast now)) u in
            rw (early, wait_for_result)
              (polled-EndsWithin from until (now + world.lasts now)
                (truthy (world.get_at now parent))
                (wait_for_result (suc n) world parent start_time timeout_ms
                  (now + world.lasts now + 100))
                (omega (arith, g)) (omega (arith, close, u, fast now)) next)
      ]

  wait_all-EndsWithin :
      (n : ℕ) (deps : List JobDependency) (from until now : ℕ) (results : JsMap Text Ref)
      → start_time ≤ now
      → start_time + timeout_ms ≤ now + 100 * n
      → from ≤ now
      → now ≤ until
      → last_time ≤ until
      → EndsWithin from until (wait_for_all (suc n) world deps start_time timeout_ms now results)
  unfolding wait_for_all
  wait_all-EndsWithin n [] from until now results h e g l u =
      (now, (returned results, (refl, (g, l))))
  wait_all-EndsWithin n (dep ∷ deps) from until now results h e g l u =
      let (t, w) = wait-EndsWithin n dep.parent_job_id now until now h e (omega arith) l u in
      elim (Settled-cases w.0) [
        | inr (error, threw_it) ↦ (
          t,
          (
            threw error,
            (rw (w.1.0, threw_it, wait_for_all) refl, (omega (arith, g, w.1.1.0), w.1.1.1)),
          ),
        )
        | inl (result, is) ↦
            rw (w.1.0, is, wait_for_all)
              (wait_all-EndsWithin n deps from until t
                (with_result dep.parent_job_id result results) (omega (arith, h, w.1.1.0))
                (omega (arith, e, w.1.1.0)) (omega (arith, g, w.1.1.0)) w.1.1.1 u)
      ]

  -- If no command of Redis takes longer than `slack`, `waitForDependencies` ends, however many
  -- dependencies there are and whether or not their results come: at the latest one poll and one pause
  -- after the deadline. Fuel for a poll every 100 ms up to the deadline is enough, and one more.
  pub waiting_ends :
      (n : ℕ) (deps : List JobDependency)
      → timeout_ms ≤ 100 * n
      → (t : ℕ) × ((settled : Settled (JsMap Text Ref)) × ((wait_for_all
                (suc n)
                world
                deps
                start_time
                timeout_ms
                start_time
                []
              ≡ done t settled)
            × ((start_time ≤ t) × (t ≤ start_time + timeout_ms + slack + 100))))
  waiting_ends n deps e =
      wait_all-EndsWithin n deps start_time last_time start_time [] (omega arith) (omega (arith, e))
        (omega arith) (omega arith) (omega arith)
