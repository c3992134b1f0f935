-- ===== src/JobChain/Waiting.antt =====
-- `waitForDependencies`: polling for the results of parent jobs until a deadline that they share.
-- What Redis answers at a time is an argument, and how long it takes. The loop runs on fuel.
use job_queue.Prelude.{
  ℕ, zero, suc, ◌+◌, ◌-◌, Option, none, some, List, [], ◌∷◌, ltb, if◌then◌else◌, Settled, returned,
  threw,
}
use job_queue.JsMap
use job_queue.JsMap.{JsMap}
use job_queue.JobQueue.{Ref}
use job_queue.AccessControl.{Text}
use job_queue.Redis.{present, text_eq}
use job_queue.JobChain.{JobDependency}

-- `get` of the result of a job at a time, how long it takes, and `JSON.parse`
pub record World : Type 0 where
  pub get_at : ℕ → Text → Settled (Option Text)
  pub lasts : ℕ → ℕ
  pub parse : Text → Settled Ref

-- How a loop ends: at a time, with its result
pub data Waited (A : Type 0) : Type 0 where
  out_of_fuel : Waited A
  done : ℕ → Settled A → Waited A

-- `if (raw)`
abbrev pub truthy : Settled (Option Text) → Settled (Option Text)
truthy (threw error) = threw error
truthy (returned raw) = returned (present raw)

-- the result that was found
abbrev pub found_at : World → ℕ → Text → Waited (Option Ref)
found_at world now raw = elim (world.parse raw) [
  | threw error ↦ done now (threw error)
  | returned result ↦ done now (returned (some result))
]

-- what a poll leads to, where `rest` is the loop from the next poll on
abbrev pub polled : World → ℕ → Settled (Option Text) → Waited (Option Ref) → Waited (Option Ref)
polled world now (threw error) rest = done now (threw error)
polled world now (returned none) rest = rest
polled world now (returned (some raw)) rest = found_at world now raw

-- `waitForDependencyResult`, with the time at which it is called
unfoldable pub wait_for_result :
    (fuel : ℕ) → World → Text → (start_time timeout_ms now : ℕ) → Waited (Option Ref)
wait_for_result zero world parent start_time timeout_ms now = out_of_fuel
wait_for_result (suc fuel) world parent start_time timeout_ms now =
    let after = now + world.lasts now in
    let rest = wait_for_result fuel world parent start_time timeout_ms (after + 100) in
    if ltb (now - start_time) timeout_ms
    then polled world after (truthy (world.get_at now parent)) rest
    else done now (returned none)

-- the loop of `waitForDependencies` after a wait
abbrev pub with_result : Text → Option Ref → JsMap Text Ref → JsMap Text Ref
with_result parent none results = results
with_result parent (some result) results = JsMap.set parent result results

-- `waitForDependencies` once the dependencies are read
unfoldable pub wait_for_all :
    (fuel : ℕ)
    → World
    → List JobDependency
    → (start_time timeout_ms now : ℕ) → JsMap Text Ref
    → Waited (JsMap Text Ref)
unfolding wait_for_result
wait_for_all fuel world [] start_time timeout_ms now results = done now (returned results)
wait_for_all fuel world (dep ∷ deps) start_time timeout_ms now results =
    elim (wait_for_result fuel world dep.parent_job_id start_time timeout_ms now) [
      | out_of_fuel ↦ out_of_fuel
      | done t settled ↦ elim settled [
        | threw error ↦ done t (threw error)
        | returned result ↦
            wait_for_all fuel world deps start_time timeout_ms t
              (with_result dep.parent_job_id result results)
      ]
    ]
