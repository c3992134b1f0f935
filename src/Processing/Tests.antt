-- ===== src/Processing/Tests.antt =====
-- Two processors, one that succeeds and one that fails, and a job without one.
use job_queue.Prelude.{
  if◌then◌else◌, nat_beq, ℕ, zero, suc, ◌≡◌, refl, none, some, List, [], ◌∷◌, String, returned,
  threw, string_eq,
}
use job_queue.JsMap
use job_queue.JobQueue.{Ref, job_started, job_retrying, job_failed}
use job_queue.Retry.{RetryConfig, Job, linear, handle_failure}
use job_queue.Processing.{
  Processors, register, unregister, get, clear, Run, resolved, rejected, Span, quiet_span,
  process_job, settle, fail, handle_job_failure, get_processor_or_throw,
}
use job_queue.Processing.Registry.{Op, add, remove, perform, perform_all, get-perform_all}
use job_queue.Processing.Lifecycle.{
  ends, exceptions, news, called, process_job_lem, process_job_record_throws,
}

abbrev processors : Processors
processors = ("mail", 1) ∷ ("report", 2) ∷ []

abbrev run : Ref → Job → Run
run zero job = resolved [] 0
run (suc zero) job = resolved (50 ∷ 100 ∷ []) 7
run _ job = rejected (10 ∷ []) "boom"

abbrev config : RetryConfig
config = record { max_attempts = some 2; backoff_delay = none; max_backoff_delay = none }

abbrev job_of : String → ℕ → Job
job_of name made = record { id = "1"; name = name; attempts_made = made }

abbrev ops : List Op
ops = add "mail" 1 ∷ add "mail" 5 ∷ add "report" 3 ∷ remove "report" ∷ add "report" 2 ∷ []

registry_test : perform_all ops [] ≡ processors
unfolding perform_all perform register unregister clear JsMap.get JsMap.has JsMap.set JsMap.delete
registry_test = refl

process_tests :
    ((process_job linear config quiet_span processors run (job_of "mail" 0)).1 ≡ returned 7)
    × ((process_job linear config quiet_span processors run (job_of "report" 0)).1 ≡ threw "boom")
    × (news (process_job linear config quiet_span processors run (job_of "report" 0)).0
        ≡ (job_started, none) ∷ (job_retrying, some "boom") ∷ [])
    × (news (process_job linear config quiet_span processors run (job_of "report" 2)).0
        ≡ (job_started, none) ∷ (job_failed, some "boom") ∷ [])
unfolding process_job settle fail handle_job_failure get_processor_or_throw get handle_failure
    JsMap.get
process_tests = (refl, refl, refl, refl)

get-perform_all_example : get "report" (perform_all ops []) ≡ some 2
unfolding get JsMap.get
get-perform_all_example = get-perform_all "report" ops []

process_job_lem_example :
    let steps = (process_job linear config quiet_span processors run (job_of "report" 2)).0 in
    ((process_job linear config quiet_span processors run (job_of "report" 2)).1 ≡ threw "boom")
    × (ends steps ≡ 1)
    × (exceptions steps ≡ "boom" ∷ [])
    × (news steps ≡ (job_started, none) ∷ (job_failed, some "boom") ∷ [])
    × (called steps ≡ 2 ∷ [])
unfolding get handle_failure JsMap.get
process_job_lem_example = process_job_lem linear config processors run (job_of "report" 2)

-- A span whose first end throws, and one that takes no errors.
abbrev ends_badly : Span
ends_badly = record {
  on_exception = none;
  on_end = λ n. if nat_beq n 0 then some "closed" else none;
}

abbrev takes_none : Span
takes_none = record { on_exception = some "closed"; on_end = λ n. none }

process_job_record_throws_example :
    let (steps, settled) =
      process_job linear config takes_none processors run (job_of "report" 0) in
    (settled ≡ threw "closed") × (ends steps ≡ 0) × (news steps ≡ (job_started, none) ∷ [])
unfolding get handle_failure JsMap.get
process_job_record_throws_example =
    process_job_record_throws linear config takes_none processors run (job_of "report" 0) 2 refl
      (10 ∷ []) "boom" "closed" refl refl
