-- ===== src/JobQueue/Processing/Dispositions.antt =====
-- What becomes of a job whose processor has run: the events, the dead letter, the span.
use job_queue.Prelude.{
  ℕ, ◌≡◌, false, Bool, ◌∙◌, refl, String, true, ◌&&◌, Option, some, List, arith, ap, get_or,
  string_eq, if◌then◌else◌,
}
use job_queue.JsMap
use job_queue.JsMap.{JsMap}
use job_queue.JobQueue.{Ref, QueueConfig, BullJob, threw}
use job_queue.JobQueue.Processing.{
  Run, rejected, Answer, accepted, refused, dlq_enabled, handle_job_failure, attempt, process_job,
}
use job_queue.JobQueue.Processing.Calls.{
  count, is_moved, is_dead_letter, is_retry, is_completion, is_failure, is_span_end, exhausted,
  count-attempt,
}

abbrev pub is_accepted : Answer → Bool
is_accepted accepted = true
is_accepted (refused message) = false

failure_disposition :
    (config : QueueConfig) (job : BullJob) (error : String) (answer : Answer)
    → let effects = (handle_job_failure config job error answer).0 in
      (count is_dead_letter effects ≡ (if dlq_enabled config && exhausted job then 1 else 0))
      × (count is_retry effects ≡ (if exhausted job then 0 else 1))
      × (count is_completion effects ≡ 0)
      × (count is_moved effects
          ≡ (if dlq_enabled config && exhausted job && is_accepted answer then 1 else 0))
unfolding handle_job_failure
failure_disposition config job error answer =
    (ground arith, ground arith, ground arith, ground arith)

attempt_disposition :
    (config : QueueConfig) (job : BullJob) (progress : List ℕ) (error : String) (answer : Answer)
    → let effects = (attempt config job (rejected progress error) answer).0 in
      (count is_dead_letter effects ≡ (if dlq_enabled config && exhausted job then 1 else 0))
      × (count is_retry effects ≡ (if exhausted job then 0 else 1))
      × (count is_completion effects ≡ 0)
      × (count is_moved effects
          ≡ (if dlq_enabled config && exhausted job && is_accepted answer then 1 else 0))
unfolding attempt
attempt_disposition config job progress error answer =
    let rest = (handle_job_failure config job error answer).0 in
    let (letters, retries, completions, moves) = failure_disposition config job error answer in
    (
      count-attempt is_dead_letter config progress rest (λ n. refl) refl ∙ ground (arith, letters),
      count-attempt is_retry config progress rest (λ n. refl) refl ∙ ground (arith, retries),
      count-attempt is_completion config progress rest (λ n. refl) refl
          ∙ ground (arith, completions),
      count-attempt is_moved config progress rest (λ n. refl) refl ∙ ground (arith, moves),
    )

refused_span :
    (config : QueueConfig) (job : BullJob) (error message : String)
    → dlq_enabled config ≡ true
    → exhausted job ≡ true
    → let (effects, thrown) = handle_job_failure config job error (refused message) in
      (count is_span_end effects ≡ 0) × (count is_failure effects ≡ 0) × (thrown ≡ some message)
unfolding handle_job_failure
refused_span config job error message on out = (ground arith, ground arith, ground arith)

attempt_refused :
    (config : QueueConfig) (job : BullJob) (progress : List ℕ) (error message : String)
    → dlq_enabled config ≡ true
    → exhausted job ≡ true
    → let (effects, settled) = attempt config job (rejected progress error) (refused message) in
      (count is_span_end effects ≡ 0) × (count is_failure effects ≡ 0) × (settled ≡ threw message)
unfolding attempt
attempt_refused config job progress error message on out =
    let rest = (handle_job_failure config job error (refused message)).0 in
    let (ends, failures, thrown) = refused_span config job error message on out in
    (
      count-attempt is_span_end config progress rest (λ n. refl) refl ∙ ground (arith, ends),
      count-attempt is_failure config progress rest (λ n. refl) refl ∙ ground (arith, failures),
      ap (λ (t : Option String). threw (get_or t error)) thrown,
    )

attempt-threw :
    (config : QueueConfig) (job : BullJob) (progress : List ℕ) (error : String) (answer : Answer)
    → (message : String) × ((attempt config job (rejected progress error) answer).1 ≡ threw message)
unfolding attempt
attempt-threw config job progress error answer =
    (get_or (handle_job_failure config job error answer).1 error, refl)

module _ (config : QueueConfig) (processors : JsMap String Ref) (run : Ref → Run) (job : BullJob)
    (processor : Ref) (found : JsMap.get job.name processors ≡ some processor) where
  pub process_job-found :
      (answer : Answer)
      → process_job config processors run job answer ≡ attempt config job (run processor) answer
  unfolding process_job
  process_job-found answer = rw (found, process_job)

  -- If the processor of a job rejects, `processJob` throws. It gives the job to the queue of dead
  -- letters, once, exactly if dead letters are enabled and the attempts are used up, and announces
  -- that exactly if that queue takes it; it announces a retry exactly if the attempts are not used up,
  -- so never both. It never reports completion.
  pub process_job_failure :
      (progress : List ℕ) (error : String) (answer : Answer)
      → run processor ≡ rejected progress error
      → let (effects, settled) = process_job config processors run job answer in
        (count is_dead_letter effects ≡ (if dlq_enabled config && exhausted job then 1 else 0))
        × (count is_retry effects ≡ (if exhausted job then 0 else 1))
        × (count is_completion effects ≡ 0)
        × (count is_moved effects
            ≡ (if dlq_enabled config && exhausted job && is_accepted answer then 1 else 0))
        × ((message : String) × (settled ≡ threw message))
  process_job_failure progress error answer runs =
      let (letters, retries, completions, moves) =
        attempt_disposition config job progress error answer in
      rw (process_job-found answer) (
        rw runs
          (letters, retries, completions, moves, attempt-threw config job progress error answer))

  -- If dead letters are enabled, the attempts are used up and the queue of dead letters refuses
  -- the job, then no span is ended, neither a failure nor a dead letter is reported, and
  -- `processJob` throws that queue's error in place of the processor's.
  pub process_job_refused :
      (progress : List ℕ) (error message : String)
      → run processor ≡ rejected progress error
      → dlq_enabled config ≡ true
      → exhausted job ≡ true
      → let (effects, settled) = process_job config processors run job (refused message) in
        (count is_span_end effects ≡ 0) × (count is_failure effects ≡ 0) × (settled ≡ threw message)
  process_job_refused progress error message runs on out =
      rw (process_job-found (refused message))
        (rw runs (attempt_refused config job progress error message on out))
