-- ===== src/Processing.antt =====
-- src/core/services/processing: `JobProcessorRegistry` and `JobProcessingOrchestrator`.
-- A processor is a reference, and what it does with a job an argument: the progress that it reports,
-- and how its promise settles; so is what the methods of the span throw. Metrics and events reject no
-- call, nor does the start of the span: the collector, the coordinator and the telemetry service catch
-- what is thrown in them. What is logged is left out.
pub mod Registry
pub mod Lifecycle
mod Tests
use job_queue.Prelude.{
  ℕ, String, Bool, Option, none, some, List, [], ◌∷◌, ◌++◌, if◌then◌else◌, length, string_eq,
  Settled, returned, threw,
}
use job_queue.JsMap
use job_queue.JsMap.{JsMap, keys}
use job_queue.JobQueue.{
  Ref, QueueEvent, job_started, job_completed, job_failed, job_retrying, job_progress,
}
use job_queue.Retry.{RetryConfig, Job, Strategy, handle_failure}

-- The field `processors` of `JobProcessorRegistry`
abbrev pub Processors : Type 0
Processors = JsMap String Ref

-- `register`
unfoldable pub register : String → Ref → Processors → Processors × Settled (Unit {0})
register job_name processor r =
    if JsMap.has job_name r
    then (r, threw "queue/processor_exists")
    else (JsMap.set job_name processor r, returned tt)

-- `get`
unfoldable pub get : String → Processors → Option Ref
get job_name r = JsMap.get job_name r

-- `has`
unfoldable pub has : String → Processors → Bool
has job_name r = JsMap.has job_name r

-- `unregister`, with its result
unfoldable pub unregister : String → Processors → Processors × Bool
unregister job_name r = (JsMap.delete job_name r, JsMap.has job_name r)

-- `getRegisteredJobs`
unfoldable pub get_registered_jobs : Processors → List String
get_registered_jobs r = keys r

-- `getCount`
unfoldable pub get_count : Processors → ℕ
get_count r = length r

-- `clear`
unfoldable pub clear : Processors → Processors
clear r = []

-- What one call of a processor does.
pub data Run : Type 0 where
  resolved : List ℕ → Ref → Run
  rejected : List ℕ → String → Run

-- The calls that the orchestrator makes.
pub data Step : Type 0 where
  span_started : Step
  span_recorded : String → Step
  span_ended : Step
  announced : QueueEvent → Option String → Step
  recorded : String → Step
  processor_called : Ref → Step
  progress_updated : ℕ → Step

-- `onJobStarted`
abbrev pub on_job_started : List Step
on_job_started = announced job_started none ∷ recorded "jobqueue.job.started" ∷ []

-- `getProcessorOrThrow`
unfoldable pub get_processor_or_throw : Processors → Job → Settled Ref
unfolding get
get_processor_or_throw processors job = elim (get job.name processors) [
  | none ↦ threw "No processor registered"
  | some processor ↦ returned processor
]

-- what `createProgressReporter` makes of the progress reported
abbrev pub report_progress : List ℕ → List Step
report_progress [] = []
report_progress (p ∷ ps) = progress_updated p ∷ announced job_progress none ∷ report_progress ps

-- `onJobCompleted`
abbrev pub on_job_completed : List Step
on_job_completed = announced job_completed none ∷ recorded "jobqueue.job.completed" ∷ []

-- `handleJobFailure`, all that `onJobFailed` does besides logging
unfoldable pub handle_job_failure : Strategy → RetryConfig → Job → String → List Step
handle_job_failure strategy config job error =
    if handle_failure strategy job config
    then announced job_retrying (some error) ∷ recorded "jobqueue.job.retried" ∷ []
    else announced job_failed (some error) ∷ recorded "jobqueue.job.failed" ∷ []

-- What the span of the user's telemetry throws, if it does: at `recordException`, and at the first
-- and the next call of `end`
pub record Span : Type 0 where
  pub on_exception : Option String
  pub on_end : ℕ → Option String

abbrev pub quiet_span : Span
quiet_span = record { on_exception = none; on_end = λ n. none }

-- the `catch` of `processJob`, after some calls of `end`
unfoldable pub fail : Strategy → RetryConfig → Span → ℕ → Job → String → List Step × Settled Ref
unfolding handle_job_failure
fail strategy config span ended job error = elim (span.on_exception) [
  | some thrown ↦ (span_recorded error ∷ [], threw thrown)
  | none ↦ elim (span.on_end ended) [
    | some thrown ↦ (span_recorded error ∷ span_ended ∷ [], threw thrown)
    | none ↦ (
      span_recorded error ∷ span_ended ∷ handle_job_failure strategy config job error,
      threw error,
    )
  ]
]

abbrev pub on_job_ended : List Step
on_job_ended = on_job_completed ++ span_ended ∷ []

-- `executeProcessor` and what follows it in `processJob`
unfoldable pub settle : Strategy → RetryConfig → Span → Job → Run → List Step × Settled Ref
unfolding fail
settle strategy config span job (resolved progress result) = elim (span.on_end 0) [
  | none ↦ (report_progress progress ++ on_job_ended, returned result)
  | some thrown ↦
      let (steps, settled) = fail strategy config span 1 job thrown in
      (report_progress progress ++ (on_job_ended ++ steps), settled)
]
settle strategy config span job (rejected progress error) =
    let (steps, settled) = fail strategy config span 0 job error in
    (report_progress progress ++ steps, settled)

-- `processJob`
unfoldable pub process_job :
    Strategy → RetryConfig → Span → Processors → (Ref → Job → Run) → Job → List Step × Settled Ref
unfolding settle get_processor_or_throw
process_job strategy config span processors run job = elim (get_processor_or_throw processors job) [
  | threw error ↦
      let (steps, settled) = fail strategy config span 0 job error in
      (span_started ∷ on_job_started ++ steps, settled)
  | returned processor ↦
      let (steps, result) = settle strategy config span job (run processor job) in
      (span_started ∷ on_job_started ++ processor_called processor ∷ steps, result)
]
