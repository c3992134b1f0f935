-- ===== src/JobQueue/Processing.antt =====
-- src/JobQueue.ts: `process`, `processJob`, `handleJobFailure`, `moveJobToDLQ`.
-- The user's processor is an argument: the progress that it reports, and how its promise settles, and
-- so is what a listener, the metrics or the telemetry throw once it has resolved. What they throw
-- before the `try`, or in `handleJobFailure`, is left out: it rejects the job in place of the rest.
pub mod Calls
pub mod Dispositions
pub mod Registration
use job_queue.Prelude.{
  ℕ, String, Bool, true, false, Option, none, some, List, [], ◌∷◌, ◌++◌, leb, ltb, nat_beq, get_or,
  if◌then◌else◌, string_eq,
}
use job_queue.JsMap
use job_queue.JsMap.{JsMap}
use job_queue.JobQueue.{
  Ref, job_started, job_completed, job_failed, job_retrying, job_progress, job_dlq, QueueConfig,
  DlqConfig, Payload, dead_letter, BullJob, Effect, dlq_add, emitted, incremented, observed,
  progress_updated, span_started, span_failed, span_ended, handler_called, Settled, returned, threw,
}
use job_queue.JobQueue.Options.{or_default}

-- The fields `processors` and `workers`
pub record Processors : Type 0 where
  pub processors : JsMap String Ref
  pub workers : ℕ

abbrev pub no_processors : Processors
no_processors = record { processors = []; workers = 0 }

-- `process`; the first processor starts the one worker
unfoldable pub process : String → Ref → Processors → Processors × Settled (Unit {0})
process job_name processor q =
    if JsMap.has job_name q.processors then (q, threw "queue/processor_exists") else (
      record {
        processors = JsMap.set job_name processor q.processors;
        workers = if nat_beq q.workers 0 then 1 else q.workers;
      },
      returned tt,
    )

-- The calls that `processJob` makes once the processor has resolved, one of which may throw: the
-- event, the count, the duration, the end of the span
pub data Late : Type 0 where
  at_event at_count at_duration at_span : Late

-- What happens in the `try` of `processJob`: the processor resolves or rejects, or it resolves and
-- then a call throws
pub data Run : Type 0 where
  resolved : List ℕ → Ref → Run
  rejected : List ℕ → String → Run
  broke_off : List ℕ → Late → String → Run

-- How `dlqQueue.add` settles
pub data Answer : Type 0 where
  accepted : Answer
  refused : String → Answer

abbrev pub when : Bool → List Effect → List Effect
when b effects = if b then effects else []

-- `this.config.dlq?.enabled === true`
abbrev pub dlq_enabled : QueueConfig → Bool
dlq_enabled config = elim (config.dlq) [ none ↦ false | some dlq ↦ dlq.enabled ]

-- `this.config.dlq?.notificationHandler`
abbrev pub has_handler : QueueConfig → Bool
has_handler config = elim (config.dlq) [ none ↦ false | some dlq ↦ dlq.has_handler ]

abbrev pub envelope : QueueConfig → BullJob → String → Payload
envelope config job error =
    dead_letter job.id job.payload config.name job.attempts_made job.attempts error

-- `moveJobToDLQ`, with the error that it throws. The constructor makes the queue of dead letters
-- just where it is enabled. The errors of the handler are caught.
unfoldable pub move_job_to_dlq :
    QueueConfig → BullJob → String → Answer → List Effect × Option String
move_job_to_dlq config job error answer =
    if dlq_enabled config
    then (elim answer [
      | accepted ↦ (
        dlq_add job.name (envelope config job error)
            ∷ when (has_handler config) (handler_called ∷ []),
        none,
      )
      | refused message ↦ (dlq_add job.name (envelope config job error) ∷ [], some message)
    ])
    else ([], none)

-- the end of `handleJobFailure`
abbrev pub finish : QueueConfig → List Effect
finish config =
    when config.telemetry (span_failed ∷ span_ended ∷ [])
    ++ when config.metrics (observed "jobqueue.job.duration_ms" ∷ [])

abbrev pub announce_retry : QueueConfig → List Effect
announce_retry config =
    emitted job_retrying none ∷ when config.metrics (incremented "jobqueue.job.retrying" ∷ [])

-- what `handleJobFailure` does once `moveJobToDLQ` has returned or thrown
abbrev pub after_move :
    QueueConfig → String → List Effect × Option String → List Effect × Option String
after_move config error (moved, none) = (
  moved
      ++ emitted job_dlq (some error) ∷ when config.metrics (incremented "jobqueue.job.dlq" ∷ [])
      ++ finish config,
  none,
)
after_move config error (moved, some thrown) = (moved, some thrown)

-- `handleJobFailure`, with the error that it throws
unfoldable pub handle_job_failure :
    QueueConfig → BullJob → String → Answer → List Effect × Option String
unfolding move_job_to_dlq
handle_job_failure config job error answer =
    let max_attempts = or_default job.attempts 3 in
    if dlq_enabled config
    then (if leb max_attempts job.attempts_made
        then after_move config error (move_job_to_dlq config job error answer)
        else (emitted job_failed (some error) ∷ announce_retry config ++ finish config, none))
    else (
      emitted job_failed (some error)
            ∷ (if ltb job.attempts_made max_attempts then announce_retry config else [])
          ++ finish config,
      none,
    )

abbrev pub report_progress : List ℕ → List Effect
report_progress [] = []
report_progress (p ∷ ps) = progress_updated p ∷ emitted job_progress none ∷ report_progress ps

abbrev pub start : QueueConfig → List Effect
start config =
    emitted job_started none ∷ when config.metrics (incremented "jobqueue.job.started" ∷ [])
    ++ when config.telemetry (span_started ∷ [])

abbrev pub complete : QueueConfig → List Effect
complete config =
    emitted job_completed none
      ∷ when config.metrics
          (incremented "jobqueue.job.completed" ∷ observed "jobqueue.job.duration_ms" ∷ [])
    ++ when config.telemetry (span_ended ∷ [])

-- the calls up to the one that throws
abbrev pub complete_until : QueueConfig → Late → List Effect
complete_until config at_event = emitted job_completed none ∷ []
complete_until config at_count =
    emitted job_completed none ∷ incremented "jobqueue.job.completed" ∷ []
complete_until config at_duration =
    emitted job_completed none
    ∷ incremented "jobqueue.job.completed"
    ∷ observed "jobqueue.job.duration_ms"
    ∷ []
complete_until config at_span = complete config

-- `processJob` once it has found the processor
unfoldable pub attempt : QueueConfig → BullJob → Run → Answer → List Effect × Settled Ref
unfolding handle_job_failure
attempt config job (resolved progress result) answer =
    (start config ++ (report_progress progress ++ complete config), returned result)
attempt config job (rejected progress error) answer =
    let (effects, thrown) = handle_job_failure config job error answer in
    (start config ++ (report_progress progress ++ effects), threw (get_or thrown error))
attempt config job (broke_off progress late error) answer =
    let (effects, thrown) = handle_job_failure config job error answer in
    (
      start config ++ (report_progress progress ++ (complete_until config late ++ effects)),
      threw (get_or thrown error),
    )

-- `processJob`; `run` says what each processor does on this job
unfoldable pub process_job :
    QueueConfig → JsMap String Ref → (Ref → Run) → BullJob → Answer → List Effect × Settled Ref
unfolding attempt
process_job config processors run job answer = elim (JsMap.get job.name processors) [
  | none ↦ ([], threw "queue/processor_not_found")
  | some processor ↦ attempt config job (run processor) answer
]
