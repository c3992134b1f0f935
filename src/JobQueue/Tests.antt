-- ===== src/JobQueue/Tests.antt =====
-- Runs of `JobQueue`, and the theorems at concrete queues.
use job_queue.Prelude.{
  suc, ◌≡◌, refl, String, true, false, none, some, List, [], ◌∷◌, get_or, string_eq,
}
use job_queue.JsMap
use job_queue.JsMap.{JsMap}
use job_queue.JobQueue.{
  Ref, absent, undefined, given, JobOptions, QueueConfig, original, dead_letter, BullJob, threw,
  dlq_add, emitted, job_started, job_progress, progress_updated, incremented, observed,
  handler_called, job_dlq,
}
use job_queue.JobQueue.Options.{empty, build_job_options, apply_jitter}
use job_queue.JobQueue.Options.Laws.{IsLayered, build_job_options-IsLayered}
use job_queue.JobQueue.Processing.{
  Run, rejected, broke_off, at_span, accepted, refused, process_job, process, no_processors,
}
use job_queue.JobQueue.Processing.Calls.{
  count, is_moved, is_dead_letter, is_retry, is_completion, is_failure, is_span_end,
}
use job_queue.JobQueue.Processing.Dispositions.{process_job_failure, process_job_refused}
use job_queue.JobQueue.Processing.Registration.{process_all, first_for, OneWorker, process_all_lem}
use job_queue.JobQueue.Dlq.{replay_dlq}
use job_queue.JobQueue.Dlq.Replay.{Entry, AddsFirst, replay_dlq_lem}
use job_queue.JobQueue.Dlq.Nesting.{depth, requeued, replay_nests}

queue : Unit {0}
unfolding process_job process replay_dlq build_job_options apply_jitter JsMap.get JsMap.has
    JsMap.set process_all
queue = tt

abbrev critical : QueueConfig
critical = record {
  name = "critical-queue";
  default_job_options = some (record empty { attempts = given 2; remove_on_complete = undefined });
  dlq = some (record { enabled = true; queue_name = none; has_handler = true });
  telemetry = false;
  metrics = true;
}

abbrev urgent : JobOptions
urgent = record empty { delay = given 250; attempts = undefined; jitter = given 100 }

jitter_tests :
    ((apply_jitter 40 (given 100) (build_job_options critical (some urgent))).delay ≡ given 290)
    × ((apply_jitter 40 (given 0) (build_job_options critical (some urgent))).delay ≡ given 250)
unfolding queue
jitter_tests = (refl, refl)

abbrev payment : BullJob
payment = record {
  id = some "7";
  name = "process-payment";
  payload = original 40;
  attempts_made = 2;
  attempts = given 2;
}

abbrev letter : BullJob
letter = record {
  id = some "1";
  name = "process-payment";
  payload = dead_letter (some "7") (original 40) "critical-queue" 2 (given 2) "unavailable";
  attempts_made = 0;
  attempts = absent;
}

abbrev processors : JsMap String Ref
processors = ("send-email", 11) ∷ ("process-payment", 12) ∷ []

abbrev fails : Ref → Run
fails processor = rejected (50 ∷ []) "unavailable"

last_attempt_test : process_job critical processors fails payment accepted ≡ (
  emitted job_started none
      ∷ incremented "jobqueue.job.started"
      ∷ progress_updated 50
      ∷ emitted job_progress none
      ∷ dlq_add "process-payment" letter.payload
      ∷ handler_called
      ∷ emitted job_dlq (some "unavailable")
      ∷ incremented "jobqueue.job.dlq"
      ∷ observed "jobqueue.job.duration_ms"
      ∷ [],
  threw "unavailable",
)
unfolding queue
last_attempt_test = refl

unknown_job_test :
    process_job critical [] fails payment accepted ≡ ([], threw "queue/processor_not_found")
unfolding queue
unknown_job_test = refl

build_job_options-IsLayered_example :
    IsLayered urgent
      (get_or critical.default_job_options empty)
      (build_job_options critical (some urgent))
build_job_options-IsLayered_example = build_job_options-IsLayered critical (some urgent)

process_job_failure_example :
    let (effects, settled) = process_job critical processors fails payment accepted in
    (count is_dead_letter effects ≡ 1)
    × (count is_retry effects ≡ 0)
    × (count is_completion effects ≡ 0)
    × (count is_moved effects ≡ 1)
    × ((message : String) × (settled ≡ threw message))
process_job_failure_example =
    process_job_failure critical processors fails payment 12 (unfold queue in refl) (50 ∷ [])
      "unavailable" accepted refl

abbrev traced : QueueConfig
traced = record critical { telemetry = true }

abbrev breaks_off : Ref → Run
breaks_off processor = broke_off (50 ∷ []) at_span "exporter down"

process_job_refused_example :
    let (effects, settled) = process_job traced processors fails payment (refused "READONLY") in
    (count is_span_end effects ≡ 0) × (count is_failure effects ≡ 0) × (settled ≡ threw "READONLY")
process_job_refused_example =
    process_job_refused traced processors fails payment 12 (unfold queue in refl) (50 ∷ [])
      "unavailable" "READONLY" refl refl refl

abbrev registrations : List (String × Ref)
registrations = ("send-email", 11) ∷ ("send-email", 19) ∷ ("process-payment", 12) ∷ []

process_all_lem_example :
    let q = process_all registrations no_processors in
    ((name : String) → JsMap.get name q.processors ≡ first_for name registrations) × OneWorker q
process_all_lem_example = process_all_lem registrations

abbrev dead_letters : List Entry
dead_letters = (letter, accepted, accepted) ∷ (payment, accepted, refused "gone") ∷ []

replay_dlq_lem_example :
    let (effects, settled) = replay_dlq (some dead_letters) critical in
    AddsFirst dead_letters effects × (settled ≡ threw "gone")
replay_dlq_lem_example = replay_dlq_lem critical dead_letters

replay_nests_example :
    (requeued (replay_dlq (some ((letter, accepted, accepted) ∷ [])) critical).0
      ≡ letter.payload ∷ [])
    × (depth letter.payload ≡ suc (depth payment.payload))
replay_nests_example =
    replay_nests critical processors fails payment letter 12 (50 ∷ []) "unavailable"
      (unfold queue in refl) refl refl refl (unfold queue in refl)
