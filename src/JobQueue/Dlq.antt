-- ===== src/JobQueue/Dlq.antt =====
-- src/JobQueue.ts: `replayDLQ`.
-- The jobs that `dlqQueue.getJobs(['waiting'], 0, limit - 1)` returns are an argument, each with the
-- answers that `queue.add` and `job.remove` would give for it.
pub mod Replay
pub mod Nesting
use job_queue.Prelude.{ℕ, ◌+◌, String, Option, none, some, List, [], ◌∷◌, get_or}
use job_queue.JobQueue.{
  Field, undefined, given, JobsOptions, QueueConfig, BullJob, Effect, queue_add, dlq_remove,
  Settled, returned, threw,
}
use job_queue.JobQueue.Options.{empty, build_default_job_options}
use job_queue.JobQueue.Processing.{Answer, accepted, refused}

-- `jobId: job.id`
abbrev pub id_field : Option String → Field String
id_field none = undefined
id_field (some id) = given id

unfoldable pub replay_options : QueueConfig → BullJob → JobsOptions
replay_options config job = record {
  options = build_default_job_options (get_or config.default_job_options empty);
  job_id = id_field job.id;
}

-- the loop of `replayDLQ`
unfoldable pub replay_from :
    QueueConfig → ℕ → List (BullJob × Answer × Answer) → List Effect × Settled ℕ
replay_from config moved [] = ([], returned moved)
replay_from config moved ((job, refused message, removal) ∷ jobs) =
    (queue_add job.name job.payload (replay_options config job) ∷ [], threw message)
replay_from config moved ((job, accepted, refused message) ∷ jobs) = (
  queue_add job.name job.payload (replay_options config job) ∷ dlq_remove job.id ∷ [],
  threw message,
)
replay_from config moved ((job, accepted, accepted) ∷ jobs) =
    let (effects, settled) = replay_from config (moved + 1) jobs in
    (
      queue_add job.name job.payload (replay_options config job) ∷ dlq_remove job.id ∷ effects,
      settled,
    )

-- `replayDLQ`; without a queue of dead letters it returns 0
unfoldable pub replay_dlq :
    Option (List (BullJob × Answer × Answer)) → QueueConfig → List Effect × Settled ℕ
unfolding replay_from
replay_dlq none config = ([], returned 0)
replay_dlq (some jobs) config = replay_from config 0 jobs
