-- ===== src/Dlq.antt =====
-- src/core/services/dlq/dlq-manager.ts. The queue client, the metrics, the events and the
-- notification handler are methods of the outside, which may fail; the manager has no state.
pub mod Replay
mod Tests
use job_queue.Prelude.{
  ℕ, zero, suc, ◌+◌, String, Bool, true, false, Option, none, some, List, [], ◌∷◌, get_or,
  if◌then◌else◌, Settled, returned, threw, Action, bind_settled, ◌>>=◌, ◌>>◌, return, settle,
  caught, or_return,
}
use job_queue.JobQueue.{Ref}

-- `IJob`, and `DLQJobInfo`, which has the same fields; the data is a reference
pub record Job : Type 0 where
  pub id : Option String
  pub name : String
  pub payload : Ref
  pub attempts : ℕ
  pub created_at : ℕ

-- What the manager is made with. `get_failed` is `getJobsByState('failed', 0, end)`, with no `end`
-- for -1, which asks for all; `clean` is `clean(0, limit, 'failed')`.
pub record Outside (S : Type 0) : Type 0 where
  pub enabled : Option Bool
  pub get_failed : Option ℕ → Action S (List Job)
  pub count_failed : Action S ℕ
  pub get_job : String → Action S (Option Job)
  pub add_job : String → Ref → Option Ref → Action S String
  pub clean : ℕ → Action S (Unit {0})
  pub record_job_dlq : Job → Action S (Unit {0})
  pub emit_job_dlq : Job → String → Action S (Unit {0})
  pub notification_handler : Option (Job → Action S (Unit {0}))

-- `limit - 1`
abbrev pub end_of : ℕ → Option ℕ
end_of zero = none
end_of (suc n) = some n

module _ {S : Type 0} (o : Outside S) where
  -- `isEnabled`
  abbrev pub is_enabled : Bool
  is_enabled = get_or o.enabled false

  -- the notification, whose errors are caught
  abbrev pub notify : Option (Job → Action S (Unit {0})) → Job → Action S (Unit {0})
  notify none job = return tt
  notify (some handler) job = or_return tt (handler job)

  -- `moveJobToDLQ`
  unfoldable pub move_job_to_dlq : Job → String → Action S (Unit {0})
  move_job_to_dlq job error =
      if is_enabled
      then or_return tt
          (do o.record_job_dlq job; o.emit_job_dlq job error; notify o.notification_handler job)
      else return tt

  -- `getDLQJobs`
  unfoldable pub get_dlq_jobs : ℕ → Action S (List Job)
  get_dlq_jobs limit = if is_enabled then or_return [] (o.get_failed (end_of limit)) else return []

  -- `getDLQCount`
  unfoldable pub get_dlq_count : Action S ℕ
  get_dlq_count = if is_enabled then or_return 0 o.count_failed else return 0

  -- `replayJob` once the job is looked up
  abbrev pub replay_found : Option Ref → Option Job → Action S Bool
  replay_found options none = return false
  replay_found options (some job) = do
    new_job_id ← o.add_job job.name job.payload options
    o.clean 1
    return true

  -- `replayJob`
  unfoldable pub replay_job : String → Option Ref → Action S Bool
  replay_job job_id options =
      if is_enabled
      then or_return false (do job ← o.get_job job_id; replay_found options job)
      else return false

  -- the loop of `replayDLQ`, with what it has counted
  unfoldable pub replay_each : List Job → ℕ → Action S ℕ
  unfolding replay_job
  replay_each [] replayed = return replayed
  replay_each (job ∷ jobs) replayed = do
    is_success ← replay_job (get_or job.id "") none
    replay_each jobs (if is_success then replayed + 1 else replayed)

  -- `replayDLQ`
  unfoldable pub replay_dlq : ℕ → Action S ℕ
  unfolding get_dlq_jobs replay_each
  replay_dlq limit =
      if is_enabled
      then or_return 0 (do dlq_jobs ← get_dlq_jobs limit; replay_each dlq_jobs 0)
      else return 0

  -- `clearDLQ`
  unfoldable pub clear_dlq : Action S ℕ
  unfolding get_dlq_count
  clear_dlq =
      if is_enabled
      then or_return 0 (do count ← get_dlq_count; o.clean count; return count)
      else return 0
