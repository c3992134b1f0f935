-- ===== src/JobQueue/Dlq/Nesting.antt =====
-- The data of a job that went to the queue of dead letters and was replayed.
use job_queue.Prelude.{
  ℕ, suc, ◌≡◌, refl, ap, sym, ◌∙◌, String, true, some, List, [], ◌∷◌, ◌++◌, arith, string_eq,
}
use job_queue.JsMap
use job_queue.JsMap.{JsMap}
use job_queue.JobQueue.{
  Ref, Payload, original, dead_letter, QueueConfig, BullJob, Effect, queue_add, dlq_add, Settled,
}
use job_queue.JobQueue.Processing.{
  Run, rejected, accepted, dlq_enabled, envelope, start, report_progress, handle_job_failure,
  attempt, process_job,
}
use job_queue.JobQueue.Processing.Calls.{exhausted}
use job_queue.JobQueue.Processing.Dispositions.{process_job-found}
use job_queue.JobQueue.Dlq.{replay_dlq}

-- How many objects of `moveJobToDLQ` are wrapped round the data that a client gave.
abbrev pub depth : Payload → ℕ
depth (original data_ref) = 0
depth (dead_letter _ payload _ _ _ _) = suc (depth payload)

-- The data of the dead letters, and of the jobs, that some calls add.
abbrev pub letters : List Effect → List Payload
letters [] = []
letters (dlq_add _ payload ∷ effects) = payload ∷ letters effects
letters (_ ∷ effects) = letters effects

abbrev pub requeued : List Effect → List Payload
requeued [] = []
requeued (queue_add _ payload _ ∷ effects) = payload ∷ requeued effects
requeued (_ ∷ effects) = requeued effects

letters-append : (xs ys : List Effect) → letters (xs ++ ys) ≡ letters xs ++ letters ys
letters-append [] ys = refl
letters-append (dlq_add _ payload ∷ xs) ys =
    ap (λ (l : List Payload). payload ∷ l) (letters-append xs ys)
letters-append (queue_add _ _ _ ∷ xs) ys = letters-append xs ys
letters-append (_ ∷ xs) ys = letters-append xs ys

letters-report_progress : (ps : List ℕ) → letters (report_progress ps) ≡ []
letters-report_progress [] = refl
letters-report_progress (p ∷ ps) = letters-report_progress ps

letters-start : (config : QueueConfig) → letters (start config) ≡ []
letters-start config = ground arith

letters-handle_job_failure :
    (config : QueueConfig) (job : BullJob) (error : String)
    → dlq_enabled config ≡ true
    → exhausted job ≡ true
    → letters (handle_job_failure config job error accepted).0 ≡ envelope config job error ∷ []
unfolding handle_job_failure
letters-handle_job_failure config job error on out = ground arith

head_eq : {x y : Payload} → (x ∷ []) ≡ (y ∷ []) → x ≡ y
head_eq e = cc

letters-attempt :
    (config : QueueConfig) (job : BullJob) (progress : List ℕ) (error : String)
    → dlq_enabled config ≡ true
    → exhausted job ≡ true
    → letters (attempt config job (rejected progress error) accepted).0
      ≡ envelope config job error ∷ []
unfolding attempt
letters-attempt config job progress error on out =
    let rest = (handle_job_failure config job error accepted).0 in
    letters-append (start config) (report_progress progress ++ rest)
    ∙ ap (λ (l : List Payload). l ++ letters (report_progress progress ++ rest))
        (letters-start config)
    ∙ letters-append (report_progress progress) rest
    ∙ ap (λ (l : List Payload). l ++ letters rest) (letters-report_progress progress)
    ∙ letters-handle_job_failure config job error on out

requeued-replay_dlq :
    (config : QueueConfig) (letter : BullJob)
    → requeued (replay_dlq (some ((letter, accepted, accepted) ∷ [])) config).0
      ≡ letter.payload ∷ []
unfolding replay_dlq
requeued-replay_dlq config letter = refl

-- A job that has used up its attempts, failed and gone to the queue of dead letters comes back
-- from a replay with other data: the object with the job's data in it that `moveJobToDLQ` built,
-- one layer deeper than the data that its processor was given.
pub replay_nests :
    (config : QueueConfig) (processors : JsMap String Ref) (run : Ref → Run) (job letter : BullJob)
    (processor : Ref) (progress : List ℕ) (error : String)
    → JsMap.get job.name processors ≡ some processor
    → run processor ≡ rejected progress error
    → dlq_enabled config ≡ true
    → exhausted job ≡ true
    → letters (process_job config processors run job accepted).0 ≡ letter.payload ∷ []
    → (requeued (replay_dlq (some ((letter, accepted, accepted) ∷ [])) config).0
        ≡ letter.payload ∷ [])
      × (depth letter.payload ≡ suc (depth job.payload))
replay_nests config processors run job letter processor progress error found runs on out dead =
    let made : letters (process_job config processors run job accepted).0
        ≡ envelope config job error ∷ [] =
      ap (λ (e : List Effect × Settled Ref). letters e.0)
        (process_job-found config processors run job processor found accepted)
      ∙ ap (λ (r : Run). letters (attempt config job r accepted).0) runs
      ∙ letters-attempt config job progress error on out in
    (requeued-replay_dlq config letter, ap depth (head_eq (sym dead ∙ made)))
