-- ===== src/GlobalQueue/Replication.antt =====
-- Which regions get a copy of a job.
use job_queue.Prelude.{
  ◌≡◌, ◌∙◌, refl, ap, String, true, false, none, some, List, [], ◌∷◌, ◌++◌, map, arith, get_or,
  if◌then◌else◌, string_eq, Option-cases, Bool-cases, inl, inr, returned,
}
use job_queue.JsMap
use job_queue.JobQueue.{Ref}
use job_queue.GlobalQueue.{
  GlobalQueueConfig, async, ReplicationConfig, Manager, get_queue, get_primary_region,
  is_primary_region,
}
use job_queue.GlobalQueue.Jobs.{
  Job, Call, added, World, get_primary_job, is_sync, replicate_job_to_region, replicate_to,
  replicate_job, add_job,
}

-- The queues of the regions other than the primary one, as far as they have one.
abbrev pub other_queues : Manager → List String → List Ref
other_queues m [] = []
other_queues m (region ∷ regions) =
    let rest = other_queues m regions in
    if is_primary_region region m
    then rest
    else (elim (JsMap.get region m.queues) [ none ↦ rest | some queue ↦ queue ∷ rest ])

module _ (world : World) (m : Manager) (replication : ReplicationConfig) (id : String)
    (job : Job) where
  region_async :
      (region : String) (queue : Ref)
      → get_or replication.mode async ≡ async
      → JsMap.get region m.queues ≡ some queue
      → replicate_job_to_region world m replication id job region
        ≡ (added queue job (some id) ∷ [], false)
  unfolding replicate_job_to_region
  region_async region queue h found = ground (arith, found, ap is_sync h)

  replicate_to-skip :
      (region : String) (regions : List String)
      → is_primary_region region m ≡ true
      → replicate_to world m replication id job (region ∷ regions)
        ≡ replicate_to world m replication id job regions
  unfolding replicate_to
  replicate_to-skip region regions h = rw (h, replicate_to) refl

  replicate_to-next :
      (region : String) (regions : List String) (calls : List Call)
      → is_primary_region region m ≡ false
      → replicate_job_to_region world m replication id job region ≡ (calls, false)
      → replicate_to world m replication id job (region ∷ regions)
        ≡ calls ++ replicate_to world m replication id job regions
  unfolding replicate_to
  replicate_to-next region regions calls h e = rw (h, e, replicate_to) refl

  replicate_to_async :
      (regions : List String)
      → get_or replication.mode async ≡ async
      → replicate_to world m replication id job regions
        ≡ map (λ queue. added queue job (some id)) (other_queues m regions)
  unfolding replicate_to
  replicate_to_async [] h = refl
  replicate_to_async (region ∷ regions) h = elim (Bool-cases (is_primary_region region m)) [
    | inl same ↦ replicate_to-skip region regions same ∙ rw (same) (replicate_to_async regions h)
    | inr other ↦ elim (Option-cases (JsMap.get region m.queues)) [
      | inl absent ↦
          replicate_to-next region regions [] other (rw (absent, replicate_job_to_region) refl)
          ∙ rw (other, absent) (replicate_to_async regions h)
      | inr (queue, found) ↦
          replicate_to-next region regions _ other (region_async region queue h found)
          ∙ rw (other, found)
              (ap (λ cs. added queue job (some id) ∷ cs) (replicate_to_async regions h))
    ]
  ]

-- If the primary region has a queue, which accepts a job and then finds it, and replication is
-- enabled in its asynchronous mode, `addJob` asks the queue of every other configured region for a
-- copy under the job's own id, in the order of the configuration and whatever these queues answer.
pub add_job_async :
    (world : World) (m : Manager) (config : GlobalQueueConfig) (replication : ReplicationConfig)
    (job : Job) (queue : Ref) (id : String)
    → m.config ≡ some config
    → config.replication ≡ some replication
    → replication.enabled ≡ true
    → get_or replication.mode async ≡ async
    → get_queue (get_primary_region m) m ≡ some queue
    → world.add queue ≡ returned id
    → world.get_job queue id ≡ returned (some job)
    → add_job world m job ≡ (
      added queue job none
          ∷ map (λ q. added q job (some id)) (other_queues m (map (λ r. r.region) config.regions)),
      returned id,
    )
unfolding get_queue get_primary_region add_job replicate_job get_primary_job
add_job_async world m config replication job queue id c r e a found accepted kept = ground (
  arith,
  c,
  r,
  e,
  found,
  accepted,
  kept,
  replicate_to_async world m replication id job (map (λ r. r.region) config.regions) a,
)
