-- ===== src/GlobalQueue/Jobs.antt =====
-- `addJob`, replication, the statistics and `close`: what the manager asks of its queues, in order.
use job_queue.Prelude.{
  ℕ, String, Bool, true, false, not, Option, none, some, List, [], ◌∷◌, ◌++◌, map, get_or,
  if◌then◌else◌, string_eq, Settled, returned, threw,
}
use job_queue.JsMap
use job_queue.JsMap.{JsMap, values}
use job_queue.JobQueue.{Ref}
use job_queue.GlobalQueue.{
  RegionConfig, Mode, sync, async, ReplicationConfig, Manager, get_queue, is_region_healthy,
  is_primary_region,
}

-- What a queue holds under an id: the name of a job, and its payload, a reference
pub record Job : Type 0 where
  pub name : String
  pub payload : Ref

-- `queue.add(name, data, { jobId })`, the id missing for a new job, and `setTimeout`
pub data Call : Type 0 where
  added : Ref → Job → Option String → Call
  waited : ℕ → Call

-- How the queues answer: `add` with the id of the new job, `getJob`, the four counts; and `ping`.
pub record World : Type 0 where
  pub add : Ref → Settled String
  pub get_job : Ref → String → Settled (Option Job)
  pub counts : Ref → Settled (ℕ × ℕ × ℕ × ℕ)
  pub ping : Ref → Bool

abbrev pub replication_of : Manager → Option ReplicationConfig
replication_of m = elim (m.config) [ none ↦ none | some config ↦ config.replication ]

-- `getPrimaryJob`; `none` is also what a missing queue gives
unfoldable pub get_primary_job : World → Manager → String → Settled (Option Job)
unfolding get_queue
get_primary_job world m job_id = elim (get_queue (get_or m.primary_region "") m) [
  | none ↦ returned none
  | some queue ↦ world.get_job queue job_id
]

abbrev pub is_sync : Mode → Bool
is_sync sync = true
is_sync async = false

-- `replicateJobToRegion`; the Boolean says that it throws
unfoldable pub replicate_job_to_region :
    World → Manager → ReplicationConfig → String → Job → String → List Call × Bool
replicate_job_to_region world m replication job_id job region = elim (JsMap.get region m.queues) [
  | none ↦ ([], false)
  | some queue ↦ elim (world.add queue) [
    | returned _ ↦ (
      added queue job (some job_id)
          ∷ (if is_sync (get_or replication.mode async)
              then waited (get_or replication.sync_timeout_ms 5000) ∷ []
              else []),
      false,
    )
    | threw error ↦ (added queue job (some job_id) ∷ [], is_sync (get_or replication.mode async))
  ]
]

-- the loop of `replicateJob`, over the regions other than the primary one
unfoldable pub replicate_to :
    World → Manager → ReplicationConfig → String → Job → List String → List Call
unfolding replicate_job_to_region
replicate_to world m replication job_id job [] = []
replicate_to world m replication job_id job (region ∷ regions) =
    let rest = replicate_to world m replication job_id job regions in
    if is_primary_region region m
    then rest
    else (let (calls, failed) = replicate_job_to_region world m replication job_id job region in
        if failed then calls else calls ++ rest)

-- `replicateJob`, which catches every error
unfoldable pub replicate_job : World → Manager → String → List String → List Call
unfolding get_primary_job replicate_to
replicate_job world m job_id targets = elim (replication_of m) [
  | none ↦ []
  | some replication ↦
      if not replication.enabled then [] else (elim (get_primary_job world m job_id) [
        | threw error ↦ []
        | returned found ↦ elim found [
          | none ↦ []
          | some job ↦ replicate_to world m replication job_id job targets
        ]
      ])
]

-- `this.config.regions?.map((r) => r.region)`
abbrev pub region_names : Manager → List String
region_names m = elim (m.config) [ none ↦ [] | some config ↦ map (λ r. r.region) config.regions ]

-- `addJob`
unfoldable pub add_job : World → Manager → Job → List Call × Settled String
unfolding get_queue replicate_job
add_job world m job = elim (get_queue (get_or m.primary_region "") m) [
  | none ↦ ([], threw "global-queue/no_primary_region")
  | some queue ↦ elim (world.add queue) [
    | threw error ↦ (added queue job none ∷ [], threw error)
    | returned id ↦ (added queue job none ∷ replicate_job world m id (region_names m), returned id)
  ]
]

-- `RegionalStats`, without the fields that are constant
pub record RegionalStats : Type 0 where
  pub region : String
  pub is_healthy : Bool
  pub counts : ℕ × ℕ × ℕ × ℕ

-- the loop of `getGlobalStats`, until a count throws
unfoldable pub stats_of :
    World → Manager → List RegionConfig → List RegionalStats → Settled (List RegionalStats)
stats_of world m [] stats = returned stats
stats_of world m (r ∷ regions) stats = elim (JsMap.get r.region m.queues) [
  | none ↦ stats_of world m regions stats
  | some queue ↦ elim (world.counts queue) [
    | threw error ↦ threw error
    | returned counts ↦ stats_of world m regions (
        stats
        ++ (record {
          region = r.region;
          is_healthy = is_region_healthy world.ping r.region m;
          counts = counts;
        }
            ∷ []))
  ]
]

-- `getGlobalStats`
unfoldable pub get_global_stats : World → Manager → List RegionalStats
unfolding stats_of
get_global_stats world m = elim (m.config) [
  | none ↦ []
  | some config ↦ elim (stats_of world m config.regions []) [
    | returned stats ↦ stats
    | threw error ↦ []
  ]
]

pub data ReplicationStatus : Type 0 where
  is_pending is_replicated : ReplicationStatus

-- the loop of `getReplicationStatus`, until a queue throws
unfoldable pub status_of :
    World
    → Manager
    → String
    → List RegionConfig
    → JsMap String ReplicationStatus
    → Settled (JsMap String ReplicationStatus)
status_of world m job_id [] status = returned status
status_of world m job_id (r ∷ regions) status = elim (JsMap.get r.region m.queues) [
  | none ↦ status_of world m job_id regions status
  | some queue ↦ elim (world.get_job queue job_id) [
    | threw error ↦ threw error
    | returned found ↦
        status_of world m job_id regions
          (JsMap.set r.region (elim found [ none ↦ is_pending | some job ↦ is_replicated ]) status)
  ]
]

-- `getReplicationStatus`
unfoldable pub get_replication_status : World → Manager → String → JsMap String ReplicationStatus
unfolding status_of
get_replication_status world m job_id = elim (m.config) [
  | none ↦ []
  | some config ↦ elim (status_of world m job_id config.regions []) [
    | returned status ↦ status
    | threw error ↦ []
  ]
]

-- What `close` does, as long as nothing throws: it stops the health checks, and closes the queues
-- and the connections. No field changes.
pub data Closing : Type 0 where
  cleared : ℕ → Closing
  closed : Ref → Closing
  quit : Ref → Closing

unfoldable pub close : Manager → Manager × List Closing
close m = (
  m,
  map cleared (values m.health_check_intervals)
      ++ (map closed (values m.queues) ++ map quit (values m.redis_clients)),
)
