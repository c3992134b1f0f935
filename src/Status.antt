-- ===== src/Status.antt =====
-- The states of BullMQ and the statuses of the library: `BullMQStateMapper`
-- (src/infrastructure/adapters/bullmq/bullmq-state-mapper.ts), `mapStatusToStates`,
-- `getCountByStatus` and `getStatusCounts` (src/core/services/status/job-status-query-service.ts), and
-- the two functions of src/JobQueue.ts. How many jobs BullMQ has in a state is an argument.
mod Tests
pub mod Mapping
pub mod Lists
use job_queue.Prelude.{ℕ, ◌+◌, String, Bool, List, [], ◌∷◌, map, ◌==◌, string_eq, if◌then◌else◌}

-- `JobStatus`
pub data JobStatus : Type 0 where
  pending active completed failed delayed paused waiting dlq : JobStatus

-- `toJobStatus`
unfoldable pub to_job_status : String → JobStatus
to_job_status state =
    if state == "completed"
    then completed
    else if state == "failed"
    then failed
    else if state == "active"
    then active
    else if state == "waiting"
    then waiting
    else if state == "paused"
    then paused
    else if state == "delayed"
    then delayed
    else pending

-- `toBullMQStates`; a dead letter is not asked for
unfoldable pub to_bullmq_states : JobStatus → List String
to_bullmq_states completed = "completed" ∷ []
to_bullmq_states failed = "failed" ∷ []
to_bullmq_states active = "active" ∷ []
to_bullmq_states waiting = "waiting" ∷ []
to_bullmq_states paused = "paused" ∷ []
to_bullmq_states delayed = "delayed" ∷ []
to_bullmq_states pending = "waiting" ∷ []
to_bullmq_states dlq = "waiting" ∷ []

-- `getAllStates`
unfoldable pub get_all_states : List String
get_all_states =
    "waiting" ∷ "active" ∷ "completed" ∷ "failed" ∷ "delayed" ∷ "paused" ∷ "pending" ∷ []

-- `mapStatusToStates`
unfoldable pub map_status_to_states : JobStatus → List String
map_status_to_states dlq = []
map_status_to_states completed = "completed" ∷ []
map_status_to_states failed = "failed" ∷ []
map_status_to_states active = "active" ∷ []
map_status_to_states waiting = "waiting" ∷ []
map_status_to_states paused = "paused" ∷ []
map_status_to_states delayed = "delayed" ∷ []
map_status_to_states pending = "waiting" ∷ []

abbrev pub sum_of : (String → ℕ) → List String → ℕ
sum_of count [] = 0
sum_of count (state ∷ states) = count state + sum_of count states

-- `getCountByStatus`, with the counts by state and the count of dead letters
unfoldable pub get_count_by_status : (String → ℕ) → ℕ → JobStatus → ℕ
unfolding map_status_to_states
get_count_by_status count dead dlq = dead
get_count_by_status count dead status = sum_of count (map_status_to_states status)

-- `getStatusCounts`
unfoldable pub get_status_counts : (String → ℕ) → ℕ → List (JobStatus × ℕ)
unfolding get_count_by_status
get_status_counts count dead =
    map (λ status. (status, get_count_by_status count dead status))
      (pending ∷ active ∷ completed ∷ failed ∷ delayed ∷ waiting ∷ paused ∷ dlq ∷ [])

-- `getJobState` of `JobQueue`
unfoldable pub get_job_state : String → JobStatus
get_job_state state =
    if state == "completed"
    then completed
    else if state == "failed"
    then failed
    else if state == "active"
    then active
    else if state == "delayed"
    then delayed
    else if state == "paused"
    then paused
    else if state == "prioritized"
    then waiting
    else if state == "waiting-children"
    then waiting
    else if state == "waiting"
    then waiting
    else if state == "wait"
    then waiting
    else pending

-- `getBullmqStatusesForJobStatus` of `JobQueue`, which is not called for dead letters
unfoldable pub get_bullmq_statuses_for_job_status : JobStatus → List String
get_bullmq_statuses_for_job_status active = "active" ∷ []
get_bullmq_statuses_for_job_status completed = "completed" ∷ []
get_bullmq_statuses_for_job_status failed = "failed" ∷ []
get_bullmq_statuses_for_job_status delayed = "delayed" ∷ []
get_bullmq_statuses_for_job_status paused = "paused" ∷ []
get_bullmq_statuses_for_job_status pending = "waiting" ∷ "wait" ∷ "prioritized" ∷ []
get_bullmq_statuses_for_job_status waiting = "waiting" ∷ "wait" ∷ "prioritized" ∷ []
get_bullmq_statuses_for_job_status dlq = []
