-- ===== src/Status/Mapping.antt =====
-- What becomes of a status that is asked for.
use job_queue.Prelude.{◌≡◌, refl, string_eq, All}
use job_queue.Status.{
  JobStatus, pending, active, completed, failed, delayed, paused, waiting, dlq, to_job_status,
  map_status_to_states, get_job_state, get_bullmq_statuses_for_job_status,
}

-- The status that a job found under a status has: what was asked for, but waiting for pending.
abbrev pub found_as : JobStatus → JobStatus
found_as pending = waiting
found_as status = status

-- A job in a state in which the query service looks for the jobs of a status is given that status by
-- the mapper, and so it is between the two functions of `JobQueue`, except that a job looked for as
-- pending is given the status waiting.
pub round_trip :
    (status : JobStatus)
    → All (λ state. to_job_status state ≡ found_as status) (map_status_to_states status)
      × All
          (λ state. get_job_state state ≡ found_as status)
          (get_bullmq_statuses_for_job_status status)
unfolding to_job_status get_job_state map_status_to_states get_bullmq_statuses_for_job_status
round_trip pending = ((refl, tt), (refl, (refl, (refl, tt))))
round_trip active = ((refl, tt), (refl, tt))
round_trip completed = ((refl, tt), (refl, tt))
round_trip failed = ((refl, tt), (refl, tt))
round_trip delayed = ((refl, tt), (refl, tt))
round_trip paused = ((refl, tt), (refl, tt))
round_trip waiting = ((refl, tt), (refl, (refl, (refl, tt))))
round_trip dlq = (tt, tt)
