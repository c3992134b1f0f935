-- ===== src/Status/Tests.antt =====
-- The counts of a queue with three waiting jobs and one that failed.
use job_queue.Prelude.{
  ℕ, ◌≡◌, refl, String, List, [], ◌∷◌, ◌++◌, returned, arith, ◌==◌, string_eq, if◌then◌else◌,
}
use job_queue.JobQueue.{Ref}
use job_queue.Status.Lists.{
  Client, collect, collect_all, get_jobs_by_status, get_all_jobs, get_all_jobs_lem,
}
use job_queue.Status.{map_status_to_states}

abbrev count : String → ℕ
count state = if state == "waiting" then 3 else if state == "failed" then 1 else 0

-- One job waits and one is paused.
abbrev held : String → List Ref
held state = if state == "waiting" then 7 ∷ [] else if state == "paused" then 8 ∷ [] else []

abbrev client : Client
client = record { jobs_by_state = λ state end. returned (held state); dead_letters = λ limit. [] }

get_all_jobs_lem_example :
    get_all_jobs client 100
    ≡ held "waiting"
      ++ (held "active"
          ++ (held "completed" ++ (held "failed" ++ (held "delayed" ++ (held "waiting" ++ [])))))
get_all_jobs_lem_example = get_all_jobs_lem client held 100 (λ state end h. refl) (omega arith)

-- The waiting job is listed twice.
twice_test : get_all_jobs client 100 ≡ 7 ∷ 7 ∷ []
unfolding get_all_jobs collect_all get_jobs_by_status collect map_status_to_states
twice_test = refl
