-- ===== src/Dlq/Tests.antt =====
-- A queue with two dead letters, which lists the newest first and cleans the oldest first.
use job_queue.Prelude.{
  ℕ, zero, suc, ◌≡◌, ◌≤◌, refl, String, Bool, true, false, Option, none, some, List, [], ◌∷◌, ◌++◌,
  length, take, length-take, if◌then◌else◌, ◌==◌, string_eq, returned, threw,
}
use job_queue.Dlq.{Job, Outside, get_dlq_jobs, replay_job, replay_each, replay_dlq}
use job_queue.Dlq.Replay.{KeepsRange, replay_dlq_bound}

-- The failed jobs, the newest first, and the names that were added.
abbrev Queue : Type 0
Queue = List Job × List String

abbrev without_last : List Job → List Job
without_last [] = []
without_last (j ∷ []) = []
without_last (j ∷ k ∷ js) = j ∷ without_last (k ∷ js)

abbrev has_id : String → Option String → Bool
has_id id none = false
has_id id (some j) = j == id

abbrev find : String → List Job → Option Job
find id [] = none
find id (j ∷ js) = let rest = find id js in if has_id id j.id then some j else rest

abbrev upto : Option ℕ → List Job → List Job
upto none js = js
upto (some end) js = take (suc end) js

abbrev drop_last : ℕ → List Job → List Job
drop_last zero js = js
drop_last (suc n) js = drop_last n (without_last js)

abbrev queue : Outside Queue
queue = record {
  enabled = some true;
  get_failed = λ end q. (q, returned (upto end q.0));
  count_failed = λ q. (q, returned (length q.0));
  get_job = λ id q. (q, returned (find id q.0));
  add_job = λ name payload options q. ((q.0, q.1 ++ (name ∷ [])), returned "new");
  clean = λ limit q. ((drop_last limit q.0, q.1), returned tt);
  record_job_dlq = λ job q. (q, threw "metrics");
  emit_job_dlq = λ job error q. (q, returned tt);
  notification_handler = none;
}

abbrev newest : Job
newest = record { id = some "2"; name = "b"; payload = 0; attempts = 3; created_at = 20 }

abbrev oldest : Job
oldest = record { id = some "1"; name = "a"; payload = 0; attempts = 3; created_at = 10 }

abbrev two : Queue
two = (newest ∷ oldest ∷ [], [])

pub first_of_two : (js : List Job) → returned (take 2 two.0) ≡ returned js → js ≡ take 2 two.0
first_of_two js h = cc h

returned_back : (xs js : List Job) → returned xs ≡ returned js → xs ≡ js
returned_back xs js h = cc h

queue-KeepsRange : KeepsRange queue
queue-KeepsRange end q js h =
    rw⁻¹ (returned_back (take (suc end) q.0) js h) (length-take (suc end) q.0)

replay_dlq_bound_example :
    (t : Queue) × ((n : ℕ) × ((replay_dlq queue 2 two ≡ (t, returned n)) × (n ≤ 2)))
replay_dlq_bound_example = replay_dlq_bound queue 1 two queue-KeepsRange

-- Of two dead letters one is replayed and stays, and the other one is lost.
loss_test : replay_dlq queue 100 two ≡ ((newest ∷ [], "b" ∷ []), returned 1)
unfolding replay_dlq get_dlq_jobs replay_each replay_job
loss_test = refl
