-- ===== src/Fifo/Inert.antt =====
-- No operation of the manager ever makes a queue for a group.
use job_queue.Prelude.{
  ℕ, ◌≡◌, refl, String, Option, List, [], ◌∷◌, arith, Settled, returned, threw, is_blank,
  if◌then◌else◌, string_eq,
}
use job_queue.JsMap
use job_queue.Fifo.{
  Ref, MessageGroupConfig, Manager, new, AddCall, add_to_group, pause_group, resume_group,
  list_groups, JobView, Counts, get_group_stats, Removal, drain_group,
}

-- The operations that may change the manager, with the answers of BullMQ.
pub data Op : Type 0 where
  add : String → Ref → MessageGroupConfig → (AddCall → Settled (Option String)) → Op
  pause resume : String → Settled (Unit {0}) → Op

unfoldable pub perform : Op → Manager → Manager
perform (add job_name payload config reply) m = (add_to_group job_name payload config reply m).0
perform (pause group_id reply) m = (pause_group group_id reply m).0
perform (resume group_id reply) m = (resume_group group_id reply m).0

unfoldable pub perform_all : List Op → Manager → Manager
perform_all [] m = m
perform_all (op ∷ ops) m = perform_all ops (perform op m)

perform-queues : (op : Op) (m : Manager) → m.queues ≡ [] → (perform op m).queues ≡ []
unfolding perform add_to_group pause_group resume_group JsMap.get
perform-queues (add job_name payload config reply) m e = ground arith
perform-queues (pause group_id reply) m e = ground arith
perform-queues (resume group_id reply) m e = ground arith

perform_all-queues : (ops : List Op) (m : Manager) → m.queues ≡ [] → (perform_all ops m).queues ≡ []
unfolding perform_all
perform_all-queues [] m e = e
perform_all-queues (op ∷ ops) m e = perform_all-queues ops (perform op m) (perform-queues op m e)

-- What a manager with no queue answers.
pub record IsInert (m : Manager) : Type 0 where
  pub adds :
      (job_name : String) (payload : Ref) (config : MessageGroupConfig)
      (reply : AddCall → Settled (Option String))
      → (add_to_group job_name payload config reply m).1 ≡ []
  pub add_throws :
      (job_name : String) (payload : Ref) (config : MessageGroupConfig)
      (reply : AddCall → Settled (Option String))
      → (add_to_group job_name payload config reply m).2
        ≡ threw (
            if is_blank config.group_id
            then "fifo/invalid_group_id"
            else "Failed to initialize group queue")
  pub pause_throws :
      (group_id : String) (reply : Settled (Unit {0}))
      → (pause_group group_id reply m).1 ≡ threw "fifo/group_not_found"
  pub resume_throws :
      (group_id : String) (reply : Settled (Unit {0}))
      → (resume_group group_id reply m).1 ≡ threw "fifo/group_not_found"
  pub stats_throw :
      (group_id : String) (reply : Settled Counts)
      → get_group_stats group_id reply m ≡ threw "fifo/group_not_found"
  pub no_groups : list_groups m ≡ []
  pub nothing_drained :
      (group_id : String) (reply : Settled (List JobView)) (removal : String → Removal)
      → drain_group group_id reply removal m ≡ returned 0

IsInert-of_queues : (m : Manager) → m.queues ≡ [] → IsInert m
unfolding add_to_group pause_group resume_group get_group_stats list_groups drain_group JsMap.get
IsInert-of_queues m e = record {
  adds = λ job_name payload config reply. ground arith;
  add_throws = λ job_name payload config reply. ground arith;
  pause_throws = λ group_id reply. ground arith;
  resume_throws = λ group_id reply. ground arith;
  stats_throw = λ group_id reply. ground arith;
  no_groups = ground arith;
  nothing_drained = λ group_id reply removal. ground arith;
}

-- After any operations on a new manager, whatever BullMQ answers, `addToGroup` adds no job and
-- throws for every group, pausing, resuming and statistics throw, no group is listed and nothing is drained: no
-- operation makes a queue for a group.
pub perform_all-IsInert :
    (concurrency : ℕ) (ops : List Op) → IsInert (perform_all ops (new concurrency))
perform_all-IsInert concurrency ops =
    IsInert-of_queues _ (perform_all-queues ops (new concurrency) refl)
