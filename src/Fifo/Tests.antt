-- ===== src/Fifo/Tests.antt =====
-- Runs of the FIFO manager, and the theorems at concrete managers.
use job_queue.Prelude.{
  ◌≡◌, refl, String, Option, none, some, List, [], ◌∷◌, Settled, returned, threw, if◌then◌else◌,
  ◌==◌, string_eq, is_blank,
}
use job_queue.JsMap
use job_queue.Fifo.{
  Manager, new, AddCall, MessageGroupConfig, add_to_group, pause_group, resume_group, JobView,
  Removal, gone, removed, drain_group,
}
use job_queue.Fifo.Inert.{add, pause, perform_all, IsInert, perform_all-IsInert}

fifo : Unit {0}
unfolding add_to_group pause_group resume_group drain_group JsMap.get JsMap.set is_blank
fifo = tt

abbrev customer : MessageGroupConfig
customer = record { group_id = "customer-456"; deduplication_id = some "order-9" }

abbrev accepts : AddCall → Settled (Option String)
accepts call = returned call.job_id

abbrev with_queue : Manager
with_queue = record (new 3) { queues = ("customer-456", 8) ∷ [] }

add_to_group_tests :
    ((add_to_group "process-order" 5 customer accepts with_queue).2
      ≡ returned "customer-456:order-9")
    × ((add_to_group "process-order" 5
          (record { group_id = " \t"; deduplication_id = none })
          accepts
          with_queue).2
        ≡ threw "fifo/invalid_group_id")
    × ((add_to_group "process-order" 5 customer accepts (new 3)).2
        ≡ threw "Failed to initialize group queue")
unfolding fifo
add_to_group_tests = (refl, refl, refl)

perform_all-IsInert_example : IsInert (
    perform_all
      (add "process-order" 5 customer accepts ∷ pause "customer-456" (returned tt) ∷ [])
      (new 1))
perform_all-IsInert_example =
    perform_all-IsInert 1
      (add "process-order" 5 customer accepts ∷ pause "customer-456" (returned tt) ∷ [])

abbrev jobs : List JobView
jobs = ("1", 5) ∷ ("2", 6) ∷ ("3", 7) ∷ []

abbrev removal : String → Removal
removal id = if id == "2" then gone else removed
