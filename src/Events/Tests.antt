-- ===== src/Events/Tests.antt =====
-- Registration and emission with three handlers, of which one throws.
use job_queue.Prelude.{zero, suc, ◌≡◌, refl, List, [], ◌∷◌, Settled, returned, threw}
use job_queue.JsMap
use job_queue.JobQueue.{Ref, job_completed, job_failed}
use job_queue.Events.{
  Registry, register, unregister, get_handlers, clear, called, logged, emit_from, emit,
}
use job_queue.Events.Registry.{Op, on, off, clear_event, perform, perform_all}

abbrev outcome : Ref → Settled (Unit {0})
outcome (suc zero) = threw "boom"
outcome _ = returned tt

abbrev ops : List Op
ops =
    on job_failed 0
    ∷ on job_failed 1
    ∷ on job_failed 0
    ∷ on job_completed 2
    ∷ on job_failed 2
    ∷ off job_failed 0
    ∷ clear_event job_completed
    ∷ []

abbrev two : Registry
two = (job_failed, 1 ∷ 2 ∷ []) ∷ []

run_tests :
    (perform_all ops [] ≡ two)
    × (emit outcome job_failed two ≡ called 1 ∷ logged 1 "boom" ∷ called 2 ∷ [])
    × (emit outcome job_completed two ≡ [])
unfolding perform_all perform register unregister clear emit emit_from get_handlers JsMap.get
    JsMap.set JsMap.delete
run_tests = (refl, refl, refl)
