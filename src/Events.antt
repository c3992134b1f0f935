-- ===== src/Events.antt =====
-- src/core/services/events: `EventHandlerRegistry` and the loop of `EventCoordinator.emit`.
-- A handler is a reference, and a `Set` of handlers a list without repetition, in the order of
-- insertion. A handler changes no registry while an event is emitted.
pub mod Registry
pub mod Emission
mod Tests
use job_queue.Prelude.{
  ℕ, zero, suc, ◌≡◌, ◌↔◌, Bool, true, false, not, Option, none, some, String, List, [], ◌∷◌, ◌++◌,
  arith, nat_beq, nat_beq_iff, nat_eq, get_or, sym, ap, ◌∙◌, if◌then◌else◌, length, ltb, Eq, ◌==◌,
  Settled, returned, threw,
}
use job_queue.JsMap
use job_queue.JsMap.{JsMap, keys}
use job_queue.JobQueue.{
  Ref, QueueEvent, job_added, job_started, job_completed, job_failed, job_retrying, job_stalled,
  job_progress, job_dlq, queue_error,
}

abbrev pub event_index : QueueEvent → ℕ
event_index job_added = 0
event_index job_started = 1
event_index job_completed = 2
event_index job_failed = 3
event_index job_retrying = 4
event_index job_stalled = 5
event_index job_progress = 6
event_index job_dlq = 7
event_index queue_error = 8

abbrev event_of : ℕ → QueueEvent
event_of zero = job_added
event_of (suc zero) = job_started
event_of (suc (suc zero)) = job_completed
event_of (suc (suc (suc zero))) = job_failed
event_of (suc (suc (suc (suc zero)))) = job_retrying
event_of (suc (suc (suc (suc (suc zero))))) = job_stalled
event_of (suc (suc (suc (suc (suc (suc zero)))))) = job_progress
event_of (suc (suc (suc (suc (suc (suc (suc zero))))))) = job_dlq
event_of _ = queue_error

event_of_index : (e : QueueEvent) → event_of (event_index e) ≡ e
event_of_index e = ground arith

-- `===` on events
abbrev pub event_beq : QueueEvent → QueueEvent → Bool
event_beq a b = nat_beq (event_index a) (event_index b)

pub event_beq_iff : (a b : QueueEvent) → (event_beq a b ≡ true) ↔ (a ≡ b)
event_beq_iff a b = (
  λ h. sym (event_of_index a) ∙ ap event_of ((nat_beq_iff _ _).0 h) ∙ event_of_index b,
  λ h. (nat_beq_iff _ _).1 (ap event_index h),
)

instance abbrev pub event_eq : Eq QueueEvent
event_eq = record { beq = event_beq; beq_iff = event_beq_iff }

-- `Set`: `has`, `add`, `delete`
abbrev pub contains : Ref → List Ref → Bool
contains h [] = false
contains h (x ∷ s) = if nat_beq x h then true else contains h s

abbrev pub set_add : Ref → List Ref → List Ref
set_add h s = if contains h s then s else s ++ h ∷ []

abbrev pub set_delete : Ref → List Ref → List Ref
set_delete h [] = []
set_delete h (x ∷ s) = let rest = set_delete h s in if nat_beq x h then rest else x ∷ rest

-- The field `handlers` of `EventHandlerRegistry`
abbrev pub Registry : Type 0
Registry = JsMap QueueEvent (List Ref)

-- `register`
unfoldable pub register : QueueEvent → Ref → Registry → Registry
register event handler r = JsMap.set event (set_add handler (get_or (JsMap.get event r) [])) r

-- `unregister`, with its result
unfoldable pub unregister : QueueEvent → Ref → Registry → Registry × Bool
unregister event handler r = elim (JsMap.get event r) [
  | none ↦ (r, false)
  | some handlers ↦ (JsMap.set event (set_delete handler handlers) r, contains handler handlers)
]

-- `getHandlers`
unfoldable pub get_handlers : QueueEvent → Registry → List Ref
get_handlers event r = get_or (JsMap.get event r) []

-- `clear`, of one event or of all
unfoldable pub clear : Option QueueEvent → Registry → Registry
clear none r = []
clear (some event) r = JsMap.delete event r

-- `hasHandlers`
unfoldable pub has_handlers : QueueEvent → Registry → Bool
has_handlers event r = elim (JsMap.get event r) [
  | none ↦ false
  | some handlers ↦ ltb 0 (length handlers)
]

-- `getHandlerCount`
unfoldable pub get_handler_count : QueueEvent → Registry → ℕ
get_handler_count event r = elim (JsMap.get event r) [ none ↦ 0 | some handlers ↦ length handlers ]

-- `getRegisteredEvents`
unfoldable pub get_registered_events : Registry → List QueueEvent
get_registered_events r = keys r

pub data Level : Type 0 where
  debug warning error : Level

-- What the coordinator does: it calls handlers, and logs what they throw and what happens.
pub data Call : Type 0 where
  called : Ref → Call
  wrote : Level → String → Call
  logged : Ref → String → Call

-- `emit`; `outcome` says how each handler ends, its promise included
unfoldable pub emit_from : (Ref → Settled (Unit {0})) → List Ref → List Call
emit_from outcome [] = []
emit_from outcome (h ∷ handlers) =
    let rest = emit_from outcome handlers in
    elim (outcome h) [
      | returned _ ↦ called h ∷ rest
      | threw message ↦ called h ∷ logged h message ∷ rest
    ]

unfoldable pub emit : (Ref → Settled (Unit {0})) → QueueEvent → Registry → List Call
unfolding get_handlers
emit outcome event r = elim (get_handlers event r) [
  | [] ↦ []
  | h ∷ handlers ↦ emit_from outcome (h ∷ handlers)
]

-- What is done when a job or the queue has news: `emitJobAdded` and the methods after it
module _ (outcome : Ref → Settled (Unit {0})) (r : Registry) where
  unfoldable pub emit_job_added : List Call
  emit_job_added = emit outcome job_added r

  unfoldable pub emit_job_started : List Call
  emit_job_started = emit outcome job_started r

  unfoldable pub emit_job_completed : List Call
  emit_job_completed = wrote debug "Job completed" ∷ emit outcome job_completed r

  unfoldable pub emit_job_failed : List Call
  emit_job_failed = wrote debug "Job failed" ∷ emit outcome job_failed r

  unfoldable pub emit_job_retrying : List Call
  emit_job_retrying = wrote debug "Job retrying" ∷ emit outcome job_retrying r

  unfoldable pub emit_job_stalled : List Call
  emit_job_stalled = wrote warning "Job stalled" ∷ emit outcome job_stalled r

  unfoldable pub emit_job_progress : List Call
  emit_job_progress = wrote debug "Job progress" ∷ emit outcome job_progress r

  unfoldable pub emit_job_dlq : List Call
  emit_job_dlq = wrote error "Job moved to DLQ" ∷ emit outcome job_dlq r

  unfoldable pub emit_queue_error : List Call
  emit_queue_error = wrote error "Queue error" ∷ emit outcome queue_error r
