-- ===== src/Events/Emission.antt =====
-- Whom `EventCoordinator.emit` calls, and in what order, whatever the handlers throw.
use job_queue.Prelude.{
  ℕ, ◌+◌, ◌≡◌, ◌∙◌, refl, ap, false, List, [], ◌∷◌, arith, nat_beq, nat_beq_iff, String,
  if◌then◌else◌, Settled, returned, threw,
}
use job_queue.JobQueue.{
  Ref, QueueEvent, job_added, job_started, job_completed, job_failed, job_retrying, job_stalled,
  job_progress, job_dlq, queue_error,
}
use job_queue.JsMap
use job_queue.Events.{
  contains, get_handlers, Registry, Call, called, wrote, logged, emit_from, emit, emit_job_added,
  emit_job_started, emit_job_completed, emit_job_failed, emit_job_retrying, emit_job_stalled,
  emit_job_progress, emit_job_dlq, emit_queue_error,
}
use job_queue.Events.Registry.{
  NoRepeat, Op, perform_all, hears, get_handlers-perform_all, perform_all-IsWellFormed,
}

-- The handlers called, in order.
abbrev pub calls : List Call → List Ref
calls [] = []
calls (called h ∷ cs) = h ∷ calls cs
calls (wrote level message ∷ cs) = calls cs
calls (logged h error ∷ cs) = calls cs

-- The handlers with an error in the log, and that error.
abbrev pub logs : List Call → List (Ref × String)
logs [] = []
logs (called h ∷ cs) = logs cs
logs (wrote level message ∷ cs) = logs cs
logs (logged h error ∷ cs) = (h, error) ∷ logs cs

-- The handlers of a list that throw, with what they throw.
abbrev pub thrown : (Ref → Settled (Unit {0})) → List Ref → List (Ref × String)
thrown outcome [] = []
thrown outcome (h ∷ hs) =
    let rest = thrown outcome hs in
    elim (outcome h) [ returned _ ↦ rest | threw error ↦ (h, error) ∷ rest ]

calls-emit_from :
    (outcome : Ref → Settled (Unit {0})) (hs : List Ref) → calls (emit_from outcome hs) ≡ hs
unfolding emit_from
calls-emit_from outcome [] = refl
calls-emit_from outcome (h ∷ hs) = ground (arith, calls-emit_from outcome hs)

logs-emit_from :
    (outcome : Ref → Settled (Unit {0})) (hs : List Ref)
    → logs (emit_from outcome hs) ≡ thrown outcome hs
unfolding emit_from
logs-emit_from outcome [] = refl
logs-emit_from outcome (h ∷ hs) = ground (arith, logs-emit_from outcome hs)

-- The early return for an event without handlers leaves out nothing.
emit-emit_from :
    (outcome : Ref → Settled (Unit {0})) (event : QueueEvent) (r : Registry)
    → emit outcome event r ≡ emit_from outcome (get_handlers event r)
unfolding emit emit_from
emit-emit_from outcome event r =
    elim (get_handlers event r)
      as (λ hs.
        (elim hs [ [] ↦ [] | h ∷ handlers ↦ emit_from outcome (h ∷ handlers) ])
        ≡ emit_from outcome hs) [ [] ↦ refl | h ∷ hs ↦ refl ]

-- `emit` calls every handler of the event, once each and in the order of registration, even when
-- some of them throw; it logs the error of each that throws, and no other.
pub calls-emit :
    (outcome : Ref → Settled (Unit {0})) (event : QueueEvent) (r : Registry)
    → (calls (emit outcome event r) ≡ get_handlers event r)
      × (logs (emit outcome event r) ≡ thrown outcome (get_handlers event r))
calls-emit outcome event r =
    rw (emit-emit_from outcome event r) (
      calls-emit_from outcome (get_handlers event r),
      logs-emit_from outcome (get_handlers event r),
    )

-- How often a handler occurs.
abbrev pub count : Ref → List Ref → ℕ
count h [] = 0
count h (x ∷ s) = (if nat_beq x h then 1 else 0) + count h s

count-NoRepeat : (h : Ref) (s : List Ref) → NoRepeat s → count h s ≡ (if contains h s then 1 else 0)
count-NoRepeat h [] n = refl
count-NoRepeat h (x ∷ s) (fresh, n) = ground (arith, nat_beq_iff x h, count-NoRepeat h s n, fresh)

-- From an empty registry, whatever calls of `register`, `unregister` and `clear` are made before:
-- `emit` calls a handler once if the last of these calls about it and the event registered it, and
-- else not at all, whatever the handlers throw.
pub emit-once :
    (outcome : Ref → Settled (Unit {0})) (event : QueueEvent) (handler : Ref) (ops : List Op)
    → count handler (calls (emit outcome event (perform_all ops [])))
      ≡ (if hears event handler ops false then 1 else 0)
unfolding get_handlers JsMap.get
emit-once outcome event handler ops =
    let wf = perform_all-IsWellFormed ops [] (λ _. tt) event in
    ap (count handler) (calls-emit outcome event (perform_all ops [])).0
    ∙ count-NoRepeat handler (get_handlers event (perform_all ops [])) wf
    ∙ ap (λ b. if b then 1 else 0) (get_handlers-perform_all event handler ops [])

-- Each method of the coordinator that announces an event calls exactly the handlers of that event,
-- in the order of registration, whatever they throw.
pub emitters_lem :
    (outcome : Ref → Settled (Unit {0})) (r : Registry)
    → (calls (emit_job_added outcome r) ≡ get_handlers job_added r)
      × (calls (emit_job_started outcome r) ≡ get_handlers job_started r)
      × (calls (emit_job_completed outcome r) ≡ get_handlers job_completed r)
      × (calls (emit_job_failed outcome r) ≡ get_handlers job_failed r)
      × (calls (emit_job_retrying outcome r) ≡ get_handlers job_retrying r)
      × (calls (emit_job_stalled outcome r) ≡ get_handlers job_stalled r)
      × (calls (emit_job_progress outcome r) ≡ get_handlers job_progress r)
      × (calls (emit_job_dlq outcome r) ≡ get_handlers job_dlq r)
      × (calls (emit_queue_error outcome r) ≡ get_handlers queue_error r)
unfolding emit_job_added emit_job_started emit_job_completed emit_job_failed emit_job_retrying
    emit_job_stalled emit_job_progress emit_job_dlq emit_queue_error
emitters_lem outcome r =
    let c = λ (event : QueueEvent). (calls-emit outcome event r).0 in
    (
      c job_added,
      c job_started,
      c job_completed,
      c job_failed,
      c job_retrying,
      c job_stalled,
      c job_progress,
      c job_dlq,
      c queue_error,
    )
