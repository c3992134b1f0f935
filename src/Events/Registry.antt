-- ===== src/Events/Registry.antt =====
-- The handlers of an event after any calls of `register`, `unregister` and `clear`.
use job_queue.Prelude.{
  ◌≡◌, ◌∙◌, refl, ap, subst, Bool, true, false, ◌&&◌, none, some, List, [], ◌∷◌, ◌++◌, arith,
  nat_beq, nat_beq_iff, nat_eq, if◌then◌else◌, length, ltb, get_or, Bool-cases, Option-cases, inl,
  inr,
}
use job_queue.JsMap
use job_queue.JsMap.Laws.{get-set, get-delete}
use job_queue.JobQueue.{Ref, QueueEvent}
use job_queue.Events.{
  event_beq, event_beq_iff, event_eq, contains, set_add, set_delete, Registry, register, unregister,
  get_handlers, clear, has_handlers, get_handler_count,
}

contains-append :
    (h x : Ref) (s : List Ref)
    → contains h (s ++ x ∷ []) ≡ (if nat_beq x h then true else contains h s)
contains-append h x [] = ground arith
contains-append h x (y ∷ s) = ground (arith, contains-append h x s)

contains-set_add :
    (h x : Ref) (s : List Ref)
    → contains h (set_add x s) ≡ (if nat_beq x h then true else contains h s)
contains-set_add h x s = ground (arith, contains-append h x s, nat_beq_iff x h)

contains-set_delete :
    (h x : Ref) (s : List Ref)
    → contains h (set_delete x s) ≡ (if nat_beq x h then false else contains h s)
contains-set_delete h x [] = ground arith
contains-set_delete h x (y ∷ s) = ground (arith, contains-set_delete h x s)

-- No handler is twice in a set.
abbrev pub NoRepeat : List Ref → Type 0
NoRepeat [] = Unit
NoRepeat (x ∷ s) = (contains x s ≡ false) × NoRepeat s

append-NoRepeat :
    (x : Ref) (s : List Ref) → contains x s ≡ false → NoRepeat s → NoRepeat (s ++ x ∷ [])
append-NoRepeat x [] h n = ground arith
append-NoRepeat x (y ∷ s) h (fresh, n) =
    (ground (arith, contains-append y x s), append-NoRepeat x s (ground arith) n)

set_add-NoRepeat : (x : Ref) (s : List Ref) → NoRepeat s → NoRepeat (set_add x s)
set_add-NoRepeat x s n = elim (Bool-cases (contains x s)) [
  | inl old ↦ rw old n
  | inr new ↦ rw new (append-NoRepeat x s new n)
]

set_delete-NoRepeat : (x : Ref) (s : List Ref) → NoRepeat s → NoRepeat (set_delete x s)
set_delete-NoRepeat x [] n = tt
set_delete-NoRepeat x (y ∷ s) (fresh, n) = elim (Bool-cases (nat_beq y x)) [
  | inl same ↦ rw same (set_delete-NoRepeat x s n)
  | inr other ↦ rw other (ground (arith, contains-set_delete y x s), set_delete-NoRepeat x s n)
]

-- The calls that change a registry.
pub data Op : Type 0 where
  on off : QueueEvent → Ref → Op
  clear_event : QueueEvent → Op
  clear_all : Op

unfoldable pub perform : Op → Registry → Registry
perform (on event handler) r = register event handler r
perform (off event handler) r = (unregister event handler r).0
perform (clear_event event) r = clear (some event) r
perform clear_all r = clear none r

unfoldable pub perform_all : List Op → Registry → Registry
perform_all [] r = r
perform_all (op ∷ ops) r = perform_all ops (perform op r)

-- Whether a handler is to hear an event, by the last call that is about the two.
abbrev pub after_op : QueueEvent → Ref → Op → Bool → Bool
after_op event handler (on e h) b = if event_beq e event && nat_beq h handler then true else b
after_op event handler (off e h) b = if event_beq e event && nat_beq h handler then false else b
after_op event handler (clear_event e) b = if event_beq e event then false else b
after_op event handler clear_all b = false

abbrev pub hears : QueueEvent → Ref → List Op → Bool → Bool
hears event handler [] b = b
hears event handler (op ∷ ops) b = hears event handler ops (after_op event handler op b)

get_or-set :
    (e event : QueueEvent) (s : List Ref) (r : Registry)
    → get_or (JsMap.get event (JsMap.set e s r)) []
      ≡ (if event_beq e event then s else get_or (JsMap.get event r) [])
get_or-set e event s r = ground (arith, get-set e event s r)

get-same :
    (e event : QueueEvent) (r : Registry)
    → event_beq e event ≡ true
    → JsMap.get e r ≡ JsMap.get event r
get-same e event r h = ap (λ x. JsMap.get x r) ((event_beq_iff e event).0 h)

get_handlers-register :
    (event e : QueueEvent) (handler h : Ref) (r : Registry)
    → contains handler (get_handlers event (register e h r)) ≡ (
        if event_beq e event && nat_beq h handler
        then true
        else contains handler (get_handlers event r))
unfolding get_handlers register
get_handlers-register event e handler h r = elim (Bool-cases (event_beq e event)) [
  | inl same ↦ ground (
    arith,
    same,
    get_or-set e event (set_add h (get_or (JsMap.get e r) [])) r,
    get-same e event r same,
    contains-set_add handler h (get_or (JsMap.get e r) []),
  )
  | inr other ↦ ground (arith, other, get_or-set e event (set_add h (get_or (JsMap.get e r) [])) r)
]

get_handlers-unregister :
    (event e : QueueEvent) (handler h : Ref) (r : Registry)
    → contains handler (get_handlers event (unregister e h r).0) ≡ (
        if event_beq e event && nat_beq h handler
        then false
        else contains handler (get_handlers event r))
unfolding get_handlers unregister
get_handlers-unregister event e handler h r = elim (Option-cases (JsMap.get e r)) [
  | inl absent ↦ rw (absent, unregister) (ground (arith, absent, get-same e event r))
  | inr (s, found) ↦
      rw (found, unregister)
        (ground (
          arith,
          found,
          get-same e event r,
          get_or-set e event (set_delete h s) r,
          contains-set_delete handler h s,
        ))
]

get_handlers-perform :
    (event : QueueEvent) (handler : Ref) (op : Op) (r : Registry)
    → contains handler (get_handlers event (perform op r))
      ≡ after_op event handler op (contains handler (get_handlers event r))
unfolding perform get_handlers clear JsMap.get
get_handlers-perform event handler (on e h) r = get_handlers-register event e handler h r
get_handlers-perform event handler (off e h) r = get_handlers-unregister event e handler h r
get_handlers-perform event handler (clear_event e) r = ground (arith, get-delete e event r)
get_handlers-perform event handler clear_all r = refl

-- Whatever is registered, unregistered and cleared, a handler is registered for an event exactly
-- if the last of these calls that is about the two registered it.
pub get_handlers-perform_all :
    (event : QueueEvent) (handler : Ref) (ops : List Op) (r : Registry)
    → contains handler (get_handlers event (perform_all ops r))
      ≡ hears event handler ops (contains handler (get_handlers event r))
unfolding perform_all
get_handlers-perform_all event handler [] r = refl
get_handlers-perform_all event handler (op ∷ ops) r =
    get_handlers-perform_all event handler ops (perform op r)
    ∙ ap (hears event handler ops) (get_handlers-perform event handler op r)

-- Every event's handlers are a set.
abbrev pub IsWellFormed : Registry → Type 0
IsWellFormed r = (event : QueueEvent) → NoRepeat (get_handlers event r)

set-IsWellFormed :
    (e : QueueEvent) (s : List Ref) (r : Registry)
    → NoRepeat s
    → IsWellFormed r
    → IsWellFormed (JsMap.set e s r)
unfolding get_handlers
set-IsWellFormed e s r n wf event = rw (get_or-set e event s r) (ground (arith, n, wf event))

unregister-none :
    (e : QueueEvent) (h : Ref) (r : Registry) → JsMap.get e r ≡ none → (unregister e h r).0 ≡ r
unfolding unregister
unregister-none e h r absent = rw (absent, unregister) refl

unregister-some :
    (e : QueueEvent) (h : Ref) (s : List Ref) (r : Registry)
    → JsMap.get e r ≡ some s
    → (unregister e h r).0 ≡ JsMap.set e (set_delete h s) r
unfolding unregister
unregister-some e h s r found = rw (found, unregister) refl

get_handlers-some :
    (e : QueueEvent) (s : List Ref) (r : Registry) → JsMap.get e r ≡ some s → get_handlers e r ≡ s
unfolding get_handlers
get_handlers-some e s r found = rw found refl

unregister-IsWellFormed :
    (e : QueueEvent) (h : Ref) (r : Registry) → IsWellFormed r → IsWellFormed (unregister e h r).0
unregister-IsWellFormed e h r wf = elim (Option-cases (JsMap.get e r)) [
  | inl absent ↦ rw (unregister-none e h r absent) wf
  | inr (s, found) ↦ rw (unregister-some e h s r found) (
      set-IsWellFormed e _ r
        (set_delete-NoRepeat h s (subst NoRepeat (get_handlers-some e s r found) (wf e))) wf)
]

perform-IsWellFormed : (op : Op) (r : Registry) → IsWellFormed r → IsWellFormed (perform op r)
unfolding perform get_handlers register unregister clear JsMap.get
perform-IsWellFormed (on e h) r wf event =
    set-IsWellFormed e _ r (set_add-NoRepeat h _ (wf e)) wf event
perform-IsWellFormed (off e h) r wf event = unregister-IsWellFormed e h r wf event
perform-IsWellFormed (clear_event e) r wf event =
    rw (get-delete e event r) (ground (arith, wf event))
perform-IsWellFormed clear_all r wf event = tt

pub perform_all-IsWellFormed :
    (ops : List Op) (r : Registry) → IsWellFormed r → IsWellFormed (perform_all ops r)
unfolding perform_all
perform_all-IsWellFormed [] r wf = wf
perform_all-IsWellFormed (op ∷ ops) r wf =
    perform_all-IsWellFormed ops (perform op r) (perform-IsWellFormed op r wf)

-- The queries agree: `getHandlerCount` is the number of handlers that `getHandlers` returns,
-- `hasHandlers` says whether there is one, and `unregister` answers whether its handler is one.
pub queries_agree :
    (event : QueueEvent) (handler : Ref) (r : Registry)
    → (get_handler_count event r ≡ length (get_handlers event r))
      × (has_handlers event r ≡ ltb 0 (get_handler_count event r))
      × ((unregister event handler r).1 ≡ contains handler (get_handlers event r))
unfolding get_handler_count get_handlers has_handlers unregister
queries_agree event handler r = elim (Option-cases (JsMap.get event r)) [
  | inl absent ↦ ground (arith, absent)
  | inr (s, found) ↦ ground (arith, found)
]
