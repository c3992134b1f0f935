-- ===== src/Fifo/Groups.antt =====
-- The groups of a manager that has queues: pausing, resuming and draining.
use job_queue.Prelude.{
  ℕ, ◌+◌, ◌≡◌, refl, ap, ◌∙◌, String, Bool, true, false, Option, none, some, List, [], ◌∷◌, arith,
  returned, threw, get_or, if◌then◌else◌, ◌==◌, string_eq,
}
use text.Mathlib.TextEquality.{eq_iff}
use job_queue.JsMap
use job_queue.JsMap.Laws.{get-set}
use job_queue.Fifo.{
  Ref, GroupState, Manager, pause_group, resume_group, set_paused, JobView, Removal, gone, removed,
  failed_with, drain_from, drain_group,
}

-- The state of a group, or the one that it starts with.
abbrev pub state_of : String → Manager → GroupState
state_of group_id m =
    get_or (JsMap.get group_id m.group_states)
      (record { paused = false; concurrency = m.default_concurrency })

pause_lem :
    (m : Manager) (group_id : String) {queue : Ref}
    → JsMap.get group_id m.queues ≡ some queue
    → pause_group group_id (returned tt) m ≡ (set_paused true group_id m, returned tt)
unfolding pause_group
pause_lem m group_id h = ground arith

resume_lem :
    (m : Manager) (group_id : String) {queue : Ref}
    → JsMap.get group_id m.queues ≡ some queue
    → resume_group group_id (returned tt) m ≡ (set_paused false group_id m, returned tt)
unfolding resume_group
resume_lem m group_id h = ground arith

get-set_paused :
    (paused : Bool) (group_id other : String) (m : Manager)
    → JsMap.get other (set_paused paused group_id m).group_states ≡ (
        if group_id == other
        then some (record (state_of group_id m) { paused = paused })
        else JsMap.get other m.group_states)
unfolding set_paused
get-set_paused paused group_id other m = get-set group_id other _ m.group_states

queues-set_paused :
    (paused : Bool) (group_id : String) (m : Manager)
    → (set_paused paused group_id m).queues ≡ m.queues
unfolding set_paused
queues-set_paused paused group_id m = refl

set_paused_twice :
    (group_id other : String) (m : Manager)
    → JsMap.get other (set_paused false group_id (set_paused true group_id m)).group_states ≡ (
        if group_id == other
        then some (record (state_of group_id m) { paused = false })
        else JsMap.get other m.group_states)
set_paused_twice group_id other m = ground (
  arith,
  get-set_paused false group_id other (set_paused true group_id m),
  get-set_paused true group_id group_id m,
  get-set_paused true group_id other m,
  eq_iff group_id group_id,
)

-- Once a group with a queue is paused and then resumed, and BullMQ agrees, the group is not
-- paused and has the concurrency that it had, or the default if it had no state; the states of the other
-- groups and the queues are as they were.
pub resume-pause :
    (m : Manager) (group_id : String) (queue : Ref)
    → JsMap.get group_id m.queues ≡ some queue
    → let (m', settled) =
        resume_group group_id (returned tt) (pause_group group_id (returned tt) m).0 in
      (settled ≡ returned tt)
      × (m'.queues ≡ m.queues)
      × ((other : String)
          → JsMap.get other m'.group_states ≡ (
              if group_id == other
              then some (record (state_of group_id m) { paused = false })
              else JsMap.get other m.group_states))
resume-pause m group_id queue h = rw (pause_lem m group_id h) (
    rw
      (resume_lem (set_paused true group_id m) group_id
        (ap (λ q. JsMap.get group_id q) (queues-set_paused true group_id m) ∙ h))
      (
        refl,
        queues-set_paused false group_id _ ∙ queues-set_paused true group_id m,
        λ other. set_paused_twice group_id other m,
      ))

-- How many of the jobs are removed, up to the first error, and that error.
abbrev pub removals : (String → Removal) → List JobView → ℕ
removals removal [] = 0
removals removal ((id, payload) ∷ jobs) =
    let rest = removals removal jobs in
    elim (removal id) [ gone ↦ rest | removed ↦ 1 + rest | failed_with e ↦ 0 ]

abbrev pub first_error : (String → Removal) → List JobView → Option String
first_error removal [] = none
first_error removal ((id, payload) ∷ jobs) =
    let rest = first_error removal jobs in
    elim (removal id) [ gone ↦ rest | removed ↦ rest | failed_with e ↦ some e ]

drain_from_lem :
    (drained : ℕ) (removal : String → Removal) (jobs : List JobView)
    → drain_from drained removal jobs ≡ (elim (first_error removal jobs) [
      | none ↦ returned (drained + removals removal jobs)
      | some e ↦ threw e
    ])
unfolding drain_from
drain_from_lem drained removal [] = ground arith
drain_from_lem drained removal ((id, payload) ∷ jobs) =
    ground (arith, drain_from_lem drained removal jobs, drain_from_lem (drained + 1) removal jobs)

-- Draining a group with a queue returns the number of listed jobs that were still there, and
-- throws the first error of BullMQ if one of them cannot be looked up or removed.
pub drain_group_lem :
    (m : Manager) (group_id : String) (queue : Ref) (jobs : List JobView)
    (removal : String → Removal)
    → JsMap.get group_id m.queues ≡ some queue
    → drain_group group_id (returned jobs) removal m ≡ (elim (first_error removal jobs) [
      | none ↦ returned (removals removal jobs)
      | some e ↦ threw e
    ])
unfolding drain_group
drain_group_lem m group_id queue jobs removal h = ground (arith, drain_from_lem 0 removal jobs, h)
