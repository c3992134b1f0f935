-- ===== src/JobChain/Calls.antt =====
-- The calls of the job chain manager on a workflow, and what a plain map of workflows answers.
use job_queue.Prelude.{
  ℕ, ◌+◌, ◌≤◌, leb, Option, none, some, List, [], ◌∷◌, if◌then◌else◌, ◌==◌, Settled, returned,
  threw,
}
use job_queue.JobQueue.{Ref}
use job_queue.AccessControl.{Text}
use job_queue.Redis.{text_eq}
use job_queue.JobChain.{WorkflowExecutionResult, cancelled, started}
use job_queue.JobChain.Store.{
  Outside, checked, create_chain, execute_workflow, get_workflow_status, cancel_workflow,
}

-- What there is of a workflow at a time
abbrev pub Workflows : Type 0
Workflows = Text → ℕ → Option WorkflowExecutionResult

-- A workflow that is put under an identifier is there for seven days, in milliseconds.
abbrev pub put : ℕ → Text → WorkflowExecutionResult → Workflows → Workflows
put now i w f j later =
    if i == j then (if leb later (now + 604800000) then some w else none) else f j later

abbrev pub Answer : Type 0
Answer = Settled (Option WorkflowExecutionResult)

-- The calls on workflows, each with its time, and `createChain`.
pub data Op : Type 0 where
  executing : ℕ → Text → List Ref → Op
  cancelling : ℕ → Text → Op
  asking : ℕ → Text → Op
  chaining : ℕ → Text → List Ref → Op

abbrev pub time_of : Op → ℕ
time_of (executing now id steps) = now
time_of (cancelling now id) = now
time_of (asking now id) = now
time_of (chaining now id steps) = now

-- Calls in the order of their times, from a time on
abbrev pub InOrder : ℕ → List Op → Type 0
InOrder clock [] = Unit
InOrder clock (op ∷ ops) = (clock ≤ time_of op) × InOrder (time_of op) ops

abbrev pub cancelled_at : ℕ → WorkflowExecutionResult → WorkflowExecutionResult
cancelled_at now w = record w { status = cancelled; completed_at = some now }

-- What each call does to the map, and how it settles.
abbrev pub if_checked : Settled (Unit {0}) → Workflows → Workflows × Answer → Workflows × Answer
if_checked (threw error) f next = (f, threw error)
if_checked (returned u) f next = next

abbrev pub cancelling_of :
    ℕ → Text → Option WorkflowExecutionResult → Workflows → Workflows × Answer
cancelling_of now id none f = (f, threw "workflow/not_found")
cancelling_of now id (some w) f = (put now id (cancelled_at now w) f, returned none)

abbrev pub got : Option WorkflowExecutionResult → Answer
got none = threw "workflow/not_found"
got (some w) = returned (some w)

unfoldable pub spec : Op → Workflows → Workflows × Answer
spec (executing now id steps) f =
    if_checked (checked "workflow/invalid_id" "workflow/empty_steps" id steps) f
      (put now id (started now id) f, returned (some (started now id)))
spec (cancelling now id) f = cancelling_of now id (f id now) f
spec (asking now id) f = (f, got (f id now))
spec (chaining now id steps) f =
    if_checked (checked "chain/invalid_id" "chain/empty_steps" id steps) f (f, returned none)

unfoldable pub spec_answers : List Op → Workflows → List Answer
spec_answers [] f = []
spec_answers (op ∷ ops) f = (spec op f).1 ∷ spec_answers ops (spec op f).0

abbrev pub quiet : {A : Type 0} → Settled A → Answer
quiet (returned a) = returned none
quiet (threw error) = threw error

abbrev pub loud : Settled WorkflowExecutionResult → Answer
loud (returned w) = returned (some w)
loud (threw error) = threw error

module _ {S : Type 0} (o : Outside S) where
  unfoldable pub perform : Op → S → S × Answer
  perform (executing now id steps) s = let (n, r) = execute_workflow o now id steps s in (n, loud r)
  perform (cancelling now id) s = let (n, r) = cancel_workflow o now id s in (n, quiet r)
  perform (asking now id) s = let (n, r) = get_workflow_status o now id s in (n, loud r)
  perform (chaining now id steps) s = let (n, r) = create_chain o now id steps s in (n, quiet r)

  unfoldable pub answers : List Op → S → List Answer
  answers [] s = []
  answers (op ∷ ops) s = (perform op s).1 ∷ answers ops (perform op s).0
