-- ===== src/JobChain.antt =====
-- src/infrastructure/services/job-chain.manager.ts and src/core/interfaces/job-chain.interface.ts.
-- A chain and a workflow are what Redis holds of them; the steps that they are given are references.
-- A `catch` that logs and throws again is left out, and so are identifiers in messages.
pub mod Store
pub mod Entries
pub mod Calls
pub mod Status
pub mod Waiting
pub mod Deadline
mod Sample
mod Tests
use job_queue.Prelude.{
  ℕ, zero, suc, String, Bool, true, false, ◌&&◌, Option, none, some, List, [], ◌∷◌, ◌++◌, get_or,
  if◌then◌else◌, is_space, Settled, returned, threw,
}
use job_queue.JsMap
use job_queue.JsMap.{JsMap}
use job_queue.JobQueue.{Ref}
use job_queue.AccessControl.{Text}
use job_queue.Redis.{present, text_eq}

pub data WorkflowStatus : Type 0 where
  running completed failed cancelled : WorkflowStatus

-- An error: its message, and what else it has if it is more than `new Error(message)`, such as its
-- class or its code; the stack is left out
pub record Failure : Type 0 where
  pub message : Text
  pub details : Option Ref

-- `new Error(String(message))`
abbrev pub new_error : Text → Failure
new_error message = record { message = message; details = none }

-- `error?.message`
abbrev pub message_of : Option Failure → Option Text
message_of none = none
message_of (some error) = some error.message

-- `error ? new Error(String(error)) : undefined`, of a text that is not empty
abbrev pub failure_of : Option Text → Option Failure
failure_of none = none
failure_of (some message) = some (new_error message)

-- `WorkflowExecutionResult`; a step's result is a reference
pub record WorkflowExecutionResult : Type 0 where
  pub workflow_id : Text
  pub status : WorkflowStatus
  pub step_results : JsMap Text Ref
  pub error : Option Failure
  pub started_at : ℕ
  pub completed_at : Option ℕ

-- `JobDependency`; no code reads whether it requires success
pub record JobDependency : Type 0 where
  pub parent_job_id : Text

-- The object that is written as JSON, with the properties that may be missing from what is read
pub record Serialized : Type 0 where
  pub workflow_id : Text
  pub status : Option WorkflowStatus
  pub step_results : Option (List (Text × Ref))
  pub error : Option Text
  pub started_at : Option ℕ
  pub completed_at : Option ℕ

-- `serializeWorkflow`
unfoldable pub serialize_workflow : WorkflowExecutionResult → Serialized
serialize_workflow workflow = record {
  workflow_id = workflow.workflow_id;
  status = some workflow.status;
  step_results = some workflow.step_results;
  error = message_of workflow.error;
  started_at = some workflow.started_at;
  completed_at = workflow.completed_at;
}

-- the loop of `deserializeWorkflow`
unfoldable pub set_all : List (Text × Ref) → JsMap Text Ref → JsMap Text Ref
set_all [] m = m
set_all ((step_name, result) ∷ entries) m = set_all entries (JsMap.set step_name result m)

-- a number if it is not 0
abbrev pub non_zero : Option ℕ → Option ℕ
non_zero none = none
non_zero (some zero) = none
non_zero (some (suc n)) = some (suc n)

-- `deserializeWorkflow`; `now` is `Date.now()`
unfoldable pub deserialize_workflow : (now : ℕ) → Serialized → WorkflowExecutionResult
unfolding set_all
deserialize_workflow now read = record {
  workflow_id = read.workflow_id;
  status = get_or read.status running;
  step_results = set_all (get_or read.step_results []) [];
  error = failure_of (present read.error);
  started_at = get_or (non_zero read.started_at) now;
  completed_at = non_zero read.completed_at;
}

-- `!id || id.trim().length === 0`
unfoldable pub is_blank_id : Text → Bool
is_blank_id [] = true
is_blank_id (c ∷ id) = is_space c && is_blank_id id

-- What `createChain` and `executeWorkflow` write
abbrev pub started : (now : ℕ) → Text → WorkflowExecutionResult
started now workflow_id = record {
  workflow_id = workflow_id;
  status = running;
  step_results = [];
  error = none;
  started_at = now;
  completed_at = none;
}
