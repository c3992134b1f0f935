-- ===== src/JobChain/Store.antt =====
-- The methods of the job chain manager that read and write chains and workflows.
use job_queue.Prelude.{
  ℕ, String, Option, none, some, List, [], ◌∷◌, ◌++◌, if◌then◌else◌, Settled, returned, threw,
}
use job_queue.JobQueue.{Ref}
use job_queue.AccessControl.{Text}
use job_queue.Redis.{Action, ◌>>=◌, ◌>>◌, return, settle, or_return, Json, present}
use job_queue.Redis.Timed.{TimedRedis}
use job_queue.JobChain.{
  JobDependency, WorkflowExecutionResult, Serialized, cancelled, serialize_workflow,
  deserialize_workflow, is_blank_id, started,
}

-- What the manager is made with.
pub record Outside (S : Type 0) : Type 0 where
  pub redis : TimedRedis S
  pub key_prefix : Text
  pub workflows : Json Serialized
  pub dependencies : Json (List JobDependency)

-- `'EX', 604800`: seven days
abbrev pub week : ℕ
week = 604800

-- `:chain:` and `:workflow:` in code units
abbrev pub chain_part : Text
chain_part = 58 ∷ 99 ∷ 104 ∷ 97 ∷ 105 ∷ 110 ∷ 58 ∷ []

abbrev pub workflow_part : Text
workflow_part = 58 ∷ 119 ∷ 111 ∷ 114 ∷ 107 ∷ 102 ∷ 108 ∷ 111 ∷ 119 ∷ 58 ∷ []

-- `:job:` and `:deps` in code units
abbrev pub job_part : Text
job_part = 58 ∷ 106 ∷ 111 ∷ 98 ∷ 58 ∷ []

abbrev pub deps_part : Text
deps_part = 58 ∷ 100 ∷ 101 ∷ 112 ∷ 115 ∷ []

-- what the guards of `createChain` and `executeWorkflow` let pass
abbrev pub checked : String → String → Text → List Ref → Settled (Unit {0})
checked invalid_id empty_steps id [] =
    if is_blank_id id then threw invalid_id else threw empty_steps
checked invalid_id empty_steps id (step ∷ steps) =
    if is_blank_id id then threw invalid_id else returned tt

-- what `if (!chain) throw` and `if (!data) throw` let pass
abbrev pub found_or : {A : Type 0} → String → Option A → Settled A
found_or error none = threw error
found_or error (some a) = returned a

module _ {S : Type 0} (o : Outside S) where
  -- `buildChainKey`
  abbrev pub chain_key : Text → Text
  chain_key chain_id = o.key_prefix ++ (chain_part ++ chain_id)

  -- `buildWorkflowKey`
  abbrev pub workflow_key : Text → Text
  workflow_key workflow_id = o.key_prefix ++ (workflow_part ++ workflow_id)

  abbrev pub text_of : WorkflowExecutionResult → Text
  text_of workflow = o.workflows.stringify (serialize_workflow workflow)

  -- `createChain`
  unfoldable pub create_chain : (now : ℕ) → Text → List Ref → Action S Text
  create_chain now chain_id steps = do
    settle (checked "chain/invalid_id" "chain/empty_steps" chain_id steps)
    o.redis.setex now (chain_key chain_id) week (text_of (started now chain_id))
    return chain_id

  abbrev pub parsed : (now : ℕ) → Text → Settled WorkflowExecutionResult
  parsed now text = elim (o.workflows.parse text) [
    | threw error ↦ threw error
    | returned read ↦ returned (deserialize_workflow now read)
  ]

  -- `getChainData` after `get`
  abbrev pub chain_of : (now : ℕ) → Option Text → Settled (Option WorkflowExecutionResult)
  chain_of now none = returned none
  chain_of now (some text) = elim (parsed now text) [
    | threw error ↦ threw error
    | returned chain ↦ returned (some chain)
  ]

  -- `getChainData`
  unfoldable pub get_chain_data : (now : ℕ) → Text → Action S (Option WorkflowExecutionResult)
  get_chain_data now chain_id =
      or_return none
        (do text ← o.redis.get now (chain_key chain_id); settle (chain_of now (present text)))

  -- `getChainStatus`
  unfoldable pub get_chain_status : (now : ℕ) → Text → Action S WorkflowExecutionResult
  unfolding get_chain_data
  get_chain_status now chain_id = do
    chain ← get_chain_data now chain_id
    settle (found_or "chain/not_found" chain)

  -- `addJobToChain`; `suffix` is the text of the time, a colon and the random part
  unfoldable pub add_job_to_chain : (now : ℕ) (suffix : Text) → Text → Action S Text
  unfolding get_chain_data
  add_job_to_chain now suffix chain_id = do
    chain ← get_chain_data now chain_id
    known ← settle (found_or "chain/not_found" chain)
    return (chain_id ++ (58 ∷ suffix))

  -- `executeWorkflow`
  unfoldable pub execute_workflow : (now : ℕ) → Text → List Ref → Action S WorkflowExecutionResult
  execute_workflow now workflow_id steps = do
    settle (checked "workflow/invalid_id" "workflow/empty_steps" workflow_id steps)
    o.redis.setex now (workflow_key workflow_id) week (text_of (started now workflow_id))
    return (started now workflow_id)

  -- `getWorkflowStatus`
  unfoldable pub get_workflow_status : (now : ℕ) → Text → Action S WorkflowExecutionResult
  get_workflow_status now workflow_id = do
    found ← o.redis.get now (workflow_key workflow_id)
    text ← settle (found_or "workflow/not_found" (present found))
    settle (parsed now text)

  -- `cancelWorkflow`
  unfoldable pub cancel_workflow : (now : ℕ) → Text → Action S (Unit {0})
  unfolding get_workflow_status
  cancel_workflow now workflow_id = do
    workflow ← get_workflow_status now workflow_id
    o.redis.setex now (workflow_key workflow_id) week
        (text_of (record workflow { status = cancelled; completed_at = some now }))

  abbrev pub dependencies_of : Option Text → Settled (List JobDependency)
  dependencies_of none = returned []
  dependencies_of (some text) = o.dependencies.parse text

  -- `getJobDependencies`
  unfoldable pub get_job_dependencies : (now : ℕ) → Text → Action S (List JobDependency)
  get_job_dependencies now job_id = or_return [] (do
    found ← o.redis.get now (o.key_prefix ++ (job_part ++ (job_id ++ deps_part)))
    settle (dependencies_of (present found)))
