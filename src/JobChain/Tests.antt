-- ===== src/JobChain/Tests.antt =====
-- A workflow that is executed and cancelled, and a job that waits for another.
use job_queue.Prelude.{
  ltb, if◌then◌else◌, ℕ, ◌+◌, ◌≡◌, ◌≤◌, refl, none, some, List, [], ◌∷◌, arith, Settled, returned,
  threw,
}
use job_queue.JsMap
use job_queue.JsMap.{JsMap}
use job_queue.JobQueue.{Ref}
use job_queue.AccessControl.{Text}
use job_queue.Redis.{text_eq}
use job_queue.Redis.Timed.{timed_memory, timed_memory_answers}
use job_queue.JobChain.{
  WorkflowExecutionResult, failed, cancelled, serialize_workflow, deserialize_workflow,
  JobDependency, started, is_blank_id,
}
use job_queue.JobChain.Store.{Outside}
use job_queue.JobChain.Sample.{workflow_json, no_dependencies}
use job_queue.JobChain.Calls.{
  Op, executing, cancelling, asking, chaining, answers, spec_answers, spec, Workflows, InOrder,
}
use job_queue.JobChain.Status.{Implements, answers_refine_workflows}
use job_queue.JobChain.Entries.{IsSound, reduced, deserialize-serialize}
use job_queue.JobChain.Deadline.{waiting_ends}
use job_queue.JobChain.Waiting.{World, done, wait_for_all, wait_for_result}

abbrev finished : WorkflowExecutionResult
finished = record {
  workflow_id = 119 ∷ [];
  status = failed;
  step_results = (98 ∷ [], 1) ∷ (97 ∷ [], 2) ∷ [];
  error = some (record { message = 120 ∷ []; details = some 3 });
  started_at = 5;
  completed_at = some 9;
}

finished-IsSound : IsSound finished
unfolding JsMap.has
finished-IsSound = record {
  results_map = (refl, (refl, tt));
  error_filled = tt;
  start_positive = omega arith;
  end_positive = omega arith;
}

deserialize-serialize_example :
    deserialize_workflow 100 (serialize_workflow finished) ≡ reduced finished
deserialize-serialize_example = deserialize-serialize 100 finished finished-IsSound

-- The result of the parent is there after two polls.
abbrev world : World
world = record {
  get_at = λ now parent. returned (if ltb now 1200 then none else some (49 ∷ []));
  lasts = λ now. 3;
  parse = λ raw. returned 8;
}

abbrev deps : List JobDependency
deps = record { parent_job_id = 112 ∷ [] } ∷ []

waiting_test :
    wait_for_all 11 world deps 1000 1000 1000 [] ≡ done 1209 (returned ((112 ∷ [], 8) ∷ []))
unfolding wait_for_all wait_for_result JsMap.set
waiting_test = refl

waiting_ends_example :
    (t : ℕ) × ((settled : Settled (JsMap Text Ref)) × ((wait_for_all 11 world deps 1000 1000 1000 []
          ≡ done t settled)
        × ((1000 ≤ t) × (t ≤ 1000 + 1000 + 3 + 100))))
waiting_ends_example = waiting_ends world 1000 1000 3 (λ t. omega arith) 10 deps (omega arith)

abbrev outside : Outside (JsMap Text (Text × ℕ))
outside = record {
  redis = timed_memory;
  key_prefix = 106 ∷ [];
  workflows = workflow_json;
  dependencies = no_dependencies;
}

abbrev no_workflows : Workflows
no_workflows i now = none

empty-Implements : Implements outside timed_memory_answers 1 [] no_workflows
unfolding JsMap.get
empty-Implements = record { held = λ later i order. refl; readable = λ later i w e. cc e }

abbrev calls : List Op
calls =
    asking 4 (119 ∷ [])
    ∷ executing 5 (119 ∷ []) []
    ∷ executing 5 (119 ∷ []) (1 ∷ [])
    ∷ chaining 6 (119 ∷ []) (1 ∷ [])
    ∷ asking 7 (119 ∷ [])
    ∷ cancelling 8 (119 ∷ [])
    ∷ asking 9 (119 ∷ [])
    ∷ asking 604800009 (119 ∷ [])
    ∷ []

in_order : InOrder 1 calls
in_order = (
  omega arith,
  (
    omega arith,
    (omega arith, (omega arith, (omega arith, (omega arith, (omega arith, (omega arith, tt)))))),
  ),
)

answers_refine_workflows_example : answers outside calls [] ≡ spec_answers calls no_workflows
answers_refine_workflows_example =
    answers_refine_workflows outside timed_memory_answers (λ x. refl) 1 calls [] no_workflows
      (omega arith) in_order empty-Implements

-- A workflow of one step: it is running until it is cancelled, and gone a week later.
spec_test :
    spec_answers calls no_workflows
    ≡ threw "workflow/not_found"
      ∷ threw "workflow/empty_steps"
      ∷ returned (some (started 5 (119 ∷ [])))
      ∷ returned none
      ∷ returned (some (started 5 (119 ∷ [])))
      ∷ returned none
      ∷ returned
          (some (record (started 5 (119 ∷ [])) { status = cancelled; completed_at = some 8 }))
      ∷ threw "workflow/not_found"
      ∷ []
unfolding spec_answers spec is_blank_id
spec_test = refl
