-- ===== src/JobChain/Sample.antt =====
-- A text form of workflows for the tests: numbers, then texts that are counted.
use job_queue.Prelude.{
  ℕ, zero, suc, ◌≡◌, refl, ap, Option, none, some, List, [], ◌∷◌, ◌++◌, length, take, Settled,
  returned, threw,
}
use job_queue.JobQueue.{Ref}
use job_queue.AccessControl.{Text, drop}
use job_queue.AccessControl.Sample.{of_option, to_option, option_back, take_first, drop_first}
use job_queue.Redis.{Json}
use job_queue.JobChain.{
  WorkflowStatus, running, completed, failed, cancelled, Serialized, JobDependency,
}

abbrev of_status : Option WorkflowStatus → ℕ
of_status none = 0
of_status (some running) = 1
of_status (some completed) = 2
of_status (some failed) = 3
of_status (some cancelled) = 4

abbrev to_status : ℕ → Option WorkflowStatus
to_status zero = none
to_status (suc zero) = some running
to_status (suc (suc zero)) = some completed
to_status (suc (suc (suc zero))) = some failed
to_status (suc (suc (suc (suc n)))) = some cancelled

pub status_back : (o : Option WorkflowStatus) → to_status (of_status o) ≡ o
status_back none = refl
status_back (some running) = refl
status_back (some completed) = refl
status_back (some failed) = refl
status_back (some cancelled) = refl

abbrev entries_text : List (Text × Ref) → Text
entries_text [] = []
entries_text ((name, result) ∷ entries) = length name ∷ result ∷ (name ++ entries_text entries)

abbrev parse_entries : ℕ → Text → List (Text × Ref)
parse_entries zero text = []
parse_entries (suc n) [] = []
parse_entries (suc n) (len ∷ []) = []
parse_entries (suc n) (len ∷ result ∷ text) =
    (take len text, result) ∷ parse_entries n (drop len text)

pub entries_back :
    (entries : List (Text × Ref)) → parse_entries (length entries) (entries_text entries) ≡ entries
entries_back [] = refl
entries_back ((name, result) ∷ entries) =
    rw (take_first name (entries_text entries), drop_first name (entries_text entries))
      (ap (λ rest. (name, result) ∷ rest) (entries_back entries))

abbrev flag : {A : Type 0} → Option A → ℕ
flag none = 0
flag (some a) = 1

abbrev or_empty : {A : Type 0} → Option (List A) → List A
or_empty none = []
or_empty (some xs) = xs

abbrev if_flag : {A : Type 0} → ℕ → A → Option A
if_flag zero a = none
if_flag (suc n) a = some a

pub flag_back : {A : Type 0} (o : Option (List A)) → if_flag (flag o) (or_empty o) ≡ o
flag_back none = refl
flag_back (some xs) = refl

abbrev workflow_text : Serialized → Text
workflow_text w =
    of_status w.status
    ∷ of_option w.started_at
    ∷ of_option w.completed_at
    ∷ flag w.step_results
    ∷ length (or_empty w.step_results)
    ∷ flag w.error
    ∷ length (or_empty w.error)
    ∷ length w.workflow_id
    ∷ (w.workflow_id ++ (or_empty w.error ++ entries_text (or_empty w.step_results)))

abbrev parse_workflow : Text → Settled Serialized
parse_workflow (st ∷ sa ∷ ca ∷ fr ∷ n ∷ fe ∷ le ∷ li ∷ text) = returned record {
  workflow_id = take li text;
  status = to_status st;
  step_results = if_flag fr (parse_entries n (drop le (drop li text)));
  error = if_flag fe (take le (drop li text));
  started_at = to_option sa;
  completed_at = to_option ca;
}
parse_workflow _ = threw "SyntaxError"

pub parse-workflow_text : (w : Serialized) → parse_workflow (workflow_text w) ≡ returned w
parse-workflow_text w =
    let entries = entries_text (or_empty w.step_results) in
    let after = or_empty w.error ++ entries in
    rw
      (
        take_first w.workflow_id after,
        drop_first w.workflow_id after,
        take_first (or_empty w.error) entries,
        drop_first (or_empty w.error) entries,
        entries_back (or_empty w.step_results),
        flag_back w.step_results,
        flag_back w.error,
        status_back w.status,
        option_back w.started_at,
        option_back w.completed_at,
      )
      refl

abbrev pub workflow_json : Json Serialized
workflow_json = record {
  stringify = workflow_text;
  parse = parse_workflow;
  stored = λ w. w;
  present-stringify = λ w. refl;
  parse-stringify = parse-workflow_text;
}

-- The tests have no dependencies in Redis.
abbrev pub no_dependencies : Json (List JobDependency)
no_dependencies = record {
  stringify = λ deps. 1 ∷ [];
  parse = λ text. returned [];
  stored = λ deps. [];
  present-stringify = λ deps. refl;
  parse-stringify = λ deps. refl;
}
