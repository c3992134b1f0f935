-- ===== src/JobQueue/Processing/Registration.antt =====
-- What `process` leaves behind: the processors and the worker.
use job_queue.Prelude.{
  ◌≡◌, refl, String, Option, none, some, List, [], ◌∷◌, arith, if◌then◌else◌, ◌==◌, or_else, ◌∙◌,
  string_eq,
}
use job_queue.JsMap
use text.Mathlib.TextEquality.{eq_iff}
use job_queue.JsMap.{is_empty}
use job_queue.JsMap.Laws.{get-set, get-has, is_empty-set, is_empty-has}
use job_queue.JobQueue.{Ref}
use job_queue.JobQueue.Processing.{Processors, no_processors, process}

-- Calls of `process` one after another, each error caught by the caller
unfoldable pub process_all : List (String × Ref) → Processors → Processors
process_all [] q = q
process_all ((name, processor) ∷ calls) q = process_all calls (process name processor q).0

-- The processor of the first call for a name.
abbrev pub first_for : String → List (String × Ref) → Option Ref
first_for name [] = none
first_for name ((n, processor) ∷ calls) = if n == name then some processor else first_for name calls

get-process :
    (name j : String) (processor : Ref) (q : Processors)
    → JsMap.get j (process name processor q).0.processors
      ≡ or_else (JsMap.get j q.processors) (if name == j then some processor else none)
unfolding process
get-process name j processor q =
    ground (arith, get-has name q.processors, get-set name j processor q.processors, eq_iff name j)

get-process_all :
    (calls : List (String × Ref)) (q : Processors) (name : String)
    → JsMap.get name (process_all calls q).processors
      ≡ or_else (JsMap.get name q.processors) (first_for name calls)
unfolding process_all
get-process_all [] q name = ground arith
get-process_all ((n, processor) ∷ calls) q name =
    get-process_all calls (process n processor q).0 name
    ∙ ground (arith, get-process n name processor q)

-- One worker runs as soon as there is a processor, and never more than one.
abbrev pub OneWorker : Processors → Type 0
OneWorker q = q.workers ≡ (if is_empty q.processors then 0 else 1)

process-OneWorker :
    (name : String) (processor : Ref) (q : Processors)
    → OneWorker q
    → OneWorker (process name processor q).0
unfolding process
process-OneWorker name processor q w =
    ground (arith, is_empty-set name processor q.processors, is_empty-has name q.processors)

process_all-OneWorker :
    (calls : List (String × Ref)) (q : Processors) → OneWorker q → OneWorker (process_all calls q)
unfolding process_all
process_all-OneWorker [] q w = w
process_all-OneWorker ((name, processor) ∷ calls) q w =
    process_all-OneWorker calls _ (process-OneWorker name processor q w)

-- After any calls of `process` on a new queue, each job name has the processor that was given
-- first for it, and one worker runs, or none if no processor was given.
pub process_all_lem :
    (calls : List (String × Ref))
    → let q = process_all calls no_processors in
      ((name : String) → JsMap.get name q.processors ≡ first_for name calls) × OneWorker q
process_all_lem calls = (
  λ name. get-process_all calls no_processors name ∙ (unfold JsMap.get in refl),
  process_all-OneWorker calls no_processors refl,
)
