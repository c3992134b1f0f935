-- ===== src/JobQueue/Processing/Calls.antt =====
-- Kinds of calls, and how many of a kind one run of a processor makes.
use job_queue.Prelude.{
  ℕ, ◌+◌, ◌≡◌, refl, Bool, true, false, none, List, [], ◌∷◌, ◌++◌, arith, string_eq, leb,
  if◌then◌else◌,
}
use job_queue.JobQueue.{
  job_completed, job_failed, job_retrying, job_dlq, QueueConfig, BullJob, Effect, dlq_add, emitted,
  progress_updated, job_progress, span_started, span_ended,
}
use job_queue.JobQueue.Options.{or_default}
use job_queue.JobQueue.Processing.{start, report_progress}

-- How many calls of a kind are on a list.
abbrev pub count : (Effect → Bool) → List Effect → ℕ
count p [] = 0
count p (e ∷ es) = (if p e then 1 else 0) + count p es

abbrev pub is_dead_letter : Effect → Bool
is_dead_letter (dlq_add _ _) = true
is_dead_letter _ = false

abbrev pub is_moved : Effect → Bool
is_moved (emitted job_dlq _) = true
is_moved _ = false

abbrev pub is_retry : Effect → Bool
is_retry (emitted job_retrying _) = true
is_retry _ = false

abbrev pub is_completion : Effect → Bool
is_completion (emitted job_completed _) = true
is_completion _ = false

abbrev pub is_failure : Effect → Bool
is_failure (emitted job_failed _) = true
is_failure (emitted job_dlq _) = true
is_failure _ = false

abbrev pub is_span_start : Effect → Bool
is_span_start span_started = true
is_span_start _ = false

abbrev pub is_span_end : Effect → Bool
is_span_end span_ended = true
is_span_end _ = false

pub count-append :
    (p : Effect → Bool) (xs ys : List Effect) → count p (xs ++ ys) ≡ count p xs + count p ys
count-append p [] ys = omega arith
count-append p (x ∷ xs) ys = omega (arith, count-append p xs ys)

count-report_progress :
    (p : Effect → Bool) (ps : List ℕ)
    → ((n : ℕ) → p (progress_updated n) ≡ false)
    → p (emitted job_progress none) ≡ false
    → count p (report_progress ps) ≡ 0
count-report_progress p [] quiet quiet' = refl
count-report_progress p (n ∷ ps) quiet quiet' =
    rw (quiet n) (rw quiet' (omega (arith, count-report_progress p ps quiet quiet')))

-- The progress reports do not count where the calls of a kind are counted.
pub count-attempt :
    (p : Effect → Bool) (config : QueueConfig) (ps : List ℕ) (rest : List Effect)
    → ((n : ℕ) → p (progress_updated n) ≡ false)
    → p (emitted job_progress none) ≡ false
    → count p (start config ++ (report_progress ps ++ rest)) ≡ count p (start config) + count p rest
count-attempt p config ps rest quiet quiet' = omega (
  arith,
  count-append p (start config) (report_progress ps ++ rest),
  count-append p (report_progress ps) rest,
  count-report_progress p ps quiet quiet',
)

-- The attempts of a job are used up.
abbrev pub exhausted : BullJob → Bool
exhausted job = leb (or_default job.attempts 3) job.attempts_made
