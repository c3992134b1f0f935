-- ===== src/Processing/Lifecycle.antt =====
-- What `JobProcessingOrchestrator.processJob` does with a job, on every way that it can go.
use job_queue.Prelude.{
  ℕ, ◌+◌, ◌≡◌, ◌∙◌, refl, ap, String, Option, none, some, List, [], ◌∷◌, ◌++◌, arith, if◌then◌else◌,
  string_eq, Settled, returned, threw, Option-cases, inl, inr,
}
use job_queue.JobQueue.{
  Ref, QueueEvent, job_started, job_completed, job_failed, job_retrying, job_progress,
}
use job_queue.Retry.{RetryConfig, Job, Strategy, handle_failure}
use job_queue.Processing.{
  Processors, get, Run, resolved, rejected, Step, on_job_started, span_started, span_recorded,
  span_ended, announced, recorded, processor_called, get_processor_or_throw, report_progress,
  handle_job_failure, Span, quiet_span, fail, settle, process_job,
}

-- How often a span is ended, and how often an error is put on it.
abbrev pub ends : List Step → ℕ
ends [] = 0
ends (span_ended ∷ steps) = 1 + ends steps
ends (_ ∷ steps) = ends steps

abbrev pub exceptions : List Step → List String
exceptions [] = []
exceptions (span_recorded e ∷ steps) = e ∷ exceptions steps
exceptions (_ ∷ steps) = exceptions steps

-- The events announced, those of progress left out.
abbrev pub news_of : QueueEvent → Option String → List (QueueEvent × Option String)
news_of job_progress error = []
news_of event error = (event, error) ∷ []

abbrev pub news : List Step → List (QueueEvent × Option String)
news [] = []
news (announced event error ∷ steps) = news_of event error ++ news steps
news (_ ∷ steps) = news steps

-- The processors called.
abbrev pub called : List Step → List Ref
called [] = []
called (processor_called p ∷ steps) = p ∷ called steps
called (_ ∷ steps) = called steps

-- Progress neither ends the span, nor makes news, nor calls a processor.
progress-append :
    (ps : List ℕ) (steps : List Step)
    → (ends (report_progress ps ++ steps) ≡ ends steps)
      × (exceptions (report_progress ps ++ steps) ≡ exceptions steps)
      × (news (report_progress ps ++ steps) ≡ news steps)
      × (called (report_progress ps ++ steps) ≡ called steps)
progress-append [] steps = (refl, refl, refl, refl)
progress-append (p ∷ ps) steps = progress-append ps steps

abbrev pub result_of : Run → Settled Ref
result_of (resolved ps v) = returned v
result_of (rejected ps e) = threw e

-- How the processing of a job is to end, independent of what is done on the way.
abbrev pub outcome : Processors → (Ref → Job → Run) → Job → Settled Ref
outcome processors run job = elim (get job.name processors) [
  | none ↦ threw "No processor registered"
  | some processor ↦ result_of (run processor job)
]

abbrev pub to_list : Option Ref → List Ref
to_list none = []
to_list (some p) = p ∷ []

abbrev pub errors : Settled Ref → List String
errors (returned _) = []
errors (threw error) = error ∷ []

module _ (strategy : Strategy) (config : RetryConfig) where
  abbrev pub last_news : Job → Settled Ref → QueueEvent × Option String
  last_news job (returned _) = (job_completed, none)
  last_news job (threw error) =
      (if handle_failure strategy job config then job_retrying else job_failed, some error)

  fail_lem :
      (job : Job) (error : String)
      → let steps = (fail strategy config quiet_span 0 job error).0 in
        (ends steps ≡ 1)
        × (exceptions steps ≡ error ∷ [])
        × (news steps ≡ last_news job (threw error) ∷ [])
        × (called steps ≡ [])
  unfolding fail handle_job_failure
  fail_lem job error = ground arith

  settle_lem :
      (job : Job) (run : Run)
      → let steps = (settle strategy config quiet_span job run).0 in
        (ends steps ≡ 1)
        × (exceptions steps ≡ errors (result_of run))
        × (news steps ≡ last_news job (result_of run) ∷ [])
        × (called steps ≡ [])
        × ((settle strategy config quiet_span job run).1 ≡ result_of run)
  unfolding settle fail
  settle_lem job (resolved ps v) =
      let p =
        progress-append ps
          (announced job_completed none ∷ recorded "jobqueue.job.completed" ∷ span_ended ∷ []) in
      (p.0, p.1, p.2, p.3, refl)
  settle_lem job (rejected ps e) =
      let p = progress-append ps (fail strategy config quiet_span 0 job e).0 in
      let f = fail_lem job e in (p.0 ∙ f.0, p.1 ∙ f.1, p.2 ∙ f.2, p.3 ∙ f.3, refl)

  process_job-none :
      (processors : Processors) (run : Ref → Job → Run) (job : Job)
      → get job.name processors ≡ none
      → process_job strategy config quiet_span processors run job ≡ (
        span_started ∷ on_job_started
            ++ (fail strategy config quiet_span 0 job "No processor registered").0,
        threw "No processor registered",
      )
  unfolding process_job get_processor_or_throw fail
  process_job-none processors run job absent = ground (arith, absent)

  process_job-some :
      (processors : Processors) (run : Ref → Job → Run) (job : Job) (p : Ref)
      → get job.name processors ≡ some p
      → process_job strategy config quiet_span processors run job ≡ (
        span_started ∷ on_job_started
            ++ processor_called p ∷ (settle strategy config quiet_span job (run p job)).0,
        (settle strategy config quiet_span job (run p job)).1,
      )
  unfolding process_job get_processor_or_throw
  process_job-some processors run job p found = ground (arith, found)

  -- If the methods of the span throw nothing, `processJob` settles as the processor registered for the
  -- job does, or by an error if there is none. The span is
  -- ended once, with the error on it if there is one. Besides progress it announces the start and
  -- then one event: that the job is completed, will be retried, or has failed, the last two with the
  -- error and as the retry coordinator decides. It calls that processor once, and no other.
  pub process_job_lem :
      (processors : Processors) (run : Ref → Job → Run) (job : Job)
      → let steps = (process_job strategy config quiet_span processors run job).0 in
        let result = outcome processors run job in
        ((process_job strategy config quiet_span processors run job).1 ≡ result)
        × (ends steps ≡ 1)
        × (exceptions steps ≡ errors result)
        × (news steps ≡ (job_started, none) ∷ last_news job result ∷ [])
        × (called steps ≡ to_list (get job.name processors))
  process_job_lem processors run job = elim (Option-cases (get job.name processors)) [
    | inl absent ↦ rw (process_job-none processors run job absent) (
        rw (absent, outcome)
          (let f = fail_lem job "No processor registered" in
            (refl, f.0, f.1, ap (λ ns. (job_started, none) ∷ ns) f.2, f.3)))
    | inr (p, found) ↦ rw (process_job-some processors run job p found) (
        rw (found, outcome)
          (let f = settle_lem job (run p job) in
            (f.4, f.0, f.1, ap (λ ns. (job_started, none) ∷ ns) f.2, ap (λ ps. p ∷ ps) f.3)))
  ]

  module _ (span : Span) (processors : Processors) (run : Ref → Job → Run) (job : Job) (p : Ref)
      (found : get job.name processors ≡ some p) where
    run_found : process_job strategy config span processors run job ≡ (
      span_started ∷ on_job_started
          ++ processor_called p ∷ (settle strategy config span job (run p job)).0,
      (settle strategy config span job (run p job)).1,
    )
    unfolding process_job get_processor_or_throw
    run_found = ground (arith, found)

    -- If the processor of a job rejects and recording its error on the span throws, then `processJob`
    -- throws the error of the span, which is never ended, and announces neither a retry nor a failure.
    pub process_job_record_throws :
        (ps : List ℕ) (error thrown : String)
        → run p job ≡ rejected ps error
        → span.on_exception ≡ some thrown
        → let (steps, settled) = process_job strategy config span processors run job in
          (settled ≡ threw thrown) × (ends steps ≡ 0) × (news steps ≡ (job_started, none) ∷ [])
    unfolding settle fail
    process_job_record_throws ps error thrown runs throws =
        let q = progress-append ps (span_recorded error ∷ []) in
        rw run_found
          (rw (runs, throws, settle, fail) (refl, q.0, ap (λ ns. (job_started, none) ∷ ns) q.2))
