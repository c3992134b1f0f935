-- ===== src/JobQueue/Options/Laws.antt =====
-- Which layer of options a job gets.
use job_queue.Prelude.{refl, ◌≡◌, true, false, Option, none, List, [], ◌∷◌, arith, get_or}
use job_queue.JobQueue.{
  Field, absent, undefined, given, flag, exponential, JobOptions, JobsOptions, QueueConfig,
}
use job_queue.JobQueue.Options.{empty, build_job_options, or_default, spread, job_id_of}

-- The first layer that has the property.
abbrev pub nearest : {A : Type 0} → List (Field A) → Field A
nearest [] = absent
nearest (absent ∷ layers) = nearest layers
nearest (undefined ∷ layers) = undefined
nearest (given a ∷ layers) = given a

-- A layer in which a missing property and `undefined` are the same.
abbrev pub defined : {A : Type 0} → Field A → Field A
defined undefined = absent
defined f = f

pub record IsLayered (job config : JobOptions) (built : JobsOptions) : Type 0 where
  pub attempts : built.attempts ≡ nearest (job.attempts ∷ config.attempts ∷ given 3 ∷ [])
  pub delay : built.delay ≡ nearest (job.delay ∷ config.delay ∷ given 0 ∷ [])
  pub priority : built.priority ≡ nearest (job.priority ∷ config.priority ∷ given 0 ∷ [])
  pub timeout : built.timeout ≡ nearest (job.timeout ∷ config.timeout ∷ given 30000 ∷ [])
  pub backoff :
      built.backoff
      ≡ nearest (
          job.backoff
          ∷ config.backoff
          ∷ given (record { type = exponential; delay = 1000; max_delay = none })
          ∷ [])
  pub remove_on_complete :
      built.remove_on_complete
      ≡ nearest
          (job.remove_on_complete ∷ defined config.remove_on_complete ∷ given (flag true) ∷ [])
  pub remove_on_fail :
      built.remove_on_fail
      ≡ nearest (job.remove_on_fail ∷ defined config.remove_on_fail ∷ given false ∷ [])
  pub repeat : built.repeat ≡ nearest (job.repeat ∷ config.repeat ∷ [])
  pub idempotency_key :
      built.idempotency_key ≡ nearest (job.idempotency_key ∷ config.idempotency_key ∷ [])
  pub jitter : built.jitter ≡ nearest (job.jitter ∷ config.jitter ∷ [])
  pub job_id : built.job_id ≡ job_id_of job.idempotency_key
  pub metadata : built.metadata ≡ nearest (job.metadata ∷ config.metadata ∷ [])

module _ {A : Type 0} where
  layered_default :
      (job config : Field A) (d : A)
      → spread (spread (given (or_default config d)) config) job
        ≡ nearest (job ∷ config ∷ given d ∷ [])
  layered_default job config d = ground arith

  layered_defined :
      (job config : Field A) (d : A)
      → spread (given (or_default config d)) job ≡ nearest (job ∷ defined config ∷ given d ∷ [])
  layered_defined job config d = ground arith

  layered : (job config : Field A) → spread config job ≡ nearest (job ∷ config ∷ [])
  layered job config = ground arith

-- Each option of a job comes from the nearest layer that has the property: the call, then the
-- queue's defaults, then the library's, if it has one. `undefined` counts as a value, but in the
-- queue's `removeOnComplete` and `removeOnFail`. The job's id is the idempotency key of the call, if
-- that is not empty, and never that of the queue's defaults.
pub build_job_options-IsLayered :
    (config : QueueConfig) (options : Option JobOptions)
    → IsLayered
        (get_or options empty)
        (get_or config.default_job_options empty)
        (build_job_options config options)
unfolding build_job_options
build_job_options-IsLayered config options = record {
  attempts = layered_default _ _ _;
  delay = layered_default _ _ _;
  priority = layered_default _ _ _;
  timeout = layered_default _ _ _;
  backoff = layered_default _ _ _;
  remove_on_complete = layered_defined _ _ _;
  remove_on_fail = layered_defined _ _ _;
  repeat = layered _ _;
  idempotency_key = layered _ _;
  jitter = layered _ _;
  job_id = refl;
  metadata = layered _ _;
}
