-- ===== src/JobQueue.antt =====
-- src/types.ts and the class of src/JobQueue.ts: what the parts below share.
-- BullMQ, the metrics, the telemetry and the user's callbacks are not modelled: a method lists its
-- calls of them in order, as `Effect`s, and their answers are arguments. Metrics and telemetry
-- return. A value that the code only passes on (job data, a result, metadata) is a reference.
pub mod Options
pub mod Processing
pub mod Dlq
mod Tests
pub use job_queue.Prelude.{Settled, returned, threw}
use job_queue.Prelude.{ℕ, String, Bool, Option, List, [], ◌∷◌}

-- A reference to an object that the code does not look into.
abbrev pub Ref : Type 0
Ref = ℕ

-- `QueueEvent`
pub data QueueEvent : Type 0 where
  job_added job_started job_completed job_failed job_retrying job_stalled : QueueEvent
  job_progress job_dlq queue_error : QueueEvent

-- A property of an object: not there, there with the value `undefined`, or given.
pub data Field (A : Type 0) : Type 0 where
  absent undefined : Field A
  given : A → Field A

-- `removeOnComplete?: boolean | number`
pub data Keep : Type 0 where
  flag : Bool → Keep
  last : ℕ → Keep

-- `BackoffConfig`
pub data BackoffType : Type 0 where
  exponential fixed : BackoffType

pub record BackoffConfig : Type 0 where
  pub type : BackoffType
  pub delay : ℕ
  pub max_delay : Option ℕ

-- `RepeatConfig`
pub record RepeatConfig : Type 0 where
  pub pattern : Field String
  pub every : Field ℕ
  pub limit : Field ℕ
  pub immediately : Field Bool

-- `JobOptions`. Delays and counts are natural numbers.
pub record JobOptions : Type 0 where
  pub attempts : Field ℕ
  pub idempotency_key : Field String
  pub delay : Field ℕ
  pub priority : Field ℕ
  pub remove_on_complete : Field Keep
  pub remove_on_fail : Field Bool
  pub backoff : Field BackoffConfig
  pub timeout : Field ℕ
  pub metadata : Field Ref
  pub repeat : Field RepeatConfig
  pub jitter : Field ℕ

-- BullMQ's `JobsOptions`, as the class fills them
pub record JobsOptions : Type 0 where
  pub options : JobOptions
  pub open options use *
  pub job_id : Field String

-- `DLQConfig` and `QueueConfig`, the fields that the class reads; a callback or an adapter is
-- there or not
pub record DlqConfig : Type 0 where
  pub enabled : Bool
  pub queue_name : Option String
  pub has_handler : Bool

pub record QueueConfig : Type 0 where
  pub name : String
  pub default_job_options : Option JobOptions
  pub dlq : Option DlqConfig
  pub telemetry : Bool
  pub metrics : Bool

-- The data of a job: what a client gave, or the object that `moveJobToDLQ` builds round it.
-- `stack` and `timestamp` of that object are left out.
pub data Payload : Type 0 where
  original : Ref → Payload
  dead_letter :
      (original_job_id : Option String) (original_data : Payload) (original_queue : String)
      (attempts : ℕ) (max_attempts : Field ℕ) (error : String)
      → Payload

-- A BullMQ job, the fields that the class reads
pub record BullJob : Type 0 where
  pub id : Option String
  pub name : String
  pub payload : Payload
  pub attempts_made : ℕ
  pub attempts : Field ℕ

-- The calls that the class makes
pub data Effect : Type 0 where
  queue_add : String → Payload → JobsOptions → Effect
  dlq_add : String → Payload → Effect
  dlq_remove : Option String → Effect
  emitted : QueueEvent → Option String → Effect
  incremented : String → Effect
  observed : String → Effect
  progress_updated : ℕ → Effect
  span_started span_failed span_ended : Effect
  handler_called : Effect
