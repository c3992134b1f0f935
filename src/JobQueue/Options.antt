-- ===== src/JobQueue/Options.antt =====
-- src/JobQueue.ts: `buildDefaultJobOptions`, `buildJobOptions`, `applyJitter`.
pub mod Laws
use job_queue.Prelude.{
  ℕ, ◌+◌, String, Bool, true, false, Option, none, some, ltb, get_or, if◌then◌else◌, ◌==◌,
  string_eq,
}
use job_queue.JobQueue.{
  Field, absent, undefined, given, flag, exponential, JobOptions, JobsOptions, QueueConfig,
}

-- `f ?? d`
abbrev pub or_default : {A : Type 0} → Field A → A → A
or_default absent d = d
or_default undefined d = d
or_default (given a) d = a

-- one property of `{ ...base, ...over }`
abbrev pub spread : {A : Type 0} → Field A → Field A → Field A
spread base absent = base
spread base undefined = undefined
spread base (given a) = given a

-- `{}`
abbrev pub empty : JobOptions
empty = record {
  attempts = absent;
  idempotency_key = absent;
  delay = absent;
  priority = absent;
  remove_on_complete = absent;
  remove_on_fail = absent;
  backoff = absent;
  timeout = absent;
  metadata = absent;
  repeat = absent;
  jitter = absent;
}

unfoldable pub build_default_job_options : JobOptions → JobOptions
build_default_job_options options = record {
  attempts = spread (given (or_default options.attempts 3)) options.attempts;
  idempotency_key = options.idempotency_key;
  delay = spread (given (or_default options.delay 0)) options.delay;
  priority = spread (given (or_default options.priority 0)) options.priority;
  remove_on_complete = given (or_default options.remove_on_complete (flag true));
  remove_on_fail = given (or_default options.remove_on_fail false);
  backoff =
      spread
        (given (
          or_default options.backoff
            (record { type = exponential; delay = 1000; max_delay = none })))
        options.backoff;
  timeout = spread (given (or_default options.timeout 30000)) options.timeout;
  metadata = options.metadata;
  repeat = options.repeat;
  jitter = options.jitter;
}

-- `{ ...baseOptions, ...options }`
unfoldable pub spread_options : JobOptions → JobOptions → JobOptions
spread_options base options = record {
  attempts = spread base.attempts options.attempts;
  idempotency_key = spread base.idempotency_key options.idempotency_key;
  delay = spread base.delay options.delay;
  priority = spread base.priority options.priority;
  remove_on_complete = spread base.remove_on_complete options.remove_on_complete;
  remove_on_fail = spread base.remove_on_fail options.remove_on_fail;
  backoff = spread base.backoff options.backoff;
  timeout = spread base.timeout options.timeout;
  metadata = spread base.metadata options.metadata;
  repeat = spread base.repeat options.repeat;
  jitter = spread base.jitter options.jitter;
}

-- `if (options?.idempotencyKey)`: the empty text is falsy
abbrev pub job_id_of : Field String → Field String
job_id_of absent = absent
job_id_of undefined = absent
job_id_of (given key) = if key == "" then absent else given key

unfoldable pub build_job_options : QueueConfig → Option JobOptions → JobsOptions
unfolding build_default_job_options spread_options
build_job_options config options =
    let options' = get_or options empty in
    record {
      options =
          spread_options (build_default_job_options (get_or config.default_job_options empty))
            options';
      job_id = job_id_of options'.idempotency_key;
    }

-- `draw` is `Math.floor(Math.random() * jitter)`
unfoldable pub apply_jitter : ℕ → Field ℕ → JobsOptions → JobsOptions
apply_jitter draw jitter_ms job_options =
    if ltb 0 (or_default jitter_ms 0)
    then record job_options {
      options = record (job_options.options) {
        delay = given (or_default job_options.delay 0 + draw);
      };
    }
    else job_options
