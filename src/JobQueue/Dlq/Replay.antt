-- ===== src/JobQueue/Dlq/Replay.antt =====
-- What a replay moves, in which order, and what is in the jobs that it adds.
use job_queue.Prelude.{
  ℕ, ◌+◌, ◌≡◌, refl, ap, ◌∙◌, String, Option, none, some, List, [], ◌∷◌, arith, length, string_eq,
}
use job_queue.JobQueue.{
  QueueConfig, BullJob, Effect, queue_add, dlq_remove, Settled, returned, threw,
}
use job_queue.JobQueue.Processing.{Answer, accepted, refused}
use job_queue.JobQueue.Dlq.{id_field, replay_options, replay_from, replay_dlq}

abbrev pub Entry : Type 0
Entry = BullJob × Answer × Answer

-- A call that adds a job of the id, name and data of a dead letter
abbrev pub AddsJob : BullJob → Effect → Type 0
AddsJob job (queue_add name payload options) =
    (name ≡ job.name) × (payload ≡ job.payload) × (options.job_id ≡ id_field job.id)
AddsJob _ _ = ⊥

-- The calls of a replay: each dead letter is added to the queue and then removed, one after the
-- other, until a call is refused, which is the last one.
abbrev pub AddsFirst : List Entry → List Effect → Type 0
AddsFirst [] effects = effects ≡ []
AddsFirst ((job, refused _, _) ∷ jobs) (added ∷ effects) = AddsJob job added × (effects ≡ [])
AddsFirst ((job, accepted, refused _) ∷ jobs) (added ∷ effects) =
    AddsJob job added × (effects ≡ dlq_remove job.id ∷ [])
AddsFirst ((job, accepted, accepted) ∷ jobs) (added ∷ removed ∷ effects) =
    AddsJob job added × (removed ≡ dlq_remove job.id) × AddsFirst jobs effects
AddsFirst _ _ = ⊥

replay_from-AddsFirst :
    (config : QueueConfig) (moved : ℕ) (jobs : List Entry)
    → AddsFirst jobs (replay_from config moved jobs).0
unfolding replay_from replay_options
replay_from-AddsFirst config moved [] = refl
replay_from-AddsFirst config moved ((job, refused message, removal) ∷ jobs) =
    ((refl, refl, refl), refl)
replay_from-AddsFirst config moved ((job, accepted, refused message) ∷ jobs) =
    ((refl, refl, refl), refl)
replay_from-AddsFirst config moved ((job, accepted, accepted) ∷ jobs) =
    ((refl, refl, refl), refl, replay_from-AddsFirst config (moved + 1) jobs)

-- The first answer that is an error.
abbrev pub first_refusal : List Entry → Option String
first_refusal [] = none
first_refusal ((_, refused message, _) ∷ jobs) = some message
first_refusal ((_, accepted, refused message) ∷ jobs) = some message
first_refusal ((_, accepted, accepted) ∷ jobs) = first_refusal jobs

abbrev pub outcome : Option String → ℕ → Settled ℕ
outcome none moved = returned moved
outcome (some message) moved = threw message

replay_from-outcome :
    (config : QueueConfig) (moved : ℕ) (jobs : List Entry)
    → (replay_from config moved jobs).1 ≡ outcome (first_refusal jobs) (moved + length jobs)
unfolding replay_from
replay_from-outcome config moved [] = ground arith
replay_from-outcome config moved ((job, refused message, removal) ∷ jobs) = refl
replay_from-outcome config moved ((job, accepted, refused message) ∷ jobs) = refl
replay_from-outcome config moved ((job, accepted, accepted) ∷ jobs) =
    replay_from-outcome config (moved + 1) jobs ∙ ap (outcome (first_refusal jobs)) (omega arith)

-- A replay adds each dead letter to the queue, by its id, name and data, and then removes it, in
-- their order, up to the first call that is refused, and makes no other call. It returns the number
-- of dead letters if every call succeeds, and throws the first error if not.
pub replay_dlq_lem :
    (config : QueueConfig) (jobs : List Entry)
    → let (effects, settled) = replay_dlq (some jobs) config in
      AddsFirst jobs effects × (settled ≡ outcome (first_refusal jobs) (length jobs))
unfolding replay_dlq
replay_dlq_lem config jobs = (
  replay_from-AddsFirst config 0 jobs,
  replay_from-outcome config 0 jobs ∙ ap (outcome (first_refusal jobs)) (omega arith),
)
