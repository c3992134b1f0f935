-- ===== src/Idempotency.antt =====
-- src/infrastructure/services/idempotency.manager.ts. A text under a key is the JSON of a record, or no
-- JSON. A `catch` that throws again is left out.
pub mod Cleaning
mod Tests
use job_queue.Prelude.{
  ℕ, ◌+◌, ◌/◌, String, Bool, true, false, Option, none, some, List, [], ◌∷◌, ◌++◌, if◌then◌else◌,
  leb, Settled, returned, threw, Action, bind_settled, ◌>>=◌, ◌>>◌, return, settle, or_return,
  caught,
}
use job_queue.JobQueue.{Ref}
use job_queue.AccessControl.{Text, star}
use job_queue.Redis.{Json, present}
use job_queue.Redis.Timed.{TimedRedis}

-- `IdempotencyRecord`; the result is a reference
pub record IdempotencyRecord : Type 0 where
  pub idempotency_key : Text
  pub job_id : Text
  pub job_name : Text
  pub result : Ref
  pub created_at : ℕ
  pub expires_at : ℕ

-- What the manager is made with.
pub record Outside (S : Type 0) : Type 0 where
  pub redis : TimedRedis S
  pub key_prefix : Text
  pub records : Json IdempotencyRecord

module _ {S : Type 0} (o : Outside S) where
  -- `buildKey`
  abbrev pub build_key : Text → Text
  build_key idempotency_key = o.key_prefix ++ (58 ∷ idempotency_key)

  -- `Math.ceil(ttlMs / 1000)`
  abbrev pub ttl_seconds : ℕ → ℕ
  ttl_seconds ttl_ms = (ttl_ms + 999) / 1000

  -- `recordExecution`
  unfoldable pub record_execution :
      (now : ℕ) (idempotency_key job_id job_name : Text) → Ref → (ttl_ms : ℕ) → Action S (Unit {0})
  record_execution now idempotency_key job_id job_name result ttl_ms =
      o.redis.setex now (build_key idempotency_key) (ttl_seconds ttl_ms) (
        o.records.stringify (record {
          idempotency_key = idempotency_key;
          job_id = job_id;
          job_name = job_name;
          result = result;
          created_at = now;
          expires_at = now + ttl_ms;
        }))

  abbrev pub record_of : Option Text → Settled (Option IdempotencyRecord)
  record_of none = returned none
  record_of (some text) = elim (o.records.parse text) [
    | threw error ↦ threw error
    | returned found ↦ returned (some found)
  ]

  -- `getExecutionResult`
  unfoldable pub get_execution_result : (now : ℕ) → Text → Action S (Option IdempotencyRecord)
  get_execution_result now idempotency_key =
      or_return none
        (do text ← o.redis.get now (build_key idempotency_key); settle (record_of (present text)))

  -- `parseRecord`
  abbrev pub parse_record : Text → Option IdempotencyRecord
  parse_record text = elim (o.records.parse text) [
    | threw error ↦ none
    | returned found ↦ some found
  ]

  -- whether `cleanKeyIfExpired` goes on to delete the key
  abbrev pub is_expired : (now : ℕ) → Option Text → Bool
  is_expired now none = false
  is_expired now (some text) = elim (parse_record text) [
    | none ↦ false
    | some found ↦ if leb now found.expires_at then false else true
  ]

  abbrev pub remove_if : (now : ℕ) → Bool → Text → Action S Bool
  remove_if now false key = return false
  remove_if now true key = do o.redis.del now key; return true

  -- `cleanKeyIfExpired`
  unfoldable pub clean_key_if_expired : Text → (now : ℕ) → Action S Bool
  clean_key_if_expired key now =
      or_return false
        (do text ← o.redis.get now key; remove_if now (is_expired now (present text)) key)

  -- the loop of `cleanExpired`, with what it has counted
  unfoldable pub clean_all : (now : ℕ) → List Text → ℕ → Action S ℕ
  unfolding clean_key_if_expired
  clean_all now [] cleaned = return cleaned
  clean_all now (key ∷ keys) cleaned = do
    was_cleaned ← clean_key_if_expired key now
    clean_all now keys (if was_cleaned then cleaned + 1 else cleaned)

  -- `cleanExpired`; without keys the loop counts 0
  unfoldable pub clean_expired : (now : ℕ) → Action S ℕ
  unfolding clean_all
  clean_expired now =
      or_return 0
        (do keys ← o.redis.keys now (o.key_prefix ++ (58 ∷ star ∷ [])); clean_all now keys 0)

  -- `clear`
  unfoldable pub clear : (now : ℕ) → Text → Action S (Unit {0})
  clear now idempotency_key = o.redis.del now (build_key idempotency_key)
