-- ===== src/Idempotency/Cleaning.antt =====
-- Cleaning leaves the records that have not expired.
use job_queue.Prelude.{
  ℕ, ◌+◌, ◌*◌, ◌/◌, leb, ◌≤◌, ◌≡◌, ◌∙◌, refl, ap, Bool, true, false, none, some, List, [], ◌∷◌,
  ◌++◌, arith, Bool-cases, inl, inr, if◌then◌else◌, ◌==◌, returned, return, after_bind,
  after_caught,
}
use job_queue.JobQueue.{Ref}
use job_queue.AccessControl.{Text, star}
use job_queue.JsMap.Laws.{beq_refl}
use job_queue.Redis.{present, text_eq}
use job_queue.Redis.Timed.{TimedAnswers}
use job_queue.Idempotency.{
  IdempotencyRecord, Outside, build_key, record_execution, get_execution_result, record_of,
  is_expired, remove_if, clean_key_if_expired, clean_all, clean_expired,
}

module _ {S : Type 0} (o : Outside S) (a : TimedAnswers o.redis) (now asked : ℕ) (id : Text)
    (r : IdempotencyRecord) (current : now ≤ (o.records.stored r).expires_at)
    (order : now ≤ asked) where
  -- Redis holds the record until it is asked for.
  abbrev Holds : S → Type 0
  Holds s =
      (t : ℕ) → now ≤ t → t ≤ asked → a.look t (build_key o id) s ≡ some (o.records.stringify r)

  not_expired : is_expired o now (present (some (o.records.stringify r))) ≡ false
  not_expired =
      rw (o.records.present-stringify r, is_expired, o.records.parse-stringify r)
        (ground (arith, current))

  clean_key-Holds : (key : Text) (s : S) → Holds s → Holds (clean_key_if_expired o key now s).0
  unfolding clean_key_if_expired
  clean_key-Holds key s h = elim (Bool-cases (key == build_key o id)) [
    | inl same ↦
        let e = (text_eq.beq_iff key (build_key o id)).0 same in
        rw
          (
            a.get_lem now key s,
            ap (λ k. a.look now k s) e ∙ h now (omega arith) order,
            not_expired,
            clean_key_if_expired,
          )
          h
    | inr other ↦
        rw (a.get_lem now key s, clean_key_if_expired)
          (after_caught Holds false _
            (after_remove (is_expired o now (present (a.look now key s))) other))
  ]
    where
      after_remove :
          (b : Bool) → (key == build_key o id) ≡ false → Holds (remove_if o now b key s).0
      after_remove false out = h
      after_remove true out =
          after_bind Holds (o.redis.del now key s) (λ u. return true)
            (λ t from to.
              a.look-del now t (build_key o id) key s from
              ∙ ap (λ (b : Bool). if b then none else a.look t (build_key o id) s) out
              ∙ h t from to)
            (λ u t g. g)

  clean_all-Holds :
      (keys : List Text) (n : ℕ) (s : S) → Holds s → Holds (clean_all o now keys n s).0
  unfolding clean_all
  clean_all-Holds [] n s h = h
  clean_all-Holds (key ∷ keys) n s h =
      after_bind Holds (clean_key_if_expired o key now s)
        (λ was_cleaned. clean_all o now keys (if was_cleaned then n + 1 else n))
        (clean_key-Holds key s h) (λ b t g. clean_all-Holds keys (if b then n + 1 else n) t g)

  clean_expired-Holds : (s : S) → Holds s → Holds (clean_expired o now s).0
  unfolding clean_expired
  clean_expired-Holds s h =
      let (keys, e) = a.keys_lem now (o.key_prefix ++ (58 ∷ star ∷ [])) s in
      rw (e, clean_expired)
        (after_caught Holds 0 (clean_all o now keys 0 s) (clean_all-Holds keys 0 s h))

  held_result :
      (s : S)
      → Holds s
      → (get_execution_result o asked id s).1 ≡ returned (some (o.records.stored r))
  unfolding get_execution_result
  held_result s h =
      rw
        (
          a.get_lem asked (build_key o id) s,
          h asked order (omega arith),
          o.records.present-stringify r,
          record_of,
          o.records.parse-stringify r,
          get_execution_result,
        )
        refl

not_later : (a b : ℕ) → a ≤ b → leb a b ≡ true
not_later a b h = ground (arith, h)

-- The seconds are rounded up.
covers : (ttl_ms : ℕ) → ttl_ms ≤ 1000 * ((ttl_ms + 999) / 1000)
covers ttl_ms = omega arith

module _ {S : Type 0} (o : Outside S) (a : TimedAnswers o.redis) where
  -- On a Redis that answers every command, if JSON keeps the expiry of a record, then what
  -- `recordExecution` has recorded for at least a millisecond is what `getExecutionResult` returns, as
  -- JSON gives it back, at any time up to the end of that span, also after `cleanExpired` on the way.
  pub result_survives :
      (now cleaned asked ttl_ms : ℕ) (id job_id job_name : Text) (result : Ref) (s : S)
      → let r : IdempotencyRecord = record {
        idempotency_key = id;
        job_id = job_id;
        job_name = job_name;
        result = result;
        created_at = now;
        expires_at = now + ttl_ms;
      } in
        (o.records.stored r).expires_at ≡ now + ttl_ms
        → 1 ≤ ttl_ms
        → now ≤ cleaned
        → cleaned ≤ asked
        → asked ≤ now + ttl_ms
        → let recorded = record_execution o now id job_id job_name result ttl_ms s in
          (recorded.1 ≡ returned tt)
          × ((get_execution_result o asked id (clean_expired o cleaned recorded.0).0).1
              ≡ returned (some (o.records.stored r)))
  unfolding record_execution
  result_survives now cleaned asked ttl_ms id job_id job_name result s kept some_time h g e =
      let r : IdempotencyRecord = record {
        idempotency_key = id;
        job_id = job_id;
        job_name = job_name;
        result = result;
        created_at = now;
        expires_at = now + ttl_ms;
      } in
      let t = (record_execution o now id job_id job_name result ttl_ms s).0 in
      let seconds = (ttl_ms + 999) / 1000 in
      let enough = covers ttl_ms in
      let one : 1 ≤ seconds = omega (arith, some_time, enough) in
      let current : cleaned ≤ (o.records.stored r).expires_at = omega (arith, kept, g, e) in
      let held : Holds o a cleaned asked id r current g t = λ t from to.
        a.look-setex now t (build_key o id) (build_key o id) seconds (o.records.stringify r) s one
          (omega (arith, h, from))
        ∙ rw
            (
              beq_refl (build_key o id),
              not_later t (now + 1000 * seconds) (omega (arith, e, enough, to)),
            )
            refl in
      (
        a.setex_lem now (build_key o id) seconds (o.records.stringify r) s one,
        held_result o a cleaned asked id r current g (clean_expired o cleaned t).0
            (clean_expired-Holds o a cleaned asked id r current g t held),
      )
