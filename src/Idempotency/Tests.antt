-- ===== src/Idempotency/Tests.antt =====
-- A record that stays until it expires.
use job_queue.Prelude.{
  ℕ, ◌≡◌, refl, none, some, [], ◌∷◌, ◌++◌, arith, length, take, Settled, returned, threw,
}
use job_queue.JsMap
use job_queue.JsMap.{JsMap}
use job_queue.AccessControl.{Text, drop}
use job_queue.AccessControl.Sample.{take_first, drop_first}
use job_queue.Redis.Timed.{timed_memory, timed_memory_answers}
use job_queue.Idempotency.{
  IdempotencyRecord, Outside, record_execution, get_execution_result, clean_key_if_expired,
  clean_all, clean_expired,
}
use job_queue.Idempotency.Cleaning.{result_survives}

abbrev record_text : IdempotencyRecord → Text
record_text r =
    length r.idempotency_key
    ∷ length r.job_id
    ∷ r.result
    ∷ r.created_at
    ∷ r.expires_at
    ∷ (r.idempotency_key ++ (r.job_id ++ r.job_name))

abbrev read_record : Text → Settled IdempotencyRecord
read_record (n ∷ k ∷ result ∷ created_at ∷ expires_at ∷ text) = returned record {
  idempotency_key = take n text;
  job_id = take k (drop n text);
  job_name = drop k (drop n text);
  result = result;
  created_at = created_at;
  expires_at = expires_at;
}
read_record _ = threw "SyntaxError"

pub read-record_text : (r : IdempotencyRecord) → read_record (record_text r) ≡ returned r
read-record_text r =
    rw
      (
        take_first r.idempotency_key (r.job_id ++ r.job_name),
        drop_first r.idempotency_key (r.job_id ++ r.job_name),
        take_first r.job_id r.job_name,
        drop_first r.job_id r.job_name,
      )
      refl

abbrev outside : Outside (JsMap Text (Text × ℕ))
outside = record {
  redis = timed_memory;
  key_prefix = 105 ∷ [];
  records = record {
    stringify = record_text;
    parse = read_record;
    stored = λ r. r;
    present-stringify = λ r. refl;
    parse-stringify = read-record_text;
  };
}

abbrev kept : IdempotencyRecord
kept = record {
  idempotency_key = 107 ∷ [];
  job_id = 49 ∷ [];
  job_name = 97 ∷ [];
  result = 8;
  created_at = 1000;
  expires_at = 1500;
}

result_survives_example :
    let recorded = record_execution outside 1000 (107 ∷ []) (49 ∷ []) (97 ∷ []) 8 500 [] in
    (recorded.1 ≡ returned tt)
    × ((get_execution_result outside 1450 (107 ∷ []) (clean_expired outside 1400 recorded.0).0).1
        ≡ returned (some kept))
result_survives_example =
    result_survives outside timed_memory_answers 1000 1400 1450 500 (107 ∷ []) (49 ∷ []) (97 ∷ []) 8
      [] refl (omega arith) (omega arith) (omega arith) (omega arith)

-- One millisecond after its span the record is cleaned, though Redis holds it longer.
expired_tests :
    let recorded = record_execution outside 1000 (107 ∷ []) (49 ∷ []) (97 ∷ []) 8 500 [] in
    ((get_execution_result outside 1501 (107 ∷ []) recorded.0).1 ≡ returned (some kept))
    × ((get_execution_result outside 1501 (107 ∷ []) (clean_expired outside 1501 recorded.0).0).1
        ≡ returned none)
    × ((record_execution outside 1000 (107 ∷ []) (49 ∷ []) (97 ∷ []) 8 0 []).1
        ≡ threw "ERR invalid expire time in 'setex' command")
unfolding get_execution_result clean_expired clean_all clean_key_if_expired record_execution
    JsMap.get JsMap.set JsMap.delete
expired_tests = (refl, refl, refl)
