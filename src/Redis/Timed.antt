-- ===== src/Redis/Timed.antt =====
-- Redis with expiry: the commands at a time, by the clock of Redis in milliseconds, which the
-- processes are taken to share. `setex` is `SETEX`, and `SET` with `EX`: the text stands under its key
-- for that many seconds, which must be at least one.
use job_queue.Prelude.{
  ℕ, ◌+◌, ◌*◌, ◌≤◌, ◌≡◌, ◌∙◌, refl, ap, arith, Bool, true, false, Option, none, some, List, [], ◌∷◌,
  leb, ltb, returned, threw, if◌then◌else◌, ◌==◌,
}
use job_queue.AccessControl.{Text, starts_with}
use job_queue.JsMap
use job_queue.JsMap.{JsMap}
use job_queue.JsMap.Laws.{get-set, get-delete}
use job_queue.Redis.{Action, text_eq}
use job_queue.Redis.Memory.{all_but_last}

pub record TimedRedis (S : Type 0) : Type 0 where
  pub get : (now : ℕ) → Text → Action S (Option Text)
  pub setex : (now : ℕ) → Text → (seconds : ℕ) → Text → Action S (Unit {0})
  pub del : (now : ℕ) → Text → Action S (Unit {0})
  pub keys : (now : ℕ) → Text → Action S (List Text)

-- What a text that was written at a time, for some seconds, is at a later one.
abbrev pub until : (now seconds later : ℕ) → Text → Option Text
until now seconds later text = if leb later (now + 1000 * seconds) then some text else none

-- A Redis that answers every command; `look` is what it holds at a time from the command on.
pub record TimedAnswers {S : Type 0} (r : TimedRedis S) : Type 0 where
  pub look : ℕ → Text → S → Option Text
  pub get_lem : (now : ℕ) (k : Text) (s : S) → r.get now k s ≡ (s, returned (look now k s))
  pub setex_lem :
      (now : ℕ) (k : Text) (seconds : ℕ) (v : Text) (s : S)
      → 1 ≤ seconds
      → (r.setex now k seconds v s).1 ≡ returned tt
  pub look-setex :
      (now later : ℕ) (j k : Text) (seconds : ℕ) (v : Text) (s : S)
      → 1 ≤ seconds
      → now ≤ later
      → look later j (r.setex now k seconds v s).0
        ≡ (if k == j then until now seconds later v else look later j s)
  pub look-del :
      (now later : ℕ) (j k : Text) (s : S)
      → now ≤ later
      → look later j (r.del now k s).0 ≡ (if k == j then none else look later j s)
  pub keys_lem :
      (now : ℕ) (p : Text) (s : S) → (ks : List Text) × (r.keys now p s ≡ (s, returned ks))

-- A Redis in memory: under each key a text, and the last time at which it is there.
abbrev pub alive : ℕ → Option (Text × ℕ) → Option Text
alive now none = none
alive now (some (text, last)) = if leb now last then some text else none

abbrev pub timed_keys : ℕ → Text → JsMap Text (Text × ℕ) → List Text
timed_keys now p [] = []
timed_keys now p ((k, (v, last)) ∷ m) =
    let rest = timed_keys now p m in
    if starts_with p k then (if leb now last then k ∷ rest else rest) else rest

abbrev pub timed_memory : TimedRedis (JsMap Text (Text × ℕ))
timed_memory = record {
  get = λ now k m. (m, returned (alive now (JsMap.get k m)));
  setex = λ now k seconds v m.
      if ltb 0 seconds
      then (JsMap.set k (v, now + 1000 * seconds) m, returned tt)
      else (m, threw "ERR invalid expire time in 'setex' command");
  del = λ now k m. (JsMap.delete k m, returned tt);
  keys = λ now p m. (m, returned (timed_keys now (all_but_last p) m));
}

pub alive_if :
    (b : Bool) (later last : ℕ) (v : Text) (old : Option (Text × ℕ))
    → alive later (if b then some (v, last) else old)
      ≡ (if b then (if leb later last then some v else none) else alive later old)
alive_if true later last v old = refl
alive_if false later last v old = refl

pub alive_unless :
    (b : Bool) (later : ℕ) (old : Option (Text × ℕ))
    → alive later (if b then none else old) ≡ (if b then none else alive later old)
alive_unless true later old = refl
alive_unless false later old = refl

pub positive : (n : ℕ) → 1 ≤ n → ltb 0 n ≡ true
positive n h = ground (arith, h)

abbrev pub timed_memory_answers : TimedAnswers timed_memory
timed_memory_answers = record {
  look = λ now k m. alive now (JsMap.get k m);
  get_lem = λ now k s. refl;
  setex_lem = λ now k seconds v s h. rw (positive seconds h) refl;
  look-setex = λ now later j k seconds v s h order. rw (positive seconds h) (
      ap (alive later) (get-set k j (v, now + 1000 * seconds) s)
      ∙ alive_if (k == j) later (now + 1000 * seconds) v (JsMap.get j s));
  look-del = λ now later j k s order.
      ap (alive later) (get-delete k j s) ∙ alive_unless (k == j) later (JsMap.get j s);
  keys_lem = λ now p s. (timed_keys now (all_but_last p) s, refl);
}
