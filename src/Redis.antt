-- ===== src/Redis.antt =====
-- What the managers use of ioredis: the commands, as methods that may fail, and what Redis documents
-- of them. Expiry is not in `Redis`: the managers that use it keep their keys for a year, or for good,
-- but the records of webhook deliveries, which they keep for a week. Redis/Timed has it. `Json`
-- is `JSON.stringify` and `JSON.parse` at a type.
pub mod Memory
pub mod Timed
pub use job_queue.Prelude.{
  Action, bind_settled, ◌>>=◌, ◌>>◌, return, throw, modify, settle, caught, or_return, after_bind,
  after_caught,
}
use job_queue.Prelude.{
  ℕ, String, Bool, true, false, Option, none, some, List, [], ◌∷◌, ◌++◌, ◌≡◌, ◌↔◌, Member, Settled,
  returned, threw, if◌then◌else◌, ◌==◌, Eq, nat_eq,
}
use job_queue.AccessControl.{Text, text_beq, star, starts_with}
use job_queue.AccessControl.Split.{text_beq-equal, text_beq_refl}

instance abbrev pub text_eq : Eq Text
text_eq = record { beq = text_beq; beq_iff = λ a b. (text_beq-equal a b, text_beq_refl a b) }

-- `if (!data)` of what `get` returns: also an empty string is no data.
abbrev pub present : Option Text → Option Text
present none = none
present (some []) = none
present (some (c ∷ text)) = some (c ∷ text)

pub record Redis (S : Type 0) : Type 0 where
  pub get : Text → Action S (Option Text)
  pub set : Text → Text → Action S (Unit {0})
  pub del : Text → Action S (Unit {0})
  pub keys : Text → Action S (List Text)

-- The characters that mean themselves in a pattern of `KEYS`
abbrev pub is_literal : Text → Bool
is_literal [] = true
is_literal (c ∷ p) =
    let rest = is_literal p in
    if c == star
    then false
    else if c == 63
    then false
    else if c == 91
    then false
    else if c == 92
    then false
    else rest

abbrev pub IsThere : {A : Type 0} → Option A → Type 0
IsThere none = ⊥
IsThere (some a) = Unit

-- A Redis that answers every command; `look` is what it holds.
pub record Answers {S : Type 0} (r : Redis S) : Type 0 where
  pub look : Text → S → Option Text
  pub get_lem : (k : Text) (s : S) → r.get k s ≡ (s, returned (look k s))
  pub set_lem : (k v : Text) (s : S) → (r.set k v s).1 ≡ returned tt
  pub look-set :
      (j k v : Text) (s : S) → look j (r.set k v s).0 ≡ (if k == j then some v else look j s)
  pub del_lem : (k : Text) (s : S) → (r.del k s).1 ≡ returned tt
  pub look-del : (j k : Text) (s : S) → look j (r.del k s).0 ≡ (if k == j then none else look j s)
  pub keys_lem : (p : Text) (s : S) → (ks : List Text) × (r.keys p s ≡ (s, returned ks))
  pub keys_iff :
      (p k : Text) (s : S)
      → is_literal p ≡ true
      → Member k (keys_lem (p ++ (star ∷ [])) s).0 ↔ (IsThere (look k s) × (starts_with p k ≡ true))

-- JSON of values of a type. `stored` is what is left of a value: functions are left out.
pub record Json (A : Type 0) : Type 0 where
  pub stringify : A → Text
  pub parse : Text → Settled A
  pub stored : A → A
  pub present-stringify : (a : A) → present (some (stringify a)) ≡ some (stringify a)
  pub parse-stringify : (a : A) → parse (stringify a) ≡ returned (stored a)
