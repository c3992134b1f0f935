-- ===== src/Prelude/Monad.antt =====
-- Asynchronous methods of an object as functions of its state, for `do` blocks.
use Prim.Native.String.{String}
use job_queue.Prelude.Async.{Settled, returned, threw}

-- An asynchronous method of an object with state `S`: the state after it, and how it settles.
abbrev pub Action : Type 0 → Type 0 → Type 0
Action S A = S → S × Settled A

module _ {S : Type 0} where
  abbrev pub bind_settled : {A B : Type 0} → S × Settled A → (A → Action S B) → S × Settled B
  bind_settled (s, returned a) f = f a s
  bind_settled (s, threw error) f = (s, threw error)

  infixl 5 ◌>>=◌ ◌>>◌
  abbrev pub ◌>>=◌ : {A B : Type 0} → Action S A → (A → Action S B) → Action S B
  ◌>>=◌ m f s = bind_settled (m s) f

  abbrev pub ◌>>◌ : {B : Type 0} → Action S (Unit {0}) → Action S B → Action S B
  ◌>>◌ m k = m >>= λ _. k

  abbrev pub return : {A : Type 0} → A → Action S A
  return a s = (s, returned a)

  abbrev pub throw : {A : Type 0} → String → Action S A
  throw error s = (s, threw error)

  abbrev pub modify : (S → S) → Action S (Unit {0})
  modify f s = (f s, returned tt)

  -- a computed value that may be an error
  abbrev pub settle : {A : Type 0} → Settled A → Action S A
  settle a s = (s, a)

  -- `catch (error) { return fallback }`
  abbrev pub caught : {A : Type 0} → A → S × Settled A → S × Settled A
  caught fallback (s, returned a) = (s, returned a)
  caught fallback (s, threw error) = (s, returned fallback)

  abbrev pub or_return : {A : Type 0} → A → Action S A → Action S A
  or_return fallback m s = caught fallback (m s)

-- What holds of the state after a step holds after the next one, if that keeps it.
pub after_bind {κ} :
    {S A B : Type 0} (P : S → Type κ) (r : S × Settled A) (f : A → Action S B)
    → P r.0
    → ((a : A) (s : S) → P s → P (f a s).0)
    → P (bind_settled r f).0
after_bind P (s, returned a) f p h = h a s p
after_bind P (s, threw error) f p h = p

pub after_caught {κ} :
    {S A : Type 0} (P : S → Type κ) (a : A) (r : S × Settled A) → P r.0 → P (caught a r).0
after_caught P a (s, returned b) p = p
after_caught P a (s, threw error) p = p
