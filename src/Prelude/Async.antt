-- ===== src/Prelude/Async.antt =====
-- How a promise settles, or a method ends: with a value, or by an error with a message or a code.
use Prim.Native.String.{String}
use mathlib.Core.Path.{◌≡◌, refl}
use mathlib.Core.Logic.{◌⊎◌, inl, inr}

pub data Settled {ℓ} (A : Type ℓ) : Type ℓ where
  returned : A → Settled A
  threw : String → Settled A

pub Settled-cases :
    {A : Type 0} (r : Settled A) → ((a : A) × (r ≡ returned a)) ⊎ ((e : String) × (r ≡ threw e))
Settled-cases (returned a) = inl (a, refl)
Settled-cases (threw e) = inr (e, refl)

pub returned_injective : {A : Type 0} {a b : A} → returned a ≡ returned b → a ≡ b
returned_injective h = cc
