-- ===== src/Prelude/Sort.antt =====
-- `Array.prototype.sort` with a comparator, which is stable, and the item that it puts first.
use Prim.Native.Nat.{ℕ, ◌≤◌}
use mathlib.Core.Path.{◌≡◌, refl, sym, ap, subst, ◌∙◌}
use mathlib.Core.Bool.{Bool, true, false}
use mathlib.Core.Option.{Option, none, some}
use mathlib.Core.List.{List, [], ◌∷◌}
use native.Mathlib.Omega.{arith}
use job_queue.Prelude.Tests.{ltb, if◌then◌else◌, Option-cases}
use mathlib.Core.Logic.{inl, inr}
use job_queue.Prelude.Lists.{All}

module _ {A : Type 0} (before : A → A → Bool) where
  -- `before a b` says that the comparator is negative at `a` and `b`.
  abbrev pub insert_sorted : A → List A → List A
  insert_sorted x [] = x ∷ []
  insert_sorted x (y ∷ ys) =
      let rest = insert_sorted x ys in if before y x then y ∷ rest else x ∷ y ∷ ys

  abbrev pub sort : List A → List A
  sort [] = []
  sort (x ∷ xs) = insert_sorted x (sort xs)

abbrev pub head? : {A : Type 0} → List A → Option A
head? [] = none
head? (x ∷ xs) = some x

pub some_injective : {A : Type 0} {a b : A} → some a ≡ some b → a ≡ b
some_injective h = cc

if-All {κ} : {A : Type 0} (P : A → Type κ) (b : Bool) {x y : A} → P x → P y → P (if b then x else y)
if-All P true p q = p
if-All P false p q = q

pub All-map {κ μ} :
    {A : Type 0} {P : A → Type κ} {Q : A → Type μ}
    → ((a : A) → P a → Q a)
    → (xs : List A) → All P xs
    → All Q xs
All-map f [] h = tt
All-map f (x ∷ xs) (p, ps) = (f x p, All-map f xs ps)

module _ {A : Type 0} (key : A → ℕ) where
  abbrev pub by_key : A → A → Bool
  by_key a b = ltb (key a) (key b)

  abbrev pub better : A → Option A → A
  better x none = x
  better x (some y) = if ltb (key y) (key x) then y else x

  -- The first of the items with the least key.
  abbrev pub best : List A → Option A
  best [] = none
  best (x ∷ xs) = some (better x (best xs))

  head-insert_sorted :
      (x : A) (ys : List A) → head? (insert_sorted by_key x ys) ≡ some (better x (head? ys))
  head-insert_sorted x [] = refl
  head-insert_sorted x (y ∷ ys) = ground arith

  pub head-sort : (xs : List A) → head? (sort by_key xs) ≡ best xs
  head-sort [] = refl
  head-sort (x ∷ xs) =
      head-insert_sorted x (sort by_key xs) ∙ ap (λ o. some (better x o)) (head-sort xs)

  -- What holds of every item holds of the one that is put first.
  pub All-best {κ} : (P : A → Type κ) (xs : List A) (b : A) → All P xs → best xs ≡ some b → P b
  All-best P [] b h e = cc
  All-best P (x ∷ xs) b (p, ps) e = elim (Option-cases (best xs)) [
    | inl empty ↦ subst P (some_injective (ap (λ o. some (better x o)) (sym empty) ∙ e)) p
    | inr (c, found) ↦
        subst P (some_injective (ap (λ o. some (better x o)) (sym found) ∙ e))
          (if-All P (ltb (key c) (key x)) (All-best P xs c ps found) p)
  ]

  -- It has the least key.
  pub best-le : (xs : List A) (b : A) → best xs ≡ some b → All (λ x. key b ≤ key x) xs
  best-le [] b e = tt
  best-le (x ∷ []) b e = (ground (arith, ap key (some_injective e)), tt)
  best-le (x ∷ y ∷ ys) b e =
      let c = better y (best ys) in
      let same : better x (some c) ≡ b = some_injective e in
      (
        ground (arith, ap key same),
        All-map (λ z (h : key c ≤ key z). ground (arith, ap key same)) (y ∷ ys)
            (best-le (y ∷ ys) c refl),
      )

  -- If there is an item, one is put first.
  pub best-some : (x : A) (xs : List A) → (b : A) × (best (x ∷ xs) ≡ some b)
  best-some x xs = (better x (best xs), refl)
