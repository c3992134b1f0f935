-- ===== src/AccessControl/Glob.antt =====
-- What it is for a name to match a pattern.
use job_queue.Prelude.{
  ℕ, ◌≡◌, ◌∙◌, refl, sym, ap, Bool, true, false, ◌||◌, ◌&&◌, Option, none, some, List, [], ◌∷◌,
  arith, nat_beq, if◌then◌else◌, Bool-cases, inl, inr,
}
use job_queue.AccessControl.{Text, star, text_beq, strip, cons_head, split}

-- Whether a test holds of a text or of what is left of it when it is read from the left.
abbrev pub any_suffix : (Text → Bool) → Text → Bool
any_suffix f [] = f []
any_suffix f (y ∷ v) = f (y ∷ v) || any_suffix f v

-- Whether a text matches a pattern: a star stands for any text, and any other unit for itself.
abbrev pub glob : Text → Text → Bool
glob [] [] = true
glob [] (y ∷ v) = false
glob (x ∷ p) v =
    if nat_beq x star
    then any_suffix (glob p) v
    else (elim v [ [] ↦ false | y ∷ w ↦ nat_beq x y && glob p w ])

abbrev pub after : (Text → Bool) → Option Text → Bool
after f none = false
after f (some v) = f v

-- The texts between the stars, each after a star.
abbrev pub starred : List Text → Text → Bool
starred [] v = text_beq v []
starred (l ∷ ls) v = any_suffix (λ s. after (starred ls) (strip l s)) v

-- The first of them at the start.
abbrev pub anchored : List Text → Text → Bool
anchored [] v = text_beq v []
anchored (l ∷ ls) v = after (starred ls) (strip l v)

pub any_suffix-cong :
    (f g : Text → Bool) (v : Text) → ((s : Text) → f s ≡ g s) → any_suffix f v ≡ any_suffix g v
any_suffix-cong f g [] h = h []
any_suffix-cong f g (y ∷ v) h = ground (arith, h (y ∷ v), any_suffix-cong f g v h)

pub split-cases : (p : Text) → (l : Text) × ((ls : List Text) × (split p ≡ l ∷ ls))
split-cases [] = ([], ([], refl))
split-cases (x ∷ p) =
    let (l, rest) = split-cases p in
    let (ls, e) = rest in
    elim (Bool-cases (nat_beq x star)) [
      | inl h ↦ ([], (split p, rw h refl))
      | inr h ↦ (x ∷ l, (ls, rw h (ap (cons_head x) e)))
    ]

starred-split : (p v : Text) → starred (split p) v ≡ any_suffix (anchored (split p)) v
starred-split p v = let (l, rest) = split-cases p in let (ls, e) = rest in rw e refl

split-star : (x : ℕ) (p : Text) → nat_beq x star ≡ true → split (x ∷ p) ≡ [] ∷ split p
split-star x p h = rw h refl

split-unit : (x : ℕ) (p : Text) → nat_beq x star ≡ false → split (x ∷ p) ≡ cons_head x (split p)
split-unit x p h = rw h refl

anchored-cons_head :
    (x y : ℕ) (p v : Text)
    → (anchored (cons_head x (split p)) [] ≡ false)
      × (anchored (cons_head x (split p)) (y ∷ v) ≡ nat_beq x y && anchored (split p) v)
anchored-cons_head x y p v =
    let (l, rest) = split-cases p in let (ls, e) = rest in rw e (refl, ground arith)

pub glob-split : (p v : Text) → glob p v ≡ anchored (split p) v
glob-split [] [] = refl
glob-split [] (y ∷ v) = refl
glob-split (x ∷ p) [] = elim (Bool-cases (nat_beq x star)) [
  | inl h ↦ rw (split-star x p h) (
      rw h (
        any_suffix-cong (glob p) (anchored (split p)) [] (glob-split p) ∙ sym (starred-split p [])))
  | inr h ↦ rw (split-unit x p h) (rw h (sym (anchored-cons_head x 0 p []).0))
]
glob-split (x ∷ p) (y ∷ v) = elim (Bool-cases (nat_beq x star)) [
  | inl h ↦ rw (split-star x p h) (
      rw h (
        any_suffix-cong (glob p) (anchored (split p)) (y ∷ v) (glob-split p)
        ∙ sym (starred-split p (y ∷ v))))
  | inr h ↦
      rw (split-unit x p h)
        (rw h (ap (λ b. nat_beq x y && b) (glob-split p v) ∙ sym (anchored-cons_head x y p v).1))
]
