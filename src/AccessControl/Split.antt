-- ===== src/AccessControl/Split.antt =====
-- How `split`, `startsWith` and `endsWith` on a pattern tell where its stars are.
use job_queue.Prelude.{
  subst, ℕ, ◌≡◌, ◌∙◌, refl, sym, ap, Bool, true, false, ◌||◌, List, [], ◌∷◌, arith, nat_beq,
  nat_beq_iff, Bool-cases, ◌⊎◌, inl, inr,
}
use job_queue.AccessControl.{
  Text, star, text_beq, starts_with, ends_with, includes_star, cons_head, split, non_empty, last_of,
}
use job_queue.AccessControl.Glob.{any_suffix, glob, split-cases}
use job_queue.AccessControl.Stars.{ends_with-nil}

pub text_beq-equal : (a b : Text) → text_beq a b ≡ true → a ≡ b
text_beq-equal [] [] h = refl
text_beq-equal [] (y ∷ b) h = ground (arith, h)
text_beq-equal (x ∷ a) [] h = ground (arith, h)
text_beq-equal (x ∷ a) (y ∷ b) h = ground (arith, h, nat_beq_iff x y, text_beq-equal a b)

pub text_beq_self : (a : Text) → text_beq a a ≡ true
text_beq_self [] = refl
text_beq_self (x ∷ a) = ground (arith, nat_beq_iff x x, text_beq_self a)

pub text_beq_refl : (a b : Text) → a ≡ b → text_beq a b ≡ true
text_beq_refl a b h = subst (λ c. text_beq a c ≡ true) h (text_beq_self a)

pub any_suffix-end : (v : Text) → any_suffix (glob []) v ≡ true
any_suffix-end [] = refl
any_suffix-end (y ∷ v) = ground (arith, any_suffix-end v)

any_suffix-whole : (f : Text → Bool) (v : Text) → f v ≡ true → any_suffix f v ≡ true
any_suffix-whole f [] h = h
any_suffix-whole f (y ∷ v) h = ground (arith, h)

pub glob_self : (p : Text) → glob p p ≡ true
glob_self [] = refl
glob_self (x ∷ p) = elim (Bool-cases (nat_beq x star)) [
  | inl h ↦ rw h (ground (arith, any_suffix-whole (glob p) p (glob_self p)))
  | inr h ↦ rw h (ground (arith, nat_beq_iff x x, glob_self p))
]

pub glob-plain : (p v : Text) → includes_star p ≡ false → glob p v ≡ text_beq v p
glob-plain [] [] h = refl
glob-plain [] (y ∷ v) h = refl
glob-plain (x ∷ p) [] h = ground (arith, h)
glob-plain (x ∷ p) (y ∷ v) h = ground (arith, h, glob-plain p v, nat_beq_iff x y, nat_beq_iff y x)

-- A pattern with a star is split in two texts or more.
abbrev pub is_nil : Text → Bool
is_nil [] = true
is_nil (x ∷ l) = false

pub split-star_cases :
    (p : Text)
    → includes_star p ≡ true
    → (l : Text) × ((m : Text) × ((ms : List Text) × (split p ≡ l ∷ m ∷ ms)))
split-star_cases [] h = ground (arith, h)
split-star_cases (x ∷ p) h = elim (Bool-cases (nat_beq x star)) [
  | inl s ↦
      let (l, rest) = split-cases p in
      let (ls, e) = rest in ([], (l, (ls, rw s (ap (λ t. [] ∷ t) e))))
  | inr s ↦
      let (l, rest) = split-star_cases p (ground (arith, h, s)) in
      let (m, more) = rest in let (ms, e) = more in (x ∷ l, (m, (ms, rw s (ap (cons_head x) e))))
]

abbrev pub head_all : List Text → Text
head_all [] = []
head_all (l ∷ ls) = l

abbrev pub last_all : List Text → Text
last_all [] = []
last_all (l ∷ ls) = last_of l ls

head-cons_head : (x : ℕ) (ls : List Text) → is_nil (head_all (cons_head x ls)) ≡ false
head-cons_head x [] = refl
head-cons_head x (l ∷ ls) = refl

pub starts-split :
    (p : Text) → includes_star p ≡ true → starts_with (star ∷ []) p ≡ is_nil (head_all (split p))
starts-split [] h = ground (arith, h)
starts-split (x ∷ p) h = elim (Bool-cases (nat_beq x star)) [
  | inl s ↦ rw s (ground (arith, s, nat_beq_iff x star, nat_beq_iff star x))
  | inr s ↦
      rw s (
        rw (head-cons_head x (split p)) (ground (arith, s, nat_beq_iff x star, nat_beq_iff star x)))
]

split-plain :
    (p : Text) → includes_star p ≡ false → (split p ≡ p ∷ []) × (ends_with (star ∷ []) p ≡ false)
split-plain [] h = (refl, refl)
split-plain (x ∷ p) h =
    let plain = split-plain p (ground (arith, h)) in
    let unit : nat_beq x star ≡ false = ground (arith, h) in
    (rw unit (ap (cons_head x) plain.0), ground (arith, plain.1, unit))

text_beq-nil : (p : Text) → text_beq p [] ≡ is_nil p
text_beq-nil [] = refl
text_beq-nil (x ∷ p) = refl

pub includes_star-nil : (p : Text) → includes_star p ≡ true → is_nil p ≡ false
includes_star-nil [] h = sym h
includes_star-nil (x ∷ p) h = refl

pub ends-split : (p : Text) → is_nil (last_all (split p)) ≡ is_nil p || ends_with (star ∷ []) p
ends-split [] = refl
ends-split (x ∷ p) = elim (Bool-cases (nat_beq x star)) [
  | inl s ↦
      let (l, rest) = split-cases p in
      let (ls, e) = rest in
      rw s (
        ap (λ t. is_nil (last_of [] t)) e
        ∙ ap (λ t. is_nil (last_all t)) (sym e)
        ∙ ends-split p
        ∙ ap (λ b. b || ends_with (star ∷ []) p) (sym (text_beq-nil p)))
  | inr s ↦ elim (Bool-cases (includes_star p)) [
    | inl h ↦
        let (l, rest) = split-star_cases p h in
        let (m, more) = rest in
        let (ms, e) = more in
        rw s (
          ap (λ t. is_nil (last_all (cons_head x t))) e
          ∙ ap (λ t. is_nil (last_all t)) (sym e)
          ∙ ends-split p
          ∙ ap (λ b. b || ends_with (star ∷ []) p) (includes_star-nil p h))
    | inr h ↦
        let plain = split-plain p h in
        rw s (ap (λ t. is_nil (last_all (cons_head x t))) plain.0 ∙ sym plain.1)
  ]
]

pub non_empty-cases :
    (ls : List Text)
    → (non_empty ls ≡ []) ⊎ ((f : Text) × ((o : List Text) × (non_empty ls ≡ f ∷ o)))
non_empty-cases [] = inl refl
non_empty-cases ([] ∷ ls) = non_empty-cases ls
non_empty-cases ((x ∷ l) ∷ ls) = inr (x ∷ l, (non_empty ls, refl))

pub last_of-empty : (l : Text) (ls : List Text) → non_empty (l ∷ ls) ≡ [] → last_of l ls ≡ []
last_of-empty [] [] e = refl
last_of-empty [] (m ∷ ms) e = last_of-empty m ms e
last_of-empty (x ∷ l) ls e = ground (arith, e)

pub last-non_empty :
    (ls : List Text) (v : Text)
    → is_nil (last_all ls) || ends_with (last_all (non_empty ls)) v ≡ ends_with (last_all ls) v
last-non_empty [] v = sym (ends_with-nil v)
last-non_empty ([] ∷ []) v = sym (ends_with-nil v)
last-non_empty ((x ∷ l) ∷ []) v = refl
last-non_empty ([] ∷ m ∷ ms) v = last-non_empty (m ∷ ms) v
last-non_empty ((x ∷ l) ∷ m ∷ ms) v = elim (non_empty-cases (m ∷ ms)) [
  | inl e ↦ let none_last = last_of-empty m ms e in rw none_last (sym (ends_with-nil v))
  | inr (f, rest) ↦
      let (o, e) = rest in
      ap (λ t. is_nil (last_all (m ∷ ms)) || ends_with (last_of (x ∷ l) t) v) e
      ∙ ap (λ t. is_nil (last_all (m ∷ ms)) || ends_with (last_all t) v) (sym e)
      ∙ last-non_empty (m ∷ ms) v
]
