-- ===== src/AccessControl/Stars.antt =====
-- The first place for a part is as good as any later one: the parts of a pattern against `glob`.
use job_queue.Prelude.{
  ℕ, suc, zero, ◌+◌, ◌≤◌, ◌≡◌, ◌∙◌, refl, sym, ap, subst, Bool, true, ◌&&◌, some, List, [], ◌∷◌,
  arith, nat_beq_iff, length, Bool-cases, Option-cases, inl, inr,
}
use job_queue.AccessControl.{Text, text_beq, strip, is_some, ends_with, drop, non_empty, last_of}
use job_queue.AccessControl.Glob.{any_suffix, after, starred}
use job_queue.AccessControl.Greedy.{
  find, find-here, find-later, find-some, strip-some, greedy, greedy-none, greedy-some, length-drop,
  drop-cons, drop-drop,
}

-- A test that stays true when a text is made longer at the front.
abbrev Closed : (Text → Bool) → Type 0
Closed f = (y : ℕ) (v : Text) → f v ≡ true → f (y ∷ v) ≡ true

drop-Closed : (f : Text → Bool) → Closed f → (n : ℕ) (v : Text) → f (drop n v) ≡ true → f v ≡ true
drop-Closed f c zero v h = h
drop-Closed f c (suc n) [] h = h
drop-Closed f c (suc n) (y ∷ v) h = c y v (drop-Closed f c n v h)

any_suffix-Closed : (f : Text → Bool) → Closed (any_suffix f)
any_suffix-Closed f y v h = ground (arith, h)

any_suffix_absorbs : (f : Text → Bool) → Closed f → (v : Text) → any_suffix f v ≡ f v
any_suffix_absorbs f c [] = refl
any_suffix_absorbs f c (y ∷ v) = elim (Bool-cases (f v)) [
  | inl h ↦ ground (arith, any_suffix_absorbs f c v, c y v h, h)
  | inr h ↦ ground (arith, any_suffix_absorbs f c v, h)
]

later :
    (f : Text → Bool)
    → Closed f
    → (l : Text) (y : ℕ) (v r : Text) → strip l (y ∷ v) ≡ some r
    → after f (find l v) ≡ true
    → f r ≡ true
later f c l y v r e h = elim (Option-cases (find l v)) [
  | inl missing ↦ ground (arith, sym (ap (after f) missing) ∙ h)
  | inr (w, found) ↦
      let (i, place) = find-some l v w found in
      ap f (strip-some l (y ∷ v) r e).0
      ∙ drop-Closed f c (suc i) (drop (length l) (y ∷ v))
          (ap f (sym (drop-cons i (length l) y v) ∙ sym place.0) ∙ sym (ap (after f) found) ∙ h)
]

-- Of the places for a part, the first leaves most to the parts after it.
any_suffix-find :
    (f : Text → Bool)
    → Closed f
    → (l v : Text) → any_suffix (λ s. after f (strip l s)) v ≡ after f (find l v)
any_suffix-find f c l [] = refl
any_suffix-find f c l (y ∷ v) = elim (Option-cases (strip l (y ∷ v))) [
  | inl e ↦ rw e (any_suffix-find f c l v ∙ ap (after f) (sym (find-later l y v e)))
  | inr (r, e) ↦
      rw e (
        rw (find-here l (y ∷ v) r e) (ground (arith, any_suffix-find f c l v, later f c l y v r e)))
]

-- A last part, after a star, is to be at the end.
strip-exact : (l s : Text) → after (starred []) (strip l s) ≡ text_beq s l
strip-exact [] s = refl
strip-exact (x ∷ l) [] = refl
strip-exact (x ∷ l) (y ∷ s) = ground (arith, strip-exact l s, nat_beq_iff x y, nat_beq_iff y x)

ends_with-any_suffix :
    (l v : Text) → any_suffix (λ s. after (starred []) (strip l s)) v ≡ ends_with l v
ends_with-any_suffix l [] = strip-exact l []
ends_with-any_suffix l (y ∷ v) = ground (arith, strip-exact l (y ∷ v), ends_with-any_suffix l v)

text_beq-length : (a b : Text) → text_beq a b ≡ true → length a ≡ length b
text_beq-length [] [] h = refl
text_beq-length [] (y ∷ b) h = ground (arith, h)
text_beq-length (x ∷ a) [] h = ground (arith, h)
text_beq-length (x ∷ a) (y ∷ b) h = ground (arith, h, text_beq-length a b)

-- A part that fits in what is left is at the end of it if it is at the end of the whole.
ends_with-drop :
    (l v : Text) (n : ℕ) → length l ≤ length (drop n v) → ends_with l (drop n v) ≡ ends_with l v
ends_with-drop l v zero h = refl
ends_with-drop l [] (suc n) h = refl
ends_with-drop l (y ∷ v) (suc n) h =
    ground (arith, h, ends_with-drop l v n h, text_beq-length (y ∷ v) l, length-drop n v)

ends_with-find : (l v : Text) → ends_with l v ≡ true → is_some (find l v) ≡ true
ends_with-find [] [] h = refl
ends_with-find (x ∷ l) [] h = ground (arith, h)
ends_with-find l (y ∷ v) h = elim (Option-cases (strip l (y ∷ v))) [
  | inr (r, e) ↦ ap is_some (find-here l (y ∷ v) r e)
  | inl e ↦
      ap is_some (find-later l y v e)
      ∙ ends_with-find l v
          (ground (arith, h, sym (strip-exact l (y ∷ v)), ap (after (starred [])) e))
]

-- If all parts have a place, the first has one, and the others after it.
found_of :
    (p : Text) (qs : List Text) (v : Text)
    → is_some (greedy (p ∷ qs) v) ≡ true
    → (r : Text) × ((find p v ≡ some r) × (is_some (greedy qs r) ≡ true))
found_of p qs v h = elim (Option-cases (find p v)) [
  | inl e ↦ ground (arith, sym (ap is_some (greedy-none p qs v e)) ∙ h)
  | inr (r, e) ↦ (r, (e, sym (ap is_some (greedy-some p qs v r e)) ∙ h))
]

-- The last part fits in what is read if all parts have a place.
length-last_of :
    (l : Text) (ls : List Text) (v : Text)
    → is_some (greedy (non_empty (l ∷ ls)) v) ≡ true
    → length (last_of l ls) ≤ length v
length-last_of [] [] v h = ground arith
length-last_of (x ∷ l) [] v h =
    let (r, facts) = found_of (x ∷ l) [] v h in
    let (i, place) = find-some (x ∷ l) v r facts.0 in omega (arith, place.1)
length-last_of [] (m ∷ ms) v h = length-last_of m ms v h
length-last_of (x ∷ l) (m ∷ ms) v h =
    let (r, facts) = found_of (x ∷ l) (non_empty (m ∷ ms)) v h in
    let (i, place) = find-some (x ∷ l) v r facts.0 in
    omega (arith, place.1, length-last_of m ms r facts.1)

pub ends_with-nil : (v : Text) → ends_with [] v ≡ true
ends_with-nil [] = refl
ends_with-nil (y ∷ v) = ground (arith, ends_with-nil v)

-- The end of what is left after a place is the end of the whole.
pub ends_with-found :
    (p m : Text) (ms : List Text) (v r : Text)
    → find p v ≡ some r
    → is_some (greedy (non_empty (m ∷ ms)) r) && ends_with (last_of m ms) r
      ≡ is_some (greedy (non_empty (m ∷ ms)) r) && ends_with (last_of m ms) v
ends_with-found p m ms v r e = elim (Bool-cases (is_some (greedy (non_empty (m ∷ ms)) r))) [
  | inr h ↦ rw h refl
  | inl h ↦
      let (i, place) = find-some p v r e in
      let same : r ≡ drop (length p + i) v = place.0 ∙ drop-drop (length p) i v in
      let fits = length-last_of m ms r h in
      rw h (
        ap (ends_with (last_of m ms)) same
        ∙ ends_with-drop (last_of m ms) v (length p + i)
            (subst (λ w. length (last_of m ms) ≤ length w) same fits))
]

-- The parts after a star match as the code says.
pub starred-greedy :
    (l : Text) (ls : List Text) (v : Text)
    → starred (l ∷ ls) v ≡ is_some (greedy (non_empty (l ∷ ls)) v) && ends_with (last_of l ls) v
starred-greedy [] [] v = ends_with-any_suffix [] v
starred-greedy (x ∷ l) [] v = elim (Bool-cases (ends_with (x ∷ l) v)) [
  | inr h ↦ ends_with-any_suffix (x ∷ l) v ∙ rw h (ground arith)
  | inl h ↦ elim (Option-cases (find (x ∷ l) v)) [
    | inl e ↦ ground (arith, sym (ap is_some e) ∙ ends_with-find (x ∷ l) v h)
    | inr (r, e) ↦
        ends_with-any_suffix (x ∷ l) v
        ∙ ground (arith, h, ap is_some (greedy-some (x ∷ l) [] v r e))
  ]
]
starred-greedy [] (m ∷ ms) v =
    any_suffix_absorbs (starred (m ∷ ms)) (any_suffix-Closed (λ s. after (starred ms) (strip m s)))
      v
    ∙ starred-greedy m ms v
starred-greedy (x ∷ l) (m ∷ ms) v =
    any_suffix-find (starred (m ∷ ms)) (any_suffix-Closed (λ s. after (starred ms) (strip m s)))
      (x ∷ l) v
    ∙ elim (Option-cases (find (x ∷ l) v)) [
      | inl e ↦
          ap (after (starred (m ∷ ms))) e
          ∙ ground (arith, ap is_some (greedy-none (x ∷ l) (non_empty (m ∷ ms)) v e))
      | inr (r, e) ↦
          ap (after (starred (m ∷ ms))) e
          ∙ starred-greedy m ms r
          ∙ ends_with-found (x ∷ l) m ms v r e
          ∙ ap (λ b. b && ends_with (last_of m ms) v)
              (sym (ap is_some (greedy-some (x ∷ l) (non_empty (m ∷ ms)) v r e)))
    ]
