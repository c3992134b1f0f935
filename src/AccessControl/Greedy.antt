-- ===== src/AccessControl/Greedy.antt =====
-- The loop over the parts of a pattern, which takes the first place for each part.
use job_queue.Prelude.{
  ℕ, suc, zero, ◌+◌, ◌≤◌, ◌≡◌, ◌∙◌, refl, sym, ap, false, Option, none, some, List, [], ◌∷◌, arith,
  length, Option-cases, inl, inr,
}
use job_queue.AccessControl.{Text, strip, is_some, drop, index_in, index_of, scan}

-- What follows the first place of a part, if it has one.
abbrev pub find : Text → Text → Option Text
find l [] = strip l []
find l (y ∷ v) = let later = find l v in elim (strip l (y ∷ v)) [ some r ↦ some r | none ↦ later ]

-- What follows the places of all parts.
abbrev pub greedy : List Text → Text → Option Text
greedy [] v = some v
greedy (l ∷ ls) v = elim (find l v) [ none ↦ none | some r ↦ greedy ls r ]

drop-nil : (n : ℕ) → drop n [] ≡ []
drop-nil zero = refl
drop-nil (suc n) = refl

pub drop-drop : (a b : ℕ) (v : Text) → drop b (drop a v) ≡ drop (a + b) v
drop-drop zero b v = ap (λ n. drop n v) (omega arith)
drop-drop (suc a) b [] = drop-nil b ∙ sym (drop-nil (suc a + b))
drop-drop (suc a) b (y ∷ v) =
    drop-drop a b v ∙ ap (λ n. drop n (y ∷ v)) {x = suc (a + b)} {y = suc a + b} (omega arith)

pub length-drop : (n : ℕ) (v : Text) → length (drop n v) ≤ length v
length-drop zero v = omega arith
length-drop (suc n) [] = omega arith
length-drop (suc n) (y ∷ v) = omega (arith, length-drop n v)

pub drop-cons : (i n y : ℕ) (v : Text) → drop i (drop n v) ≡ drop (suc i) (drop n (y ∷ v))
drop-cons i zero y v = refl
drop-cons i (suc n) y [] = drop-nil i ∙ sym (ap (drop (suc i)) (drop-nil n))
drop-cons i (suc n) y (z ∷ v) = drop-cons i n z v

pub strip-some :
    (l v r : Text) → strip l v ≡ some r → (r ≡ drop (length l) v) × (length l + length r ≡ length v)
strip-some [] v r h = ground arith
strip-some (x ∷ l) [] r h = ground arith
strip-some (x ∷ l) (y ∷ v) r h = ground (arith, strip-some l v r)

-- Where `find` looks at a place.
pub find-here : (l v r : Text) → strip l v ≡ some r → find l v ≡ some r
find-here l [] r e = e
find-here l (y ∷ v) r e = rw (e, find) refl

pub find-later : (l : Text) (y : ℕ) (v : Text) → strip l (y ∷ v) ≡ none → find l (y ∷ v) ≡ find l v
find-later l y v e = rw (e, find) refl

pub find-some :
    (l v r : Text)
    → find l v ≡ some r
    → (i : ℕ) × ((r ≡ drop i (drop (length l) v)) × (length l + length r ≤ length v))
find-some l [] r h = (0, (ground (arith, strip-some l [] r h), ground (arith, strip-some l [] r h)))
find-some l (y ∷ v) r h = elim (Option-cases (strip l (y ∷ v))) [
  | inl e ↦
      let (i, facts) = find-some l v r (sym (find-later l y v e) ∙ h) in
      (suc i, (facts.0 ∙ drop-cons i (length l) y v, ground (arith, facts)))
  | inr (w, e) ↦
      let same : w ≡ r = ground (arith, sym (find-here l (y ∷ v) w e) ∙ h) in
      let facts = strip-some l (y ∷ v) w e in (0, (sym same ∙ facts.0, ground (arith, facts, same)))
]

abbrev after_index : Text → Text → Option ℕ → Option Text
after_index l v none = none
after_index l v (some i) = some (drop (i + length l) v)

index-here : (l v w : Text) → strip l v ≡ some w → index_in l v ≡ some 0
index-here l [] w e = rw (e, index_in) refl
index-here l (y ∷ v) w e = rw (e, index_in) refl

abbrev next_index : Option ℕ → Option ℕ
next_index none = none
next_index (some i) = some (1 + i)

index-later :
    (l : Text) (y : ℕ) (v : Text)
    → strip l (y ∷ v) ≡ none
    → index_in l (y ∷ v) ≡ next_index (index_in l v)
index-later l y v e = rw (e, index_in) (ground arith)

after-next_index :
    (l : Text) (y : ℕ) (v : Text) (o : Option ℕ)
    → after_index l (y ∷ v) (next_index o) ≡ after_index l v o
after-next_index l y v none = refl
after-next_index l y v (some i) =
    ap (λ n. some (drop n (y ∷ v))) {x = 1 + i + length l} {y = suc (i + length l)} (omega arith)

after-here : (l v w : Text) → strip l v ≡ some w → after_index l v (some 0) ≡ some w
after-here l v w e = ap some (
    ap (λ n. drop n v) {x = 0 + length l} {y = length l} (omega arith) ∙ sym (strip-some l v w e).0)

index_in-find : (l v : Text) → after_index l v (index_in l v) ≡ find l v
index_in-find l [] = elim (Option-cases (strip l [])) [
  | inl e ↦ rw e refl
  | inr (w, e) ↦ rw (index-here l [] w e) (after-here l [] w e ∙ sym e)
]
index_in-find l (y ∷ v) = elim (Option-cases (strip l (y ∷ v))) [
  | inl e ↦
      rw (index-later l y v e)
        (after-next_index l y v (index_in l v) ∙ index_in-find l v ∙ sym (find-later l y v e))
  | inr (w, e) ↦
      rw (index-here l (y ∷ v) w e) (after-here l (y ∷ v) w e ∙ sym (find-here l (y ∷ v) w e))
]

pub greedy-none :
    (l : Text) (ls : List Text) (v : Text) → find l v ≡ none → greedy (l ∷ ls) v ≡ none
greedy-none l ls v e = rw (e, greedy) refl

pub greedy-some :
    (l : Text) (ls : List Text) (v r : Text) → find l v ≡ some r → greedy (l ∷ ls) v ≡ greedy ls r
greedy-some l ls v r e = rw (e, greedy) refl

scan-none :
    (l : Text) (ls : List Text) (v : Text) (n : ℕ)
    → index_in l (drop n v) ≡ none
    → scan (l ∷ ls) v n ≡ false
unfolding scan
scan-none l ls v n e = rw (e, index_of, scan) refl

scan-some :
    (l : Text) (ls : List Text) (v : Text) (n i : ℕ)
    → index_in l (drop n v) ≡ some i
    → scan (l ∷ ls) v n ≡ scan ls v (n + i + length l)
unfolding scan
scan-some l ls v n i e = rw (e, index_of, scan) refl

-- The loop of the code succeeds if each part has a place after those before it.
pub scan-greedy : (ls : List Text) (v : Text) (n : ℕ) → scan ls v n ≡ is_some (greedy ls (drop n v))
unfolding scan
scan-greedy [] v n = refl
scan-greedy (l ∷ ls) v n = elim (Option-cases (index_in l (drop n v))) [
  | inl e ↦
      let missing : find l (drop n v) ≡ none =
        sym (index_in-find l (drop n v)) ∙ ap (after_index l (drop n v)) e in
      scan-none l ls v n e ∙ ap is_some (sym (greedy-none l ls (drop n v) missing))
  | inr (i, e) ↦
      let found : find l (drop n v) ≡ some (drop (i + length l) (drop n v)) =
        sym (index_in-find l (drop n v)) ∙ ap (after_index l (drop n v)) e in
      scan-some l ls v n i e
      ∙ scan-greedy ls v (n + i + length l)
      ∙ ap (λ w. is_some (greedy ls w))
          (ap (λ k. drop k v) {x = n + i + length l} {y = n + (i + length l)} (omega arith)
            ∙ sym (drop-drop n (i + length l) v))
      ∙ ap is_some (sym (greedy-some l ls (drop n v) _ found))
]
