-- ===== src/AccessControl/Match.antt =====
-- `matchesPattern` against what it is to match a pattern.
use job_queue.Prelude.{
  ℕ, ◌≡◌, ◌∙◌, refl, sym, ap, Bool, true, false, ◌||◌, ◌&&◌, List, [], ◌∷◌, arith, Bool-cases,
  Option-cases, inl, inr,
}
use job_queue.AccessControl.{
  Text, star, text_beq, strip, is_some, starts_with, ends_with, includes_star, split, non_empty,
  last_of, scan, matches_wildcard_pattern, matches_pattern,
}
use job_queue.AccessControl.Glob.{after, glob, starred, anchored, glob-split}
use job_queue.AccessControl.Greedy.{find-here, greedy, greedy-some, scan-greedy}
use job_queue.AccessControl.Stars.{ends_with-found, ends_with-nil, starred-greedy}
use job_queue.AccessControl.Split.{
  text_beq-equal, any_suffix-end, glob_self, glob-plain, is_nil, head_all, last_all,
  split-star_cases, starts-split, ends-split, includes_star-nil, non_empty-cases, last_of-empty,
  last-non_empty,
}

-- What the code computes from the texts between the stars.
abbrev by_parts : List Text → Text → Bool → Bool → Bool
by_parts [] v leading trailing = true
by_parts (first ∷ others) v leading trailing =
    scan (first ∷ others) v 0
    && ((leading || starts_with first v) && (trailing || ends_with (last_of first others) v))

by_parts-leading :
    (m : Text) (ms : List Text) (v : Text)
    → by_parts (non_empty (m ∷ ms)) v true (is_nil (last_of m ms)) ≡ starred (m ∷ ms) v
by_parts-leading m ms v = elim (non_empty-cases (m ∷ ms)) [
  | inl e ↦
      ap (λ t. by_parts t v true (is_nil (last_of m ms))) e
      ∙ sym (
          starred-greedy m ms v
          ∙ ap (λ t. is_some (greedy t v) && ends_with (last_of m ms) v) e
          ∙ ap (λ t. ends_with t v) (last_of-empty m ms e)
          ∙ ends_with-nil v)
  | inr (f, rest) ↦
      let (o, e) = rest in
      ap (λ t. by_parts t v true (is_nil (last_of m ms))) e
      ∙ ap (λ b. b && (is_nil (last_of m ms) || ends_with (last_of f o) v))
          (scan-greedy (f ∷ o) v 0)
      ∙ ap (λ t. is_some (greedy t v) && (is_nil (last_of m ms) || ends_with (last_all t) v))
          (sym e)
      ∙ ap (λ b. is_some (greedy (non_empty (m ∷ ms)) v) && b) (last-non_empty (m ∷ ms) v)
      ∙ sym (starred-greedy m ms v)
]

by_parts-start :
    (x : ℕ) (l m : Text) (ms : List Text) (v : Text)
    → by_parts ((x ∷ l) ∷ non_empty (m ∷ ms)) v false (is_nil (last_of m ms))
      ≡ after (starred (m ∷ ms)) (strip (x ∷ l) v)
by_parts-start x l m ms v = elim (Option-cases (strip (x ∷ l) v)) [
  | inl e ↦
      ap
        (λ o.
          scan ((x ∷ l) ∷ non_empty (m ∷ ms)) v 0
          && (is_some o
              && (is_nil (last_of m ms) || ends_with (last_of (x ∷ l) (non_empty (m ∷ ms))) v)))
        e
      ∙ ground arith
      ∙ sym (ap (after (starred (m ∷ ms))) e)
  | inr (r, e) ↦
      let found = find-here (x ∷ l) v r e in
      let placed =
        scan-greedy ((x ∷ l) ∷ non_empty (m ∷ ms)) v 0
        ∙ ap is_some (greedy-some (x ∷ l) (non_empty (m ∷ ms)) v r found) in
      let ended = last-non_empty ((x ∷ l) ∷ m ∷ ms) v in
      ground (arith, placed, ended, ap is_some e)
      ∙ sym (ends_with-found (x ∷ l) m ms v r found)
      ∙ sym (starred-greedy m ms r)
      ∙ sym (ap (after (starred (m ∷ ms))) e)
]

by_parts-split :
    (l m : Text) (ms : List Text) (v : Text)
    → by_parts (non_empty (l ∷ m ∷ ms)) v (is_nil l) (is_nil (last_of m ms))
      ≡ anchored (l ∷ m ∷ ms) v
by_parts-split [] m ms v = by_parts-leading m ms v
by_parts-split (x ∷ l) m ms v = by_parts-start x l m ms v

wildcard-by_parts :
    (v p : Text)
    → includes_star p ≡ true
    → matches_wildcard_pattern v p
      ≡ by_parts (non_empty (split p)) v (starts_with (star ∷ []) p) (ends_with (star ∷ []) p)
unfolding matches_wildcard_pattern
wildcard-by_parts v p h = elim (non_empty-cases (split p)) [
  | inl e ↦ ground (arith, h, e)
  | inr (f, rest) ↦ let (o, e) = rest in ground (arith, h, e)
]

wildcard-glob : (v p : Text) → includes_star p ≡ true → matches_wildcard_pattern v p ≡ glob p v
wildcard-glob v p h =
    let (l, rest) = split-star_cases p h in
    let (m, more) = rest in
    let (ms, e) = more in
    let leading = starts-split p h ∙ ap (λ t. is_nil (head_all t)) e in
    let trailing =
      sym (ends-split p ∙ ap (λ b. b || ends_with (star ∷ []) p) (includes_star-nil p h))
      ∙ ap (λ t. is_nil (last_all t)) e in
    wildcard-by_parts v p h
    ∙ ap (λ b. by_parts (non_empty (split p)) v b (ends_with (star ∷ []) p)) leading
    ∙ ap (λ b. by_parts (non_empty (split p)) v (is_nil l) b) trailing
    ∙ ap (λ t. by_parts (non_empty t) v (is_nil l) (is_nil (last_of m ms))) e
    ∙ by_parts-split l m ms v
    ∙ ap (λ t. anchored t v) (sym e)
    ∙ sym (glob-split p v)

wildcard-plain :
    (v p : Text) → includes_star p ≡ false → matches_wildcard_pattern v p ≡ text_beq v p
unfolding matches_wildcard_pattern
wildcard-plain v p h = rw h refl

matches_wildcard_lem : (v p : Text) → matches_wildcard_pattern v p ≡ glob p v
matches_wildcard_lem v p = elim (Bool-cases (includes_star p)) [
  | inl h ↦ wildcard-glob v p h
  | inr h ↦ wildcard-plain v p h ∙ sym (glob-plain p v h)
]

-- `matchesPattern` says of every name and every pattern whether they match: whether the name can be
-- read from the pattern, a star standing for any text, the empty one included, and every other code
-- unit for itself.
pub matches_pattern_lem :
    (value pattern : Text) → matches_pattern value pattern ≡ glob pattern value
unfolding matches_pattern
matches_pattern_lem value pattern = elim (Bool-cases (text_beq pattern (star ∷ []))) [
  | inl h ↦
      rw (h, matches_pattern)
        (sym (ap (λ p. glob p value) (text_beq-equal pattern (star ∷ []) h) ∙ any_suffix-end value))
  | inr h ↦ elim (Bool-cases (text_beq pattern value)) [
    | inl same ↦
        let e = text_beq-equal pattern value same in
        rw (h, matches_pattern)
          (rw same (sym (ap (λ v. glob pattern v) (sym e) ∙ glob_self pattern)))
    | inr other ↦ rw (h, matches_pattern) (rw other (matches_wildcard_lem value pattern))
  ]
]
