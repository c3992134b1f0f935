-- ===== src/AccessControl/Names.antt =====
-- Keys of entries: with principals that have no colon, a key says whose it is.
use job_queue.Prelude.{
  ◌≡◌, ◌∙◌, refl, sym, Bool, true, false, [], ◌∷◌, ◌++◌, arith, nat_beq_iff, if◌then◌else◌, ◌==◌,
  nat_eq,
}
use job_queue.Redis.{text_eq, is_literal}
use job_queue.AccessControl.{Text, star, text_beq, starts_with}
use job_queue.AccessControl.Split.{text_beq-equal}
use job_queue.AccessControl.Keys.{text_beq-append}
use job_queue.AccessControl.Store.{Outside, ace_key, ace_part}

-- No colon, and none of the characters that a pattern of Redis reads as more than themselves
abbrev pub is_plain : Text → Bool
is_plain [] = true
is_plain (c ∷ p) =
    let rest = is_plain p in
    if c == 58
    then false
    else if c == star
    then false
    else if c == 63
    then false
    else if c == 91
    then false
    else if c == 92
    then false
    else rest

pub plain_literal : (p : Text) → is_plain p ≡ true → is_literal p ≡ true
plain_literal [] h = refl
plain_literal (c ∷ p) h = ground (arith, plain_literal p, h)

pub literal-append :
    (p q : Text) → is_literal p ≡ true → is_literal q ≡ true → is_literal (p ++ q) ≡ true
literal-append [] q h g = g
literal-append (c ∷ p) q h g = ground (arith, literal-append p q, h, g)

pub starts_with-append : (x l v : Text) → starts_with (x ++ l) (x ++ v) ≡ starts_with l v
starts_with-append [] l v = refl
starts_with-append (c ∷ x) l v = ground (arith, nat_beq_iff c c, starts_with-append x l v)

pub starts_with_self : (x v : Text) → starts_with x (x ++ v) ≡ true
starts_with_self [] v = refl
starts_with_self (c ∷ x) v = ground (arith, nat_beq_iff c c, starts_with_self x v)

pub plain_owner :
    (p r q : Text)
    → is_plain p ≡ true
    → is_plain r ≡ true
    → starts_with (p ++ (58 ∷ [])) (r ++ (58 ∷ q)) ≡ true
    → p ≡ r
plain_owner [] [] q h g w = refl
plain_owner [] (d ∷ r) q h g w = ground (arith, h, g, w)
plain_owner (c ∷ p) [] q h g w = ground (arith, h, g, w)
plain_owner (c ∷ p) (d ∷ r) q h g w = ground (arith, h, g, w, plain_owner p r q, nat_beq_iff c d)

pub plain_pair :
    (p r q u : Text)
    → is_plain p ≡ true
    → is_plain r ≡ true
    → text_beq (p ++ (58 ∷ q)) (r ++ (58 ∷ u)) ≡ true
    → (p ≡ r) × (q ≡ u)
plain_pair [] [] q u h g w = (refl, ground (arith, w, text_beq-equal q u))
plain_pair [] (d ∷ r) q u h g w = ground (arith, h, g, w)
plain_pair (c ∷ p) [] q u h g w = ground (arith, h, g, w)
plain_pair (c ∷ p) (d ∷ r) q u h g w = ground (arith, h, g, w, plain_pair p r q u, nat_beq_iff c d)

module _ {S : Type 0} (o : Outside S) where
  -- What `getPrincipalAccess` asks for, without the star
  abbrev pub principal_prefix : Text → Text
  principal_prefix p = o.key_prefix ++ (ace_part ++ (p ++ (58 ∷ [])))

  pub ace_key_same :
      (p r q u : Text)
      → is_plain p ≡ true
      → is_plain r ≡ true
      → (ace_key o p q == ace_key o r u) ≡ true
      → (p ≡ r) × (q ≡ u)
  ace_key_same p r q u h g w = plain_pair p r q u h g (
      sym (
        text_beq-append o.key_prefix (ace_part ++ (p ++ (58 ∷ q))) (ace_part ++ (r ++ (58 ∷ u)))
        ∙ text_beq-append ace_part (p ++ (58 ∷ q)) (r ++ (58 ∷ u)))
      ∙ w)

  prefix_inner :
      (p r q : Text)
      → starts_with (principal_prefix p) (ace_key o r q)
        ≡ starts_with (p ++ (58 ∷ [])) (r ++ (58 ∷ q))
  prefix_inner p r q =
      starts_with-append o.key_prefix (ace_part ++ (p ++ (58 ∷ []))) (ace_part ++ (r ++ (58 ∷ q)))
      ∙ starts_with-append ace_part (p ++ (58 ∷ [])) (r ++ (58 ∷ q))

  pub prefix_owner :
      (p r q : Text)
      → is_plain p ≡ true
      → is_plain r ≡ true
      → starts_with (principal_prefix p) (ace_key o r q) ≡ true
      → p ≡ r
  prefix_owner p r q h g w = plain_owner p r q h g (sym (prefix_inner p r q) ∙ w)

  pub prefix_own : (p q : Text) → starts_with (principal_prefix p) (ace_key o p q) ≡ true
  prefix_own p q = prefix_inner p p q ∙ own p
    where
      own : (r : Text) → starts_with (r ++ (58 ∷ [])) (r ++ (58 ∷ q)) ≡ true
      own [] = refl
      own (c ∷ r) = ground (arith, nat_beq_iff c c, own r)
