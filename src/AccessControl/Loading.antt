-- ===== src/AccessControl/Loading.antt =====
-- What `getPrincipalAccess` returns, on a Redis that answers.
use job_queue.Prelude.{
  ◌≡◌, ◌∙◌, refl, sym, ap, subst, Bool, true, Option, some, List, [], ◌∷◌, ◌++◌, arith, Member, All,
  inl, inr, returned, Bool-cases, Option-cases, some_injective, if◌then◌else◌, ◌==◌,
}
use job_queue.JsMap
use job_queue.JsMap.{JsMap}
use job_queue.JsMap.Laws.{get-set}
use job_queue.Redis.{Answers, text_eq, IsThere, is_literal}
use job_queue.AccessControl.{Text, star, AccessControlEntry}
use job_queue.AccessControl.Store.{Outside, Manager, ace_key, ace_part}
use job_queue.AccessControl.Listing.{all, read_all, load_access, get_principal_access}
use job_queue.AccessControl.Names.{
  is_plain, principal_prefix, prefix_own, plain_literal, literal-append,
}
use job_queue.AccessControl.Reading.{read_all_lem, stored_same, Holds}
use job_queue.AccessControl.Tracking.{Grants, Represents, Tracks}

All-of : {A : Type 0} (P : A → Type 0) (xs : List A) → ((x : A) → Member x xs → P x) → All P xs
All-of P [] h = tt
All-of P (x ∷ xs) h = (h x (inl refl), All-of P xs (λ y m. h y (inr m)))

append_assoc : {A : Type 0} (xs ys zs : List A) → xs ++ (ys ++ zs) ≡ (xs ++ ys) ++ zs
append_assoc [] ys zs = refl
append_assoc (x ∷ xs) ys zs = ap (λ l. x ∷ l) (append_assoc xs ys zs)

IsThere-some : {A : Type 0} {o : Option A} {a : A} → o ≡ some a → IsThere o
IsThere-some h = subst IsThere (sym h) tt

module _ {S : Type 0} (o : Outside S) where
  pattern_lem :
      (p : Text)
      → o.key_prefix ++ (ace_part ++ (p ++ (58 ∷ star ∷ []))) ≡ principal_prefix o p ++ (star ∷ [])
  pattern_lem p =
      ap (λ x. o.key_prefix ++ (ace_part ++ x)) (append_assoc p (58 ∷ []) (star ∷ []))
      ∙ append_assoc o.key_prefix (ace_part ++ (p ++ (58 ∷ []))) (star ∷ [])

  module _ (a : Answers o.redis) (literal : is_literal o.key_prefix ≡ true) where
    prefix_literal : (p : Text) → is_plain p ≡ true → is_literal (principal_prefix o p) ≡ true
    prefix_literal p h = literal-append o.key_prefix (ace_part ++ (p ++ (58 ∷ []))) literal (
        literal-append ace_part (p ++ (58 ∷ [])) refl
          (literal-append p (58 ∷ []) (plain_literal p h) refl))

    abbrev keys_of : Text → S → List Text
    keys_of p s = (a.keys_lem (principal_prefix o p ++ (star ∷ [])) s).0

    held :
        (p : Text) (m : Manager S) (f : Grants)
        → is_plain p ≡ true
        → Tracks o a m f
        → (k : Text) → Member k (keys_of p m.server)
        → (q : Text) × ((e : AccessControlEntry) × ((f p q ≡ some e)
              × Holds o.redis a o.entries m.server k e))
    held p m f h t k w =
        let (there, starts) =
          (a.keys_iff (principal_prefix o p) k m.server (prefix_literal p h)).0 w in
        let (q, rest) = t.sound k p h starts there in
        (
          q,
          (
            rest.0,
            (rest.1.0, ap (λ x. a.look x m.server) rest.1.1 ∙ t.complete p q rest.0 h rest.1.0),
          ),
        )

    load_access_run :
        (p : Text) (m : Manager S) (found : List AccessControlEntry)
        → read_all o.redis o.entries all (keys_of p m.server) [] m ≡ (m, returned found)
        → load_access o p m
          ≡ (record m { acl_cache = JsMap.set p found m.acl_cache }, returned found)
    unfolding load_access
    load_access_run p m found r =
        ground
          (arith, pattern_lem p, (a.keys_lem (principal_prefix o p ++ (star ∷ [])) m.server).1, r)

    now_cached :
        (p : Text) (found : List AccessControlEntry) (m : Manager S) (f : Grants)
        → Tracks o a m f
        → Represents o f p found
        → (r : Text) (aces : List AccessControlEntry) → is_plain r ≡ true
        → (if p == r then some found else JsMap.get r m.acl_cache) ≡ some aces
        → Represents o f r aces
    now_cached p found m f t rep r aces g d = elim (Bool-cases (p == r)) [
      | inl same ↦
          subst (λ x. Represents o f x aces) ((text_eq.beq_iff p r).0 same)
            (subst (Represents o f p)
              (some_injective (
                subst
                  (λ (b : Bool). (if b then some found else JsMap.get r m.acl_cache) ≡ some aces)
                  same d))
              rep)
      | inr other ↦ t.cached r aces g (
          subst (λ (b : Bool). (if b then some found else JsMap.get r m.acl_cache) ≡ some aces)
            other d)
    ]

    -- What `getPrincipalAccess` returns of a principal stands for its entries.
    pub get_access_lem :
        (p : Text) (m : Manager S) (f : Grants)
        → is_plain p ≡ true
        → Tracks o a m f
        → (aces : List AccessControlEntry) × ((n : Manager S) × ((get_principal_access o p m
                ≡ (n, returned aces))
              × (Represents o f p aces × Tracks o a n f)))
    unfolding get_principal_access
    get_access_lem p m f h t = elim (Option-cases (JsMap.get p m.acl_cache)) [
      | inr (aces, hit) ↦
          (aces, (m, (rw (hit, get_principal_access) refl, (t.cached p aces h hit, t))))
      | inl miss ↦
          let hold = held p m f h t in
          let (found, facts) = read_all_lem o.redis a o.entries (keys_of p m.server) [] m (
            All-of (λ k. (e : AccessControlEntry) × Holds o.redis a o.entries m.server k e)
              (keys_of p m.server) (λ k w. let x = (hold k w).1 in (x.0, x.1.1))) in
          let rep : Represents o f p found = λ e. (
            λ w.
                let (k, r) = (facts.1 e).0 w in
                let (q, x) = hold k r.1.0 in
                (
                  q,
                  (
                    x.0,
                    (
                      x.1.0,
                      r.1.1.1 ∙ stored_same o.redis a o.entries r.0 x.0 (sym r.1.1.0 ∙ x.1.1),
                    ),
                  ),
                ),
            λ x.
                let is = t.complete p x.0 x.1.0 h x.1.1.0 in
                (facts.1 e).1 (
                  ace_key o p x.0,
                  (
                    x.1.0,
                    (
                      (a.keys_iff (principal_prefix o p) (ace_key o p x.0) m.server
                            (prefix_literal p h)).1
                          (IsThere-some is, prefix_own o p x.0),
                      (is, x.1.1.1),
                    ),
                  ),
                ),
          ) in
          (
            found,
            (
              record m { acl_cache = JsMap.set p found m.acl_cache },
              (
                rw (miss, load_access_run p m found facts.0, get_principal_access) refl,
                (
                  rep,
                  record {
                    complete = t.complete;
                    sound = t.sound;
                    cached = λ r aces g d.
                        now_cached p found m f t rep r aces g
                          (sym (get-set p r found m.acl_cache) ∙ d);
                  },
                ),
              ),
            ),
          )
    ]
