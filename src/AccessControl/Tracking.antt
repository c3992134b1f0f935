-- ===== src/AccessControl/Tracking.antt =====
-- What Redis and the cache of a manager hold of the entries that have been granted.
use job_queue.Prelude.{
  ◌≡◌, ◌∙◌, ◌↔◌, ◌⊎◌, refl, sym, ap, subst, Bool, true, false, Option, none, some, List, Member,
  inl, inr, Bool-cases, if◌then◌else◌, ◌==◌,
}
use job_queue.JsMap
use job_queue.JsMap.{JsMap}
use job_queue.JsMap.Laws.{get-delete, beq_refl}
use job_queue.Redis.{Json, Answers, text_eq, IsThere}
use job_queue.AccessControl.{Text, starts_with, AccessControlEntry}
use job_queue.AccessControl.Store.{Outside, Manager, ace_key}
use job_queue.AccessControl.Names.{is_plain, principal_prefix, ace_key_same, prefix_owner}

-- The abstract view: the entry of a principal for a pattern.
abbrev pub Grants : Type 0
Grants = Text → Text → Option AccessControlEntry

abbrev pub put : Text → Text → Option AccessControlEntry → Grants → Grants
put p q value f r u = if p == r then (if q == u then value else f r u) else f r u

abbrev pub written : Json AccessControlEntry → Option AccessControlEntry → Option Text
written json none = none
written json (some e) = some (json.stringify e)

written-some :
    (json : Json AccessControlEntry) (v : Option AccessControlEntry)
    → IsThere (written json v)
    → (e : AccessControlEntry) × (v ≡ some e)
written-some json none h = absurd h
written-some json (some e) h = (e, refl)

put_self : (p q : Text) (v : Option AccessControlEntry) (f : Grants) → put p q v f p q ≡ v
put_self p q v f = rw (beq_refl p, beq_refl q) refl

put_other :
    (p q r u : Text) (v : Option AccessControlEntry) (f : Grants)
    → (p == r) ≡ false
    → put p q v f r u ≡ f r u
put_other p q r u v f h = ap (λ (b : Bool). if b then (if q == u then v else f r u) else f r u) h

module _ {S : Type 0} (o : Outside S) where
  -- The list has what JSON leaves of the entries of a principal, and nothing else.
  abbrev pub Represents : Grants → Text → List AccessControlEntry → Type 0
  Represents f p aces =
      (e : AccessControlEntry)
      → Member e aces ↔ (
          (q : Text) × ((e0 : AccessControlEntry) × ((f p q ≡ some e0)
              × (e ≡ o.entries.stored e0))))

  key_true : (p q r u : Text) → p ≡ r → q ≡ u → (ace_key o p q == ace_key o r u) ≡ true
  key_true p q r u e d =
      (text_eq.beq_iff (ace_key o p q) (ace_key o r u)).1
        (ap (λ x. ace_key o x q) e ∙ ap (λ x. ace_key o r x) d)

  kept :
      (p q r u : Text) (v : Option AccessControlEntry) (f : Grants)
      → (ace_key o p q == ace_key o r u) ≡ false
      → put p q v f r u ≡ f r u
  kept p q r u v f h = elim (Bool-cases (p == r)) [
    | inr other ↦ put_other p q r u v f other
    | inl same ↦ elim (Bool-cases (q == u)) [
      | inr other ↦
          ap (λ (b : Bool). if b then (if q == u then v else f r u) else f r u) same
          ∙ ap (λ (b : Bool). if b then v else f r u) other
      | inl also ↦
          cc (h, key_true p q r u ((text_eq.beq_iff p r).0 same) ((text_eq.beq_iff q u).0 also))
    ]
  ]

  -- Either a pair is the one that changed, or it has another key and keeps its entry.
  put_cases :
      (p q r u : Text) (v : Option AccessControlEntry) (f : Grants)
      → is_plain p ≡ true
      → is_plain r ≡ true
      → (((p ≡ r) × (q ≡ u)) × (put p q v f r u ≡ v))
        ⊎ (((ace_key o p q == ace_key o r u) ≡ false) × (put p q v f r u ≡ f r u))
  put_cases p q r u v f h g = elim (Bool-cases (ace_key o p q == ace_key o r u)) [
    | inl same ↦
        let (e, d) = ace_key_same o p r q u h g same in
        inl (
          (e, d),
          ap (λ x. put p q v f x u) (sym e) ∙ ap (λ x. put p q v f p x) (sym d) ∙ put_self p q v f,
        )
    | inr other ↦ inr (other, kept p q r u v f other)
  ]

  module _ (a : Answers o.redis) where
    pub record Tracks (m : Manager S) (f : Grants) : Type 0 where
      pub complete :
          (p q : Text) (e : AccessControlEntry)
          → is_plain p ≡ true
          → f p q ≡ some e
          → a.look (ace_key o p q) m.server ≡ some (o.entries.stringify e)
      pub sound :
          (k r : Text)
          → is_plain r ≡ true
          → starts_with (principal_prefix o r) k ≡ true
          → IsThere (a.look k m.server)
          → (q : Text) × ((e : AccessControlEntry) × ((f r q ≡ some e) × (k ≡ ace_key o r q)))
      pub cached :
          (p : Text) (aces : List AccessControlEntry)
          → is_plain p ≡ true
          → JsMap.get p m.acl_cache ≡ some aces
          → Represents f p aces

    -- One key changes, and its principal leaves the cache.
    pub Tracks-put :
        (p q : Text) (v : Option AccessControlEntry) (s : S) (m : Manager S) (f : Grants)
        → is_plain p ≡ true
        → ((k : Text)
            → a.look k s ≡ (if ace_key o p q == k then written o.entries v else a.look k m.server))
        → Tracks m f
        → Tracks (record m { server = s; acl_cache = JsMap.delete p m.acl_cache }) (put p q v f)
    Tracks-put p q v s m f h change t = record {
      complete = λ r u e g d. elim (put_cases p q r u v f h g) [
        | inl (same, now) ↦
            changed (ace_key o r u) (key_true p q r u same.0 same.1)
            ∙ ap (written o.entries) (sym now ∙ d)
        | inr (other, keep) ↦ unchanged (ace_key o r u) other ∙ t.complete r u e g (sym keep ∙ d)
      ];
      sound = λ k r g w there. elim (Bool-cases (ace_key o p q == k)) [
        | inl same ↦
            let at : ace_key o p q ≡ k = (text_eq.beq_iff (ace_key o p q) k).0 same in
            let own : r ≡ p =
              prefix_owner o r p q g h
                (subst (λ x. starts_with (principal_prefix o r) x ≡ true) (sym at) w) in
            let (e, is) = written-some o.entries v (subst IsThere (changed k same) there) in
            (
              q,
              (
                e,
                (
                  ap (λ x. put p q v f x q) own ∙ put_self p q v f ∙ is,
                  sym at ∙ ap (λ x. ace_key o x q) (sym own),
                ),
              ),
            )
        | inr other ↦
            let (u, rest) = t.sound k r g w (subst IsThere (unchanged k other) there) in
            (
              u,
              (
                rest.0,
                (
                  kept p q r u v f (ap (λ x. ace_key o p q == x) (sym rest.1.1) ∙ other) ∙ rest.1.0,
                  rest.1.1,
                ),
              ),
            )
      ];
      cached = λ r aces g d. elim (Bool-cases (p == r)) [
        | inl same ↦ cc (
          sym (get-delete p r m.acl_cache) ∙ d,
          ap (λ (b : Bool). if b then none else JsMap.get r m.acl_cache) same,
        )
        | inr other ↦ λ e.
            let rep = t.cached r aces g (
              sym (ap (λ (b : Bool). if b then none else JsMap.get r m.acl_cache) other)
              ∙ sym (get-delete p r m.acl_cache)
              ∙ d) in
            (
              λ w.
                  let (u, x) = (rep e).0 w in
                  (u, (x.0, (put_other p q r u v f other ∙ x.1.0, x.1.1))),
              λ y.
                  (rep e).1
                    (y.0, (y.1.0, (sym (put_other p q r y.0 v f other) ∙ y.1.1.0, y.1.1.1))),
            )
      ];
    }
      where
        changed : (k : Text) → (ace_key o p q == k) ≡ true → a.look k s ≡ written o.entries v
        changed k e =
            change k ∙ ap (λ (b : Bool). if b then written o.entries v else a.look k m.server) e

        unchanged : (k : Text) → (ace_key o p q == k) ≡ false → a.look k s ≡ a.look k m.server
        unchanged k e =
            change k ∙ ap (λ (b : Bool). if b then written o.entries v else a.look k m.server) e
