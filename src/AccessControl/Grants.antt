-- ===== src/AccessControl/Grants.antt =====
-- `checkAccess` after any grants and revocations.
use job_queue.Prelude.{
  returned_injective, ℕ, ◌≡◌, ◌∙◌, ◌↔◌, refl, sym, ap, subst, Bool, true, Option, none, some, List,
  [], ◌∷◌, Member, All, inl, inr, Settled, returned,
}
use job_queue.JsMap
use job_queue.JsMap.{JsMap}
use job_queue.Redis.{Answers, text_eq, IsThere, is_literal}
use job_queue.AccessControl.{Text, AccessControlEntry, Permission, check_access}
use job_queue.AccessControl.Access.{SomeGrant, IsGrant, check_access_iff}
use job_queue.AccessControl.Store.{Outside, Manager, ace_key, grant_access, revoke_access}
use job_queue.AccessControl.Keys.{grant_access_run, revoke_access_run}
use job_queue.AccessControl.Listing.{get_principal_access, check_principal}
use job_queue.AccessControl.Names.{is_plain}
use job_queue.AccessControl.Tracking.{Grants, put, Tracks, Tracks-put}
use job_queue.AccessControl.Loading.{get_access_lem}

module _ (now hour : ℕ) (queue_name : Text) (permission : Permission) (context : Option ℕ) where
  some-Member :
      (aces : List AccessControlEntry)
      → SomeGrant now hour queue_name permission context aces
      → (e : AccessControlEntry) × (Member e aces
          × IsGrant now hour queue_name permission context e)
  some-Member [] h = cc h
  some-Member (e ∷ aces) (inl g) = (e, (inl refl, g))
  some-Member (e ∷ aces) (inr r) = let (d, x) = some-Member aces r in (d, (inr x.0, x.1))

  Member-some :
      (aces : List AccessControlEntry) (e : AccessControlEntry)
      → Member e aces
      → IsGrant now hour queue_name permission context e
      → SomeGrant now hour queue_name permission context aces
  Member-some [] e w g = absurd w
  Member-some (d ∷ aces) e (inl same) g =
      inl (subst (IsGrant now hour queue_name permission context) same g)
  Member-some (d ∷ aces) e (inr later) g = inr (Member-some aces e later g)

-- A grant, a revocation, and a look at the entries of a principal, which `checkAccess` begins with.
pub data Change : Type 0 where
  granting : AccessControlEntry → Change
  revoking : Text → Text → Change
  looking : Text → Change

abbrev pub IsPlain : Change → Type 0
IsPlain (granting e) = is_plain e.principal_id ≡ true
IsPlain (revoking p q) = is_plain p ≡ true
IsPlain (looking p) = is_plain p ≡ true

-- What has been granted after some calls.
unfoldable pub granted : List Change → Grants → Grants
granted [] f = f
granted (granting e ∷ changes) f = granted changes (put e.principal_id e.queue_pattern (some e) f)
granted (revoking p q ∷ changes) f = granted changes (put p q none f)
granted (looking p ∷ changes) f = granted changes f

abbrev pub no_grants : Grants
no_grants p q = none

module _ {S : Type 0} (o : Outside S) where
  unfoldable pub perform : Change → Manager S → Manager S
  perform (granting e) m = (grant_access o e m).0
  perform (revoking p q) m = (revoke_access o p q m).0
  perform (looking p) m = (get_principal_access o p m).0

  unfoldable pub perform_all : List Change → Manager S → Manager S
  perform_all [] m = m
  perform_all (change ∷ changes) m = perform_all changes (perform change m)

  abbrev fresh : S → Manager S
  fresh s = record { server = s; tenant_cache = []; acl_cache = [] }

  module _ (a : Answers o.redis) (literal : is_literal o.key_prefix ≡ true) where
    fresh-Tracks : (s : S) → ((k : Text) → a.look k s ≡ none) → Tracks o a (fresh s) no_grants
    unfolding JsMap.get
    fresh-Tracks s empty = record {
      complete = λ p q e h d. cc d;
      sound = λ k r h w there. absurd (subst IsThere (empty k) there);
      cached = λ p aces h d. cc d;
    }

    perform_all-Tracks :
        (changes : List Change) (m : Manager S) (f : Grants)
        → All IsPlain changes
        → Tracks o a m f
        → Tracks o a (perform_all changes m) (granted changes f)
    unfolding perform_all perform granted
    perform_all-Tracks [] m f hs t = t
    perform_all-Tracks (granting e ∷ changes) m f (h, hs) t = perform_all-Tracks changes _ _ hs (
        rw (perform, grant_access_run o a e m)
          (Tracks-put o a e.principal_id e.queue_pattern (some e) _ m f h
            (λ k.
              a.look-set k (ace_key o e.principal_id e.queue_pattern) (o.entries.stringify e)
                m.server)
            t))
    perform_all-Tracks (revoking p q ∷ changes) m f (h, hs) t = perform_all-Tracks changes _ _ hs (
        rw (perform, revoke_access_run o a p q m)
          (Tracks-put o a p q none _ m f h (λ k. a.look-del k (ace_key o p q) m.server) t))
    perform_all-Tracks (looking p ∷ changes) m f (h, hs) t =
        let (aces, rest) = get_access_lem o a literal p m f h t in
        perform_all-Tracks changes _ f hs (subst (λ x. Tracks o a x.0 f) (sym rest.1.0) rest.1.1.1)

    -- On a Redis that answers every command and is empty, with a key prefix that a pattern reads as
    -- itself: after any grants, revocations and looks at the entries of principals, `checkAccess` allows a
    -- principal what one of its entries allows that was granted and not revoked or replaced, taken as JSON
    -- stores it, and nothing else. No principal has a colon or a character of patterns.
    pub check_principal_iff :
        (changes : List Change) (s : S) (p queue_name : Text) (now hour : ℕ)
        (permission : Permission) (context : Option ℕ)
        → ((k : Text) → a.look k s ≡ none)
        → All IsPlain changes
        → is_plain p ≡ true
        → ((check_principal o now hour p queue_name permission context
              (perform_all changes (fresh s))).1
            ≡ returned true)
          ↔ ((q : Text) × ((e : AccessControlEntry) × ((granted changes no_grants p q ≡ some e)
                  × IsGrant now hour queue_name permission context (o.entries.stored e))))
    unfolding check_principal
    check_principal_iff changes s p queue_name now hour permission context empty hs h =
        let m = perform_all changes (fresh s) in
        let f = granted changes no_grants in
        let (aces, rest) =
          get_access_lem o a literal p m f h
            (perform_all-Tracks changes (fresh s) no_grants hs (fresh-Tracks s empty)) in
        let run : check_principal o now hour p queue_name permission context m
            ≡ (rest.0, returned (check_access now hour aces queue_name permission context)) =
          rw (rest.1.0, check_principal) refl in
        let Grant = λ (e : AccessControlEntry). IsGrant now hour queue_name permission context e in
        let allowed = check_access_iff now hour queue_name permission context aces in
        (
          λ yes.
              let (e, x) = some-Member now hour queue_name permission context aces (
                allowed.0 (
                  returned_injective
                    (sym (ap (λ (x : Manager S × Settled Bool). x.1) run) ∙ yes))) in
              let (q, y) = (rest.1.1.0 e).0 x.0 in (q, (y.0, (y.1.0, subst Grant y.1.1 x.1))),
          λ entry.
              ap (λ (x : Manager S × Settled Bool). x.1) run
              ∙ ap returned (
                  allowed.1 (
                    Member-some now hour queue_name permission context aces
                      (o.entries.stored entry.1.0)
                      ((rest.1.1.0 (o.entries.stored entry.1.0)).1
                        (entry.0, (entry.1.0, (entry.1.1.0, refl))))
                      entry.1.1.1)),
        )
