-- ===== src/AccessControl/Tenants.antt =====
-- Tenants in Redis and in the cache of a manager, against a plain map of tenants.
use job_queue.Prelude.{
  ◌≡◌, ◌∙◌, refl, sym, ap, subst, Bool, true, false, Option, none, some, List, [], ◌∷◌,
  Option-cases, Bool-cases, inl, inr, some_injective, if◌then◌else◌, ◌==◌, returned, threw,
}
use job_queue.JsMap
use job_queue.JsMap.{JsMap}
use job_queue.JsMap.Laws.{get-set, get-delete}
use job_queue.Redis.{Json, text_eq, Answers}
use job_queue.AccessControl.{Text, AccessControlEntry}
use job_queue.AccessControl.Store.{
  TenantConfig, merged, Outside, Manager, tenant_key, ace_key, get_tenant,
}
use job_queue.AccessControl.Keys.{
  tenant_key_beq, ace_key_other, create_tenant_run, delete_tenant_run, load_tenant-none,
  load_tenant-some, update_tenant_run, update_tenant-threw, grant_access_run, revoke_access_run,
}
use job_queue.AccessControl.Calls.{
  Tenants, put, Op, to_create, to_update, to_delete, to_get, to_grant, to_revoke, spec,
  spec_answers, perform, answers,
}

abbrev pub written : Json TenantConfig → Option TenantConfig → Option Text
written json none = none
written json (some c) = some (json.stringify c)

-- One value replaced in both views
written_if :
    (json : Json TenantConfig) (b : Bool) (v w : Option TenantConfig) (old : Option Text)
    → old ≡ written json w
    → (if b then written json v else old) ≡ written json (if b then v else w)
written_if json true v w old h = refl
written_if json false v w old h = h

cached_if :
    (b : Bool) (v w old : Option TenantConfig) (d : TenantConfig)
    → (old ≡ some d → w ≡ some d)
    → (if b then v else old) ≡ some d
    → (if b then v else w) ≡ some d
cached_if true v w old d h e = e
cached_if false v w old d h e = h e

module _ {S : Type 0} (o : Outside S) where
  module _ (a : Answers o.redis) where
    -- What Redis and the cache hold of the tenants of a map: Redis all of them, the cache some.
    pub record Implements (m : Manager S) (f : Tenants) : Type 0 where
      pub held : (i : Text) → a.look (tenant_key o i) m.server ≡ written o.tenants (f i)
      pub cached :
          (i : Text) (c : TenantConfig) → JsMap.get i m.tenant_cache ≡ some c → f i ≡ some c

    Implements-put :
        (i : Text) (c : TenantConfig) (m : Manager S) (f : Tenants)
        → Implements m f
        → Implements
            (record m {
              server = (o.redis.set (tenant_key o i) (o.tenants.stringify c) m.server).0;
              tenant_cache = JsMap.set i c m.tenant_cache;
            })
            (put i (some c) f)
    Implements-put i c m f h = record {
      held = λ j.
          a.look-set (tenant_key o j) (tenant_key o i) (o.tenants.stringify c) m.server
          ∙ ap
              (λ (b : Bool).
                if b then written o.tenants (some c) else a.look (tenant_key o j) m.server)
              (tenant_key_beq o i j)
          ∙ written_if o.tenants (i == j) (some c) (f j) _ (h.held j);
      cached = λ j d e.
          cached_if (i == j) (some c) (f j) _ d (h.cached j d)
            (sym (get-set i j c m.tenant_cache) ∙ e);
    }

    Implements-drop :
        (i : Text) (m : Manager S) (f : Tenants)
        → Implements m f
        → Implements
            (record m {
              server = (o.redis.del (tenant_key o i) m.server).0;
              tenant_cache = JsMap.delete i m.tenant_cache;
            })
            (put i none f)
    Implements-drop i m f h = record {
      held = λ j.
          a.look-del (tenant_key o j) (tenant_key o i) m.server
          ∙ ap
              (λ (b : Bool). if b then written o.tenants none else a.look (tenant_key o j) m.server)
              (tenant_key_beq o i j)
          ∙ written_if o.tenants (i == j) none (f j) _ (h.held j);
      cached = λ j d e.
          cached_if (i == j) none (f j) _ d (h.cached j d)
            (sym (get-delete i j m.tenant_cache) ∙ e);
    }

    -- Another key of Redis changes.
    Implements-other :
        (s : S) (m : Manager S) (f : Tenants) (acl : JsMap Text (List AccessControlEntry))
        → ((i : Text) → a.look (tenant_key o i) s ≡ a.look (tenant_key o i) m.server)
        → Implements m f
        → Implements (record m { server = s; acl_cache = acl }) f
    Implements-other s m f acl same h = record { held = λ i. same i ∙ h.held i; cached = h.cached }

    look-grant :
        (p q v i : Text) (s : S)
        → a.look (tenant_key o i) (o.redis.set (ace_key o p q) v s).0 ≡ a.look (tenant_key o i) s
    look-grant p q v i s =
        a.look-set (tenant_key o i) (ace_key o p q) v s
        ∙ ap (λ (b : Bool). if b then some v else a.look (tenant_key o i) s) (ace_key_other o p q i)

    look-revoke :
        (p q i : Text) (s : S)
        → a.look (tenant_key o i) (o.redis.del (ace_key o p q) s).0 ≡ a.look (tenant_key o i) s
    look-revoke p q i s =
        a.look-del (tenant_key o i) (ace_key o p q) s
        ∙ ap (λ (b : Bool). if b then none else a.look (tenant_key o i) s) (ace_key_other o p q i)

    now_cached :
        (i : Text) (c : TenantConfig) (m : Manager S) (f : Tenants)
        → Implements m f
        → f i ≡ some c
        → (j : Text) (d : TenantConfig)
        → (if i == j then some c else JsMap.get j m.tenant_cache) ≡ some d
        → f j ≡ some d
    now_cached i c m f h e j d g = elim (Bool-cases (i == j)) [
      | inl same ↦
          ap f (sym ((text_eq.beq_iff i j).0 same))
          ∙ e
          ∙ subst (λ (b : Bool). (if b then some c else JsMap.get j m.tenant_cache) ≡ some d) same g
      | inr other ↦ h.cached j d (
          subst (λ (b : Bool). (if b then some c else JsMap.get j m.tenant_cache) ≡ some d) other g)
    ]

    module _ (plain : (c : TenantConfig) → o.tenants.stored c ≡ c) where
      get_tenant_found :
          (i : Text) (c : TenantConfig) (m : Manager S) (f : Tenants)
          → Implements m f
          → f i ≡ some c
          → (n : Manager S) × (get_tenant o i m ≡ (n, returned c)) × Implements n f
      unfolding get_tenant
      get_tenant_found i c m f h e = elim (Option-cases (JsMap.get i m.tenant_cache)) [
        | inr (d, hit) ↦ (
          m,
          rw (hit, get_tenant)
              (ap (λ x. (m, returned x)) (some_injective (sym (h.cached i d hit) ∙ e))),
          h,
        )
        | inl miss ↦ (
          record m { tenant_cache = JsMap.set i c m.tenant_cache },
          rw (miss, get_tenant)
              (load_tenant-some o a i c m (h.held i ∙ ap (written o.tenants) e) (plain c)),
          record {
            held = h.held;
            cached = λ j d g. now_cached i c m f h e j d (sym (get-set i j c m.tenant_cache) ∙ g);
          },
        )
      ]

      get_tenant_missing :
          (i : Text) (m : Manager S) (f : Tenants)
          → Implements m f
          → f i ≡ none
          → get_tenant o i m ≡ (m, threw "Tenant not found")
      unfolding get_tenant
      get_tenant_missing i m f h e = elim (Option-cases (JsMap.get i m.tenant_cache)) [
        | inr (d, hit) ↦ cc (h.cached i d hit)
        | inl miss ↦
            rw (miss, get_tenant) (load_tenant-none o a i m (h.held i ∙ ap (written o.tenants) e))
      ]

      -- One call
      step :
          (op : Op) (m : Manager S) (f : Tenants)
          → Implements m f
          → Implements (perform o op m).0 (spec op f).0 × ((perform o op m).1 ≡ (spec op f).1)
      unfolding perform spec
      step (to_create c) m f h =
          rw (create_tenant_run o a c m) (Implements-put c.tenant_id c m f h, refl)
      step (to_delete i) m f h = rw (delete_tenant_run o a i m) (Implements-drop i m f h, refl)
      step (to_grant ace) m f h = rw (grant_access_run o a ace m) (
        Implements-other _ m f _ (λ i. look-grant ace.principal_id ace.queue_pattern _ i m.server)
            h,
        refl,
      )
      step (to_revoke p q) m f h =
          rw (revoke_access_run o a p q m)
            (Implements-other _ m f _ (λ i. look-revoke p q i m.server) h, refl)
      step (to_get i) m f h = elim (Option-cases (f i)) [
        | inl absent ↦ rw (get_tenant_missing i m f h absent, absent) (h, refl)
        | inr (c, e) ↦ let (n, run, g) = get_tenant_found i c m f h e in rw (run, e) (g, refl)
      ]
      step (to_update i u) m f h = elim (Option-cases (f i)) [
        | inl absent ↦
            rw (update_tenant-threw o a i u m m (get_tenant_missing i m f h absent), absent)
              (h, refl)
        | inr (c, e) ↦
            let (n, run, g) = get_tenant_found i c m f h e in
            rw (update_tenant_run o a i u c m n run, e)
              (Implements-put i (merged c u i) n f g, refl)
      ]

      -- If Redis answers every command, and no tenant has a value that JSON leaves out, then a manager that
      -- implements a map of tenants answers any calls of `createTenant`, `updateTenant`, `deleteTenant`,
      -- `getTenant`, `grantAccess` and `revokeAccess` as the map does, whatever stands in its cache.
      pub answers_refine :
          (ops : List Op) (m : Manager S) (f : Tenants)
          → Implements m f
          → answers o ops m ≡ spec_answers ops f
      unfolding answers spec_answers
      answers_refine [] m f h = refl
      answers_refine (op ∷ ops) m f h =
          let (g, e) = step op m f h in
          ap (λ x. x ∷ answers o ops (perform o op m).0) e
          ∙ ap (λ xs. (spec op f).1 ∷ xs) (answers_refine ops (perform o op m).0 (spec op f).0 g)
