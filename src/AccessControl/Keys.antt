-- ===== src/AccessControl/Keys.antt =====
-- The keys of the access control manager: which are the same, and what a Redis that answers makes of
-- the methods that use one of them.
use job_queue.Prelude.{
  ◌≡◌, ◌∙◌, refl, false, none, some, [], ◌∷◌, ◌++◌, arith, nat_beq_iff, ◌==◌, returned, threw,
}
use job_queue.JsMap
use job_queue.JsMap.{JsMap}
use job_queue.Redis.{text_eq, Answers}
use job_queue.AccessControl.{Text, text_beq, AccessControlEntry}
use job_queue.AccessControl.Store.{
  TenantConfig, TenantUpdate, merged, Outside, Manager, tenant_key, ace_key, tenant_part,
  audit_part, create_tenant, load_tenant, get_tenant, update_tenant, delete_tenant, grant_access,
  revoke_access,
}

pub text_beq-append : (p x y : Text) → text_beq (p ++ x) (p ++ y) ≡ text_beq x y
text_beq-append [] x y = refl
text_beq-append (c ∷ p) x y = ground (arith, nat_beq_iff c c, text_beq-append p x y)

module _ {S : Type 0} (o : Outside S) where
  pub tenant_key_beq : (i j : Text) → (tenant_key o i == tenant_key o j) ≡ (i == j)
  tenant_key_beq i j = text_beq-append o.key_prefix (tenant_part ++ i) (tenant_part ++ j) ∙ refl

  pub ace_key_other : (p q i : Text) → (ace_key o p q == tenant_key o i) ≡ false
  ace_key_other p q i = text_beq-append o.key_prefix _ _ ∙ refl

  pub audit_key_other :
      (suffix i : Text) → ((o.key_prefix ++ (audit_part ++ suffix)) == tenant_key o i) ≡ false
  audit_key_other suffix i = text_beq-append o.key_prefix _ _ ∙ refl

  module _ (a : Answers o.redis) where
    pub create_tenant_run :
        (c : TenantConfig) (m : Manager S)
        → create_tenant o c m ≡ (
          record m {
            server = (o.redis.set (tenant_key o c.tenant_id) (o.tenants.stringify c) m.server).0;
            tenant_cache = JsMap.set c.tenant_id c m.tenant_cache;
          },
          returned tt,
        )
    unfolding create_tenant
    create_tenant_run c m =
        rw (a.set_lem (tenant_key o c.tenant_id) (o.tenants.stringify c) m.server) refl

    pub delete_tenant_run :
        (i : Text) (m : Manager S)
        → delete_tenant o i m ≡ (
          record m {
            server = (o.redis.del (tenant_key o i) m.server).0;
            tenant_cache = JsMap.delete i m.tenant_cache;
          },
          returned tt,
        )
    unfolding delete_tenant
    delete_tenant_run i m = rw (a.del_lem (tenant_key o i) m.server) refl

    pub load_tenant-none :
        (i : Text) (m : Manager S)
        → a.look (tenant_key o i) m.server ≡ none
        → load_tenant o i m ≡ (m, threw "Tenant not found")
    unfolding load_tenant
    load_tenant-none i m h = rw (a.get_lem (tenant_key o i) m.server, h) refl

    pub load_tenant-some :
        (i : Text) (c : TenantConfig) (m : Manager S)
        → a.look (tenant_key o i) m.server ≡ some (o.tenants.stringify c)
        → o.tenants.stored c ≡ c
        → load_tenant o i m ≡ (record m { tenant_cache = JsMap.set i c m.tenant_cache }, returned c)
    unfolding load_tenant
    load_tenant-some i c m h plain =
        rw
          (
            a.get_lem (tenant_key o i) m.server,
            h,
            o.tenants.present-stringify c,
            o.tenants.parse-stringify c,
            plain,
          )
          refl

    pub update_tenant_run :
        (i : Text) (u : TenantUpdate) (c : TenantConfig) (m n : Manager S)
        → get_tenant o i m ≡ (n, returned c)
        → update_tenant o i u m ≡ (
          record n {
            server = (o.redis.set (tenant_key o i) (o.tenants.stringify (merged c u i)) n.server).0;
            tenant_cache = JsMap.set i (merged c u i) n.tenant_cache;
          },
          returned tt,
        )
    unfolding update_tenant
    update_tenant_run i u c m n h =
        rw (h, a.set_lem (tenant_key o i) (o.tenants.stringify (merged c u i)) n.server) refl

    pub update_tenant-threw :
        (i : Text) (u : TenantUpdate) (m n : Manager S)
        → get_tenant o i m ≡ (n, threw "Tenant not found")
        → update_tenant o i u m ≡ (n, threw "Tenant not found")
    unfolding update_tenant
    update_tenant-threw i u m n h = rw h refl

    pub grant_access_run :
        (ace : AccessControlEntry) (m : Manager S)
        → grant_access o ace m ≡ (
          record m {
            server =
                (o.redis.set
                  (ace_key o ace.principal_id ace.queue_pattern)
                  (o.entries.stringify ace)
                  m.server).0;
            acl_cache = JsMap.delete ace.principal_id m.acl_cache;
          },
          returned tt,
        )
    unfolding grant_access
    grant_access_run ace m =
        rw
          (a.set_lem (ace_key o ace.principal_id ace.queue_pattern) (o.entries.stringify ace)
            m.server)
          refl

    pub revoke_access_run :
        (p q : Text) (m : Manager S)
        → revoke_access o p q m ≡ (
          record m {
            server = (o.redis.del (ace_key o p q) m.server).0;
            acl_cache = JsMap.delete p m.acl_cache;
          },
          returned tt,
        )
    unfolding revoke_access
    revoke_access_run p q m = rw (a.del_lem (ace_key o p q) m.server) refl
