-- ===== src/AccessControl/Store.antt =====
-- The parts of src/infrastructure/services/access-control.manager.ts that live in Redis: tenants,
-- the entries of principals and their caches. A cached value is an object, so `if (cached)` asks
-- whether there is one. A `catch` that logs and throws again is left out, and so are identifiers in
-- the messages of errors.
use job_queue.Prelude.{
  ℕ, Bool, true, ◌&&◌, Option, none, some, List, [], ◌∷◌, ◌++◌, get_or, or_else, ◌==◌, nat_eq, leb,
  Settled, returned, threw,
}
use job_queue.JsMap
use job_queue.JsMap.{JsMap}
use job_queue.JobQueue.{Ref}
use job_queue.Redis.{Action, ◌>>=◌, ◌>>◌, return, modify, settle, Redis, Json, present, text_eq}
use job_queue.AccessControl.{Text, AccessControlEntry}

-- `TenantConfig`; the quota, the regions and the metadata are references
pub record TenantConfig : Type 0 where
  pub tenant_id : Text
  pub name : Text
  pub quota : Option Ref
  pub allowed_regions : Option Ref
  pub metadata : Option Ref
  pub created_at : ℕ
  pub enabled : Bool

-- `Partial<TenantConfig>`, the properties that have a value
pub record TenantUpdate : Type 0 where
  pub name : Option Text
  pub quota : Option Ref
  pub allowed_regions : Option Ref
  pub metadata : Option Ref
  pub created_at : Option ℕ
  pub enabled : Option Bool

-- `{ ...existing, ...config, tenantId }`
abbrev pub merged : TenantConfig → TenantUpdate → Text → TenantConfig
merged existing config tenant_id = record {
  tenant_id = tenant_id;
  name = get_or config.name existing.name;
  quota = or_else config.quota existing.quota;
  allowed_regions = or_else config.allowed_regions existing.allowed_regions;
  metadata = or_else config.metadata existing.metadata;
  created_at = get_or config.created_at existing.created_at;
  enabled = get_or config.enabled existing.enabled;
}

-- What `auditAccess` stores
pub record AuditEntry : Type 0 where
  pub principal_id : Text
  pub action : Text
  pub queue_name : Text
  pub timestamp : ℕ
  pub metadata : Option Ref

-- The filters of `getAuditLog`
pub record AuditFilters : Type 0 where
  pub principal_id : Option Text
  pub queue_name : Option Text
  pub action : Option Text
  pub start_time : Option ℕ
  pub end_time : Option ℕ
  pub limit : Option ℕ

-- What the manager is made with, and JSON at its types.
pub record Outside (S : Type 0) : Type 0 where
  pub redis : Redis S
  pub key_prefix : Text
  pub tenants : Json TenantConfig
  pub entries : Json AccessControlEntry
  pub audits : Json AuditEntry

-- `AccessControlManager`, with the state of its Redis.
pub record Manager (S : Type 0) : Type 0 where
  pub server : S
  pub tenant_cache : JsMap Text TenantConfig
  pub acl_cache : JsMap Text (List AccessControlEntry)

-- `:tenant:`, `:ace:` and `:audit:` in code units
abbrev pub tenant_part : Text
tenant_part = 58 ∷ 116 ∷ 101 ∷ 110 ∷ 97 ∷ 110 ∷ 116 ∷ 58 ∷ []

abbrev pub ace_part : Text
ace_part = 58 ∷ 97 ∷ 99 ∷ 101 ∷ 58 ∷ []

abbrev pub audit_part : Text
audit_part = 58 ∷ 97 ∷ 117 ∷ 100 ∷ 105 ∷ 116 ∷ 58 ∷ []

abbrev pub matches_filter : Option Text → Text → Bool
matches_filter none value = true
matches_filter (some wanted) value = value == wanted

abbrev pub is_after : Option ℕ → ℕ → Bool
is_after none timestamp = true
is_after (some start_time) timestamp = leb start_time timestamp

abbrev pub is_before : Option ℕ → ℕ → Bool
is_before none timestamp = true
is_before (some end_time) timestamp = leb timestamp end_time

-- `matchesAuditFilters`
unfoldable pub matches_audit_filters : AuditEntry → AuditFilters → Bool
matches_audit_filters entry filters =
    matches_filter filters.principal_id entry.principal_id
    && (matches_filter filters.queue_name entry.queue_name
        && (matches_filter filters.action entry.action
            && (is_after filters.start_time entry.timestamp
                && is_before filters.end_time entry.timestamp)))

abbrev pub on_server : {S A : Type 0} → Action S A → Action (Manager S) A
on_server act m = let (s, r) = act m.server in (record m { server = s }, r)

-- what `if (!data) throw` lets pass
abbrev pub required : Option Text → Settled Text
required none = threw "Tenant not found"
required (some text) = returned text

module _ {S : Type 0} (o : Outside S) where
  -- `buildTenantKey`
  abbrev pub tenant_key : Text → Text
  tenant_key tenant_id = o.key_prefix ++ (tenant_part ++ tenant_id)

  -- `buildACEKey`
  abbrev pub ace_key : Text → Text → Text
  ace_key principal_id queue_pattern =
      o.key_prefix ++ (ace_part ++ (principal_id ++ (58 ∷ queue_pattern)))

  -- `createTenant`
  unfoldable pub create_tenant : TenantConfig → Action (Manager S) (Unit {0})
  create_tenant config = do
    on_server (o.redis.set (tenant_key config.tenant_id) (o.tenants.stringify config))
    modify λ m. record m { tenant_cache = JsMap.set config.tenant_id config m.tenant_cache }

  -- the part of `getTenant` after the cache
  unfoldable pub load_tenant : Text → Action (Manager S) TenantConfig
  load_tenant tenant_id = do
    found ← on_server (o.redis.get (tenant_key tenant_id))
    text ← settle (required (present found))
    config ← settle (o.tenants.parse text)
    modify λ m. record m { tenant_cache = JsMap.set tenant_id config m.tenant_cache }
    return config

  -- `getTenant`
  unfoldable pub get_tenant : Text → Action (Manager S) TenantConfig
  get_tenant tenant_id m = elim (JsMap.get tenant_id m.tenant_cache) [
    | some cached ↦ (m, returned cached)
    | none ↦ load_tenant tenant_id m
  ]

  -- `updateTenant`
  unfoldable pub update_tenant : Text → TenantUpdate → Action (Manager S) (Unit {0})
  unfolding get_tenant load_tenant
  update_tenant tenant_id config = do
    existing ← get_tenant tenant_id
    on_server (
        o.redis.set (tenant_key tenant_id) (o.tenants.stringify (merged existing config tenant_id)))
    modify λ m. record m {
      tenant_cache = JsMap.set tenant_id (merged existing config tenant_id) m.tenant_cache;
    }

  -- `deleteTenant`
  unfoldable pub delete_tenant : Text → Action (Manager S) (Unit {0})
  delete_tenant tenant_id = do
    on_server (o.redis.del (tenant_key tenant_id))
    modify λ m. record m { tenant_cache = JsMap.delete tenant_id m.tenant_cache }

  -- `grantAccess`
  unfoldable pub grant_access : AccessControlEntry → Action (Manager S) (Unit {0})
  grant_access ace = do
    on_server (o.redis.set (ace_key ace.principal_id ace.queue_pattern) (o.entries.stringify ace))
    modify λ m. record m { acl_cache = JsMap.delete ace.principal_id m.acl_cache }

  -- `revokeAccess`
  unfoldable pub revoke_access : Text → Text → Action (Manager S) (Unit {0})
  revoke_access principal_id queue_pattern = do
    on_server (o.redis.del (ace_key principal_id queue_pattern))
    modify λ m. record m { acl_cache = JsMap.delete principal_id m.acl_cache }
