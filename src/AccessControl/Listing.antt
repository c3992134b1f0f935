-- ===== src/AccessControl/Listing.antt =====
-- What the access control manager reads from all keys of a kind: the entries of a principal, with
-- `checkAccess` on top, those of a queue, the tenants, and the audit log.
use job_queue.Prelude.{
  ℕ, Bool, true, false, Option, none, some, List, [], ◌∷◌, ◌++◌, get_or, ltb, Settled, returned,
  threw, sort, take,
}
use job_queue.JsMap
use job_queue.JsMap.{JsMap}
use job_queue.Redis.{
  Action, ◌>>=◌, ◌>>◌, return, modify, settle, or_return, Redis, Json, present, text_eq,
}
use job_queue.AccessControl.{
  Text, star, Permission, AccessControlEntry, matches_pattern, check_access,
}
use job_queue.AccessControl.Store.{
  TenantConfig, AuditEntry, AuditFilters, Outside, Manager, tenant_part, ace_part, audit_part,
  on_server, matches_audit_filters,
}

-- an item of the loops below, if it is to be kept
abbrev pub keep_if : {A : Type 0} → Bool → A → List A → List A
keep_if true a items = a ∷ items
keep_if false a items = items

module _ {S A : Type 0} (redis : Redis S) (json : Json A) (keep : A → Bool) where
  -- the part of a loop's body after `get`
  abbrev pub read_one : Option Text → List A → Settled (List A)
  read_one none items = returned items
  read_one (some text) items = elim (json.parse text) [
    | threw error ↦ threw error
    | returned a ↦ returned (items ++ keep_if (keep a) a [])
  ]

  -- the loop `for (const key of keys)`, with what it has collected
  unfoldable pub read_all : List Text → List A → Action (Manager S) (List A)
  read_all [] items = return items
  read_all (key ∷ keys) items = do
    found ← on_server (redis.get key)
    next ← settle (read_one (present found) items)
    read_all keys next

abbrev pub all : {A : Type 0} → A → Bool
all a = true

abbrev pub is_wanted : Option AuditFilters → AuditEntry → Bool
unfolding matches_audit_filters
is_wanted none entry = true
is_wanted (some filters) entry = matches_audit_filters entry filters

abbrev pub limit_of : Option AuditFilters → ℕ
limit_of none = 100
limit_of (some filters) = get_or filters.limit 100

-- `entries.sort((a, b) => b.timestamp - a.timestamp)`
abbrev pub newest_first : AuditEntry → AuditEntry → Bool
newest_first a b = ltb b.timestamp a.timestamp

module _ {S : Type 0} (o : Outside S) where
  -- `listTenants`
  unfoldable pub list_tenants : Action (Manager S) (List TenantConfig)
  unfolding read_all
  list_tenants = or_return [] (do
    keys ← on_server (o.redis.keys (o.key_prefix ++ (tenant_part ++ (star ∷ []))))
    read_all o.redis o.tenants all keys [])

  -- `getPrincipalAccess` after the cache
  unfoldable pub load_access : Text → Action (Manager S) (List AccessControlEntry)
  unfolding read_all
  load_access principal_id = do
    keys ←
        on_server (o.redis.keys (o.key_prefix ++ (ace_part ++ (principal_id ++ (58 ∷ star ∷ [])))))
    aces ← read_all o.redis o.entries all keys []
    modify λ m. record m { acl_cache = JsMap.set principal_id aces m.acl_cache }
    return aces

  -- `getPrincipalAccess`
  unfoldable pub get_principal_access : Text → Action (Manager S) (List AccessControlEntry)
  unfolding load_access
  get_principal_access principal_id m = elim (JsMap.get principal_id m.acl_cache) [
    | some cached ↦ (m, returned cached)
    | none ↦ or_return [] (load_access principal_id) m
  ]

  -- `checkAccess`, from the identifier of the principal
  unfoldable pub check_principal :
      (now hour : ℕ) → Text → Text → Permission → Option ℕ → Action (Manager S) Bool
  unfolding get_principal_access check_access
  check_principal now hour principal_id queue_name permission context = or_return false (do
    aces ← get_principal_access principal_id
    return (check_access now hour aces queue_name permission context))

  -- `getQueueAccess`
  unfoldable pub get_queue_access : Text → Action (Manager S) (List AccessControlEntry)
  unfolding read_all matches_pattern
  get_queue_access queue_name = or_return [] (do
    keys ← on_server (o.redis.keys (o.key_prefix ++ (ace_part ++ (star ∷ 58 ∷ star ∷ []))))
    read_all o.redis o.entries (λ ace. matches_pattern queue_name ace.queue_pattern) keys [])

  -- `auditAccess`; `suffix` is the text of the time, a colon and the random part
  unfoldable pub audit_access : (suffix : Text) → AuditEntry → Action (Manager S) (Unit {0})
  audit_access suffix entry =
      or_return tt (
        on_server (o.redis.set (o.key_prefix ++ (audit_part ++ suffix)) (o.audits.stringify entry)))

  -- `getAuditLog`
  unfoldable pub get_audit_log : Option AuditFilters → Action (Manager S) (List AuditEntry)
  unfolding read_all
  get_audit_log filters = or_return [] (do
    keys ← on_server (o.redis.keys (o.key_prefix ++ (audit_part ++ (star ∷ []))))
    entries ← read_all o.redis o.audits (is_wanted filters) keys []
    return (take (limit_of filters) (sort newest_first entries)))
