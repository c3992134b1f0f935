-- ===== src/AccessControl/Calls.antt =====
-- The calls of the access control manager on one tenant or entry, and what a plain map of tenants
-- answers to them.
use job_queue.Prelude.{
  Option, none, some, List, [], ◌∷◌, if◌then◌else◌, ◌==◌, Settled, returned, threw,
}
use job_queue.Redis.{text_eq}
use job_queue.AccessControl.{Text, AccessControlEntry}
use job_queue.AccessControl.Store.{
  TenantConfig, TenantUpdate, merged, Outside, Manager, create_tenant, get_tenant, update_tenant,
  delete_tenant, grant_access, revoke_access,
}

-- The abstract view: which tenants there are.
abbrev pub Tenants : Type 0
Tenants = Text → Option TenantConfig

abbrev pub put : Text → Option TenantConfig → Tenants → Tenants
put i value f j = if i == j then value else f j

-- The calls that change what is stored, and `getTenant`.
pub data Op : Type 0 where
  to_create : TenantConfig → Op
  to_update : Text → TenantUpdate → Op
  to_delete : Text → Op
  to_get : Text → Op
  to_grant : AccessControlEntry → Op
  to_revoke : Text → Text → Op

abbrev pub Answer : Type 0
Answer = Settled (Option TenantConfig)

-- What each call does to the map, and how it settles.
abbrev pub updated : Text → TenantUpdate → Option TenantConfig → Tenants → Tenants × Answer
updated i u none f = (f, threw "Tenant not found")
updated i u (some c) f = (put i (some (merged c u i)) f, returned none)

abbrev pub got : Option TenantConfig → Answer
got none = threw "Tenant not found"
got (some c) = returned (some c)

unfoldable pub spec : Op → Tenants → Tenants × Answer
spec (to_create c) f = (put c.tenant_id (some c) f, returned none)
spec (to_update i u) f = updated i u (f i) f
spec (to_delete i) f = (put i none f, returned none)
spec (to_get i) f = (f, got (f i))
spec (to_grant ace) f = (f, returned none)
spec (to_revoke p q) f = (f, returned none)

unfoldable pub spec_answers : List Op → Tenants → List Answer
spec_answers [] f = []
spec_answers (op ∷ ops) f = (spec op f).1 ∷ spec_answers ops (spec op f).0

abbrev pub quiet : Settled (Unit {0}) → Answer
quiet (returned u) = returned none
quiet (threw error) = threw error

abbrev pub loud : Settled TenantConfig → Answer
loud (returned c) = returned (some c)
loud (threw error) = threw error

module _ {S : Type 0} (o : Outside S) where
  unfoldable pub perform : Op → Manager S → Manager S × Answer
  perform (to_create c) m = let (n, r) = create_tenant o c m in (n, quiet r)
  perform (to_update i u) m = let (n, r) = update_tenant o i u m in (n, quiet r)
  perform (to_delete i) m = let (n, r) = delete_tenant o i m in (n, quiet r)
  perform (to_get i) m = let (n, r) = get_tenant o i m in (n, loud r)
  perform (to_grant ace) m = let (n, r) = grant_access o ace m in (n, quiet r)
  perform (to_revoke p q) m = let (n, r) = revoke_access o p q m in (n, quiet r)

  unfoldable pub answers : List Op → Manager S → List Answer
  answers [] m = []
  answers (op ∷ ops) m = (perform op m).1 ∷ answers ops (perform op m).0
