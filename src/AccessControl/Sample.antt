-- ===== src/AccessControl/Sample.antt =====
-- A text form of tenants and audit entries for the tests: numbers, then texts, all but the last
-- of them counted.
pub mod Entries
use job_queue.Prelude.{
  String, ℕ, zero, suc, ◌+◌, ◌≡◌, ◌∙◌, refl, ap, Bool, true, false, Option, none, some, List, [],
  ◌∷◌, ◌++◌, length, take, Settled, returned, threw,
}
use job_queue.JobQueue.{Ref}
use job_queue.Redis.{Json, present}
use job_queue.AccessControl.{
  Text, drop, Permission, can_add_job, can_view_job, can_modify_job, can_delete_job,
  can_manage_queue, can_manage_workers, can_view_metrics, Conditions, AccessControlEntry,
}
use job_queue.AccessControl.Store.{TenantConfig, AuditEntry}

pub take_first : (x y : Text) → take (length x) (x ++ y) ≡ x
take_first [] [] = refl
take_first [] (c ∷ y) = refl
take_first (c ∷ x) y = ap (λ t. c ∷ t) (take_first x y)

pub drop_first : (x y : Text) → drop (length x) (x ++ y) ≡ y
drop_first [] y = refl
drop_first (c ∷ x) y = drop_first x y

abbrev pub of_option : Option ℕ → ℕ
of_option none = 0
of_option (some n) = suc n

abbrev pub to_option : ℕ → Option ℕ
to_option zero = none
to_option (suc n) = some n

abbrev pub of_bool : Bool → ℕ
of_bool false = 0
of_bool true = 1

abbrev pub to_bool : ℕ → Bool
to_bool zero = false
to_bool (suc n) = true

pub option_back : (v : Option ℕ) → to_option (of_option v) ≡ v
option_back none = refl
option_back (some n) = refl

pub bool_back : (b : Bool) → to_bool (of_bool b) ≡ b
bool_back false = refl
bool_back true = refl

abbrev tenant_text : TenantConfig → Text
tenant_text c =
    length c.tenant_id
    ∷ of_option c.quota
    ∷ of_option c.allowed_regions
    ∷ of_option c.metadata
    ∷ c.created_at
    ∷ of_bool c.enabled
    ∷ (c.tenant_id ++ c.name)

abbrev parse_tenant : Text → Settled TenantConfig
parse_tenant (n ∷ quota ∷ regions ∷ metadata ∷ created_at ∷ enabled ∷ texts) = returned record {
  tenant_id = take n texts;
  name = drop n texts;
  quota = to_option quota;
  allowed_regions = to_option regions;
  metadata = to_option metadata;
  created_at = created_at;
  enabled = to_bool enabled;
}
parse_tenant _ = threw "SyntaxError"

pub parse-tenant_text : (c : TenantConfig) → parse_tenant (tenant_text c) ≡ returned c
parse-tenant_text c =
    rw
      (
        take_first c.tenant_id c.name,
        drop_first c.tenant_id c.name,
        option_back c.quota,
        option_back c.allowed_regions,
        option_back c.metadata,
        bool_back c.enabled,
      )
      refl

abbrev pub tenant_json : Json TenantConfig
tenant_json = record {
  stringify = tenant_text;
  parse = parse_tenant;
  stored = λ c. c;
  present-stringify = λ c. refl;
  parse-stringify = parse-tenant_text;
}

abbrev audit_text : AuditEntry → Text
audit_text e =
    length e.principal_id
    ∷ length e.action
    ∷ e.timestamp
    ∷ of_option e.metadata
    ∷ (e.principal_id ++ (e.action ++ e.queue_name))

abbrev parse_audit : Text → Settled AuditEntry
parse_audit (n ∷ k ∷ timestamp ∷ metadata ∷ texts) = returned record {
  principal_id = take n texts;
  action = take k (drop n texts);
  queue_name = drop k (drop n texts);
  timestamp = timestamp;
  metadata = to_option metadata;
}
parse_audit _ = threw "SyntaxError"

pub parse-audit_text : (e : AuditEntry) → parse_audit (audit_text e) ≡ returned e
parse-audit_text e =
    rw
      (
        take_first e.principal_id (e.action ++ e.queue_name),
        drop_first e.principal_id (e.action ++ e.queue_name),
        take_first e.action e.queue_name,
        drop_first e.action e.queue_name,
        option_back e.metadata,
      )
      refl

abbrev pub audit_json : Json AuditEntry
audit_json = record {
  stringify = audit_text;
  parse = parse_audit;
  stored = λ e. e;
  present-stringify = λ e. refl;
  parse-stringify = parse-audit_text;
}
