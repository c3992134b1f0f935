-- ===== src/AccessControl/Tests.antt =====
-- The pattern `a*b*` and names it matches or does not.
use job_queue.Prelude.{
  List, returned, threw, ◌≡◌, ◌↔◌, refl, Bool, true, false, none, some, [], ◌∷◌,
}
use job_queue.JsMap
use job_queue.JsMap.{JsMap}
use job_queue.Redis.{text_eq}
use job_queue.Redis.Memory.{memory, memory_answers}
use job_queue.AccessControl.Store.{TenantConfig, TenantUpdate, Outside, Manager}
use job_queue.AccessControl.Sample.{tenant_json, audit_json}
use job_queue.AccessControl.Sample.Entries.{entry_json}
use job_queue.AccessControl.Calls.{
  Op, to_create, to_update, to_get, to_grant, to_delete, answers, spec_answers, Tenants, spec,
}
use job_queue.AccessControl.Store.{grant_access}
use job_queue.AccessControl.Listing.{check_principal, get_principal_access, load_access, read_all}
use job_queue.AccessControl.Grants.{
  Change, granting, revoking, looking, granted, no_grants, perform, perform_all,
  check_principal_iff,
}
use job_queue.AccessControl.Tenants.{Implements, answers_refine}
use job_queue.AccessControl.{
  Text, star, matches_pattern, matches_wildcard_pattern, scan, Permission, can_add_job,
  can_view_job, AccessControlEntry, check_access, is_ace_allowed, are_met, check_conditions,
}
use job_queue.AccessControl.Glob.{glob}
use job_queue.AccessControl.Match.{matches_pattern_lem}
use job_queue.AccessControl.Access.{IsGrant, SomeGrant, check_access_iff}

abbrev pattern : Text
pattern = 97 ∷ star ∷ 98 ∷ star ∷ []

pattern_tests :
    (matches_pattern (97 ∷ 99 ∷ 98 ∷ []) pattern ≡ true)
    × (matches_pattern (97 ∷ 98 ∷ 99 ∷ []) pattern ≡ true)
    × (matches_pattern (98 ∷ 97 ∷ 98 ∷ []) pattern ≡ false)
    × (matches_pattern (97 ∷ 99 ∷ []) pattern ≡ false)
unfolding matches_pattern matches_wildcard_pattern scan
pattern_tests = (refl, refl, refl, refl)

matches_pattern_lem_example :
    matches_pattern (97 ∷ 99 ∷ 98 ∷ []) pattern ≡ glob pattern (97 ∷ 99 ∷ 98 ∷ [])
matches_pattern_lem_example = matches_pattern_lem (97 ∷ 99 ∷ 98 ∷ []) pattern

abbrev viewer : Permission → Bool
viewer can_view_job = true
viewer _ = false

abbrev entry : AccessControlEntry
entry = record {
  principal_id = 97 ∷ [];
  queue_pattern = pattern;
  permissions = viewer;
  expires_at = some 100;
  conditions = some (record { time_range = some (9, 17); ip_whitelist = none; custom = none });
}

access_tests :
    (check_access 50 10 (entry ∷ []) (97 ∷ 98 ∷ []) can_view_job none ≡ true)
    × (check_access 50 17 (entry ∷ []) (97 ∷ 98 ∷ []) can_view_job none ≡ false)
    × (check_access 101 10 (entry ∷ []) (97 ∷ 98 ∷ []) can_view_job none ≡ false)
    × (check_access 50 10 (entry ∷ []) (97 ∷ 98 ∷ []) can_add_job none ≡ false)
unfolding check_access is_ace_allowed are_met check_conditions matches_pattern
    matches_wildcard_pattern scan
access_tests = (refl, refl, refl, refl)

check_access_iff_example :
    (check_access 50 10 (entry ∷ []) (97 ∷ 98 ∷ []) can_view_job none ≡ true)
    ↔ SomeGrant 50 10 (97 ∷ 98 ∷ []) can_view_job none (entry ∷ [])
check_access_iff_example = check_access_iff 50 10 (97 ∷ 98 ∷ []) can_view_job none (entry ∷ [])

-- A manager on an empty Redis.
abbrev outside : Outside (JsMap Text Text)
outside = record {
  redis = memory;
  key_prefix = 97 ∷ [];
  tenants = tenant_json;
  entries = entry_json;
  audits = audit_json;
}

abbrev fresh : Manager (JsMap Text Text)
fresh = record { server = []; tenant_cache = []; acl_cache = [] }

abbrev no_tenants : Tenants
no_tenants i = none

fresh-Implements : Implements outside memory_answers fresh no_tenants
unfolding JsMap.get
fresh-Implements = record { held = λ i. refl; cached = λ i c e. cc e }

abbrev tenant : TenantConfig
tenant = record {
  tenant_id = 49 ∷ [];
  name = 65 ∷ [];
  quota = none;
  allowed_regions = none;
  metadata = none;
  created_at = 5;
  enabled = true;
}

abbrev disabling : TenantUpdate
disabling = record {
  name = none;
  quota = none;
  allowed_regions = none;
  metadata = none;
  created_at = none;
  enabled = some false;
}

abbrev calls : List Op
calls =
    to_create tenant
    ∷ to_update (49 ∷ []) disabling
    ∷ to_grant entry
    ∷ to_get (49 ∷ [])
    ∷ to_delete (49 ∷ [])
    ∷ to_get (49 ∷ [])
    ∷ []

answers_refine_example : answers outside calls fresh ≡ spec_answers calls no_tenants
answers_refine_example =
    answers_refine outside memory_answers (λ c. refl) calls fresh no_tenants fresh-Implements

spec_test :
    spec_answers calls no_tenants
    ≡ returned none
      ∷ returned none
      ∷ returned none
      ∷ returned (some (record tenant { enabled = false }))
      ∷ returned none
      ∷ threw "Tenant not found"
      ∷ []
unfolding spec_answers spec
spec_test = refl

abbrev changes : List Change
changes = granting entry ∷ looking (97 ∷ []) ∷ revoking (97 ∷ []) (98 ∷ []) ∷ []

empty_server : (k : Text) → memory_answers.look k [] ≡ none
unfolding JsMap.get
empty_server k = refl

check_principal_iff_example :
    ((check_principal outside 50 10
        (97 ∷ [])
        (97 ∷ 98 ∷ [])
        can_view_job
        none
        (perform_all outside changes fresh)).1
      ≡ returned true)
    ↔ ((q : Text) × ((e : AccessControlEntry) × ((granted changes no_grants (97 ∷ []) q ≡ some e)
            × IsGrant 50 10 (97 ∷ 98 ∷ []) can_view_job none (entry_json.stored e))))
check_principal_iff_example =
    check_principal_iff outside memory_answers refl changes [] (97 ∷ []) (97 ∷ 98 ∷ []) 50 10
      can_view_job none empty_server (refl, (refl, (refl, tt))) refl

-- The entry of another principal whose name goes on after a colon is collected too.
abbrev intruder : AccessControlEntry
intruder = record entry { principal_id = 97 ∷ 58 ∷ 98 ∷ [] }

intruder_test :
    (check_principal outside 50 10
      (97 ∷ [])
      (97 ∷ 98 ∷ [])
      can_view_job
      none
      (perform_all outside (granting intruder ∷ []) fresh)).1
    ≡ returned true
unfolding check_principal perform_all perform grant_access get_principal_access load_access read_all
    check_access is_ace_allowed are_met check_conditions matches_pattern matches_wildcard_pattern
    scan JsMap.get JsMap.set JsMap.delete
intruder_test = refl
