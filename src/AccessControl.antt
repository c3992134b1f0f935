-- ===== src/AccessControl.antt =====
-- src/infrastructure/services/access-control.manager.ts: `checkAccess` and what
-- it calls, and src/core/interfaces/access-control.interface.ts. A pattern and the name of a queue are
-- lists of code units. The entries of the principal, which Redis or the cache holds, are an argument,
-- and so are the time and the hour.
pub mod Glob
pub mod Greedy
pub mod Stars
pub mod Split
pub mod Match
pub mod Access
pub mod Store
pub mod Listing
pub mod Keys
pub mod Calls
pub mod Tenants
pub mod Names
pub mod Reading
pub mod Tracking
pub mod Loading
pub mod Grants
pub mod Sample
mod Tests
use job_queue.Prelude.{
  ℕ, suc, zero, ◌+◌, String, leb, ltb, Bool, true, false, not, ◌||◌, ◌&&◌, Option, none, some, List,
  [], ◌∷◌, nat_beq, if◌then◌else◌, length,
}

abbrev pub Text : Type 0
Text = List ℕ

-- The code unit of `*`
abbrev pub star : ℕ
star = 42

-- `===` on strings
abbrev pub text_beq : Text → Text → Bool
text_beq [] [] = true
text_beq [] (y ∷ b) = false
text_beq (x ∷ a) [] = false
text_beq (x ∷ a) (y ∷ b) = nat_beq x y && text_beq a b

-- What follows a prefix, if it is one.
abbrev pub strip : Text → Text → Option Text
strip [] v = some v
strip (x ∷ l) [] = none
strip (x ∷ l) (y ∷ v) = let rest = strip l v in if nat_beq x y then rest else none

abbrev pub is_some : Option Text → Bool
is_some none = false
is_some (some v) = true

-- `value.startsWith(l)`
abbrev pub starts_with : Text → Text → Bool
starts_with l v = is_some (strip l v)

-- `value.endsWith(l)`
abbrev pub ends_with : Text → Text → Bool
ends_with l [] = text_beq [] l
ends_with l (y ∷ v) = text_beq (y ∷ v) l || ends_with l v

abbrev pub drop : ℕ → Text → Text
drop zero v = v
drop (suc n) [] = []
drop (suc n) (y ∷ v) = drop n v

-- `value.indexOf(l)`
abbrev pub index_in : Text → Text → Option ℕ
index_in l [] = if starts_with l [] then some 0 else none
index_in l (y ∷ v) =
    let later = index_in l v in
    if starts_with l (y ∷ v) then some 0 else (elim later [ none ↦ none | some i ↦ some (1 + i) ])

-- `value.indexOf(l, position)`, for positions up to the end
abbrev pub index_of : Text → Text → ℕ → Option ℕ
index_of l v position = elim (index_in l (drop position v)) [
  | none ↦ none
  | some i ↦ some (position + i)
]

-- `pattern.includes('*')`
abbrev pub includes_star : Text → Bool
includes_star [] = false
includes_star (x ∷ p) = nat_beq x star || includes_star p

-- `pattern.split('*')`
abbrev pub cons_head : ℕ → List Text → List Text
cons_head x [] = (x ∷ []) ∷ []
cons_head x (l ∷ ls) = (x ∷ l) ∷ ls

abbrev pub split : Text → List Text
split [] = [] ∷ []
split (x ∷ p) = let rest = split p in if nat_beq x star then [] ∷ rest else cons_head x rest

-- `.filter((part) => part.length > 0)`
abbrev pub non_empty : List Text → List Text
non_empty [] = []
non_empty ([] ∷ ls) = non_empty ls
non_empty ((x ∷ l) ∷ ls) = (x ∷ l) ∷ non_empty ls

-- `parts[parts.length - 1]`
abbrev pub last_of : Text → List Text → Text
last_of l [] = l
last_of l (m ∷ ls) = last_of m ls

-- the loop over the parts
unfoldable pub scan : List Text → Text → ℕ → Bool
scan [] value position = true
scan (part ∷ parts) value position = elim (index_of part value position) [
  | none ↦ false
  | some index ↦ scan parts value (index + length part)
]

-- `matchesWildcardPattern`
unfoldable pub matches_wildcard_pattern : Text → Text → Bool
unfolding scan
matches_wildcard_pattern value pattern =
    if includes_star pattern
    then (elim (non_empty (split pattern)) [
      | [] ↦ true
      | first ∷ others ↦
          scan (first ∷ others) value 0
          && ((starts_with (star ∷ []) pattern || starts_with first value)
              && (ends_with (star ∷ []) pattern || ends_with (last_of first others) value))
    ])
    else text_beq value pattern

-- `matchesPattern`
unfoldable pub matches_pattern : Text → Text → Bool
unfolding matches_wildcard_pattern
matches_pattern value pattern =
    if text_beq pattern (star ∷ [])
    then true
    else if text_beq pattern value
    then true
    else matches_wildcard_pattern value pattern

-- `keyof QueuePermissions`
pub data Permission : Type 0 where
  can_add_job can_view_job can_modify_job can_delete_job : Permission
  can_manage_queue can_manage_workers can_view_metrics : Permission

-- The conditions of an entry; a custom one is a test of the context, a reference
pub record Conditions : Type 0 where
  pub time_range : Option (ℕ × ℕ)
  pub ip_whitelist : Option (List String)
  pub custom : Option (ℕ → Bool)

-- `AccessControlEntry`, the fields that decide
pub record AccessControlEntry : Type 0 where
  pub principal_id : Text
  pub queue_pattern : Text
  pub permissions : Permission → Bool
  pub expires_at : Option ℕ
  pub conditions : Option Conditions

abbrev pub is_outside : ℕ → Option (ℕ × ℕ) → Bool
is_outside hour none = false
is_outside hour (some (start, end)) = ltb hour start || leb end hour

-- the last lines of `checkConditions`
abbrev pub passes : Option (ℕ → Bool) → Option ℕ → Bool
passes none context = true
passes (some test) none = true
passes (some test) (some context) = test context

-- `checkConditions`
unfoldable pub check_conditions : ℕ → Conditions → Option ℕ → Bool
check_conditions hour conditions context =
    if is_outside hour conditions.time_range then false else passes conditions.custom context

-- `ace.expiresAt === undefined || ace.expiresAt >= now`
abbrev pub is_current : ℕ → Option ℕ → Bool
is_current now none = true
is_current now (some expiry) = leb now expiry

abbrev pub are_met : ℕ → Option Conditions → Option ℕ → Bool
unfolding check_conditions
are_met hour none context = true
are_met hour (some conditions) context = check_conditions hour conditions context

-- `isAceAllowed`
unfoldable pub is_ace_allowed :
    (now hour : ℕ) → AccessControlEntry → Text → Permission → Option ℕ → Bool
unfolding matches_pattern are_met
is_ace_allowed now hour ace queue_name permission context =
    matches_pattern queue_name ace.queue_pattern
    && (ace.permissions permission
        && (is_current now ace.expires_at && are_met hour ace.conditions context))

-- the loop of `checkAccess`
unfoldable pub check_access :
    (now hour : ℕ) → List AccessControlEntry → Text → Permission → Option ℕ → Bool
unfolding is_ace_allowed
check_access now hour [] queue_name permission context = false
check_access now hour (ace ∷ aces) queue_name permission context =
    let rest = check_access now hour aces queue_name permission context in
    if is_ace_allowed now hour ace queue_name permission context then true else rest
