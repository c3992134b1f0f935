-- ===== src/AccessControl/Access.antt =====
-- When `checkAccess` grants access.
use job_queue.Prelude.{
  ℕ, ◌≤◌, ◌<◌, ◌≡◌, ◌↔◌, ◌⊎◌, inl, inr, refl, sym, Bool, true, false, Option, none, some, List, [],
  ◌∷◌, arith, Bool-cases,
}
use job_queue.AccessControl.{
  Text, Permission, Conditions, AccessControlEntry, check_conditions, is_outside, passes,
  is_current, are_met, is_ace_allowed, check_access,
}
use job_queue.AccessControl.Glob.{glob}
use job_queue.AccessControl.Match.{matches_pattern_lem}

module _ (now hour : ℕ) (queue_name : Text) (permission : Permission) (context : Option ℕ) where
  -- The expiry and the conditions of an entry: not past its expiry; within its hours; and its own
  -- test is passed, if there is one and a context to test.
  abbrev pub IsValid : Option ℕ → Type 0
  IsValid none = Unit
  IsValid (some expiry) = now ≤ expiry

  abbrev pub IsInHours : Option (ℕ × ℕ) → Type 0
  IsInHours none = Unit
  IsInHours (some (start, end)) = (start ≤ hour) × (hour < end)

  abbrev pub IsPassed : Option (ℕ → Bool) → Option ℕ → Type 0
  IsPassed none c = Unit
  IsPassed (some test) none = Unit
  IsPassed (some test) (some c) = test c ≡ true

  abbrev pub IsMet : Option Conditions → Type 0
  IsMet none = Unit
  IsMet (some conditions) = IsInHours conditions.time_range × IsPassed conditions.custom context

  -- An entry that grants the permission on the queue.
  abbrev pub IsGrant : AccessControlEntry → Type 0
  IsGrant ace =
      (glob ace.queue_pattern queue_name ≡ true)
      × (ace.permissions permission ≡ true)
      × IsValid ace.expires_at
      × IsMet ace.conditions

  abbrev pub SomeGrant : List AccessControlEntry → Type 0
  SomeGrant [] = true ≡ false
  SomeGrant (ace ∷ aces) = IsGrant ace ⊎ SomeGrant aces

  current_iff : (e : Option ℕ) → (is_current now e ≡ true) ↔ IsValid e
  current_iff none = (λ h. tt, λ h. refl)
  current_iff (some expiry) = ground arith

  hours_iff : (t : Option (ℕ × ℕ)) → (is_outside hour t ≡ false) ↔ IsInHours t
  hours_iff none = (λ h. tt, λ h. refl)
  hours_iff (some (start, end)) = ground arith

  passes_iff : (t : Option (ℕ → Bool)) (c : Option ℕ) → (passes t c ≡ true) ↔ IsPassed t c
  passes_iff none c = (λ h. tt, λ h. refl)
  passes_iff (some test) none = (λ h. tt, λ h. refl)
  passes_iff (some test) (some c) = (λ h. h, λ h. h)

  conditions_iff : (o : Option Conditions) → (are_met hour o context ≡ true) ↔ IsMet o
  unfolding are_met check_conditions
  conditions_iff none = (λ h. tt, λ h. refl)
  conditions_iff (some conditions) =
      let hours = hours_iff conditions.time_range in
      let passed = passes_iff conditions.custom context in
      (
        λ h. (hours.0 (ground (arith, h)), passed.0 (ground (arith, h))),
        λ (inside, test). ground (arith, hours.1 inside, passed.1 test),
      )

  allowed_iff :
      (ace : AccessControlEntry)
      → (is_ace_allowed now hour ace queue_name permission context ≡ true) ↔ IsGrant ace
  unfolding is_ace_allowed
  allowed_iff ace =
      let current = current_iff ace.expires_at in
      let met = conditions_iff ace.conditions in
      let matched = matches_pattern_lem queue_name ace.queue_pattern in
      (
        λ h. (
          ground (arith, h, matched),
          ground (arith, h),
          current.0 (ground (arith, h)),
          met.0 (ground (arith, h)),
        ),
        λ (m, p, v, c). ground (arith, matched, m, p, current.1 v, met.1 c),
      )

  -- `checkAccess` grants a permission on a queue exactly if some entry of the principal grants it:
  -- its pattern matches the name of the queue, it has the permission, it has not expired, the hour is
  -- in its range, and its own test is passed, if it has one and there is a context. The list of IP
  -- addresses in an entry plays no part.
  pub check_access_iff :
      (aces : List AccessControlEntry)
      → (check_access now hour aces queue_name permission context ≡ true) ↔ SomeGrant aces
  unfolding check_access
  check_access_iff [] = (λ h. sym h, λ h. sym h)
  check_access_iff (ace ∷ aces) =
      let first = allowed_iff ace in
      let others = check_access_iff aces in
      elim (Bool-cases (is_ace_allowed now hour ace queue_name permission context)) [
        | inl granted ↦ (λ h. inl (first.0 granted), λ g. ground (arith, granted))
        | inr refused ↦ (
          λ h. inr (others.0 (ground (arith, h, refused))),
          λ g. elim g [
            | inl grant ↦ ground (arith, first.1 grant)
            | inr rest ↦ ground (arith, others.1 rest)
          ],
        )
      ]
