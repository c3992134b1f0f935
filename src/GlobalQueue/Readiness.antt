-- ===== src/GlobalQueue/Readiness.antt =====
-- Once a manager is initialized, its regions have queues, and a job that is added finds one.
use job_queue.Prelude.{
  ◌+◌, ◌≡◌, ◌∙◌, refl, sym, subst, String, true, false, Option, none, some, List, [], ◌∷◌, arith,
  get_or, ◌==◌, string_eq, All, some_injective, All-map, List-cases, Option-cases, Bool-cases, inl,
  inr, returned, threw,
}
use job_queue.JsMap
use job_queue.JsMap.Laws.{get-set}
use job_queue.JobQueue.{Ref}
use job_queue.GlobalQueue.{
  RegionConfig, GlobalQueueConfig, Manager, initialize_region, initialize_regions, find_primary,
  determine_primary_region, start_health_check, start_health_checks, initialize, failover_to,
}

abbrev pub HasQueue : Manager → String → Type 0
HasQueue m region = (queue : Ref) × (JsMap.get region m.queues ≡ some queue)

-- A manager that is not initialized, or one whose regions all have a queue, the primary one too.
abbrev pub IsReadyFor : Manager → Option GlobalQueueConfig → Option String → Type 0
IsReadyFor m none primary = Unit
IsReadyFor m (some config) none = ⊥
IsReadyFor m (some config) (some primary) =
    All (λ r. HasQueue m r.region) config.regions × HasQueue m primary

abbrev pub IsReady : Manager → Type 0
IsReady m = IsReadyFor m m.config m.primary_region

initialize_region-keeps :
    (c : RegionConfig) (m : Manager) (region : String)
    → HasQueue m region
    → HasQueue (initialize_region c m) region
unfolding initialize_region
initialize_region-keeps c m region (queue, h) = elim (Bool-cases (c.region == region)) [
  | inl same ↦ (m.made + 1, ground (arith, same, get-set c.region region (m.made + 1) m.queues))
  | inr other ↦ (queue, ground (arith, other, h, get-set c.region region (m.made + 1) m.queues))
]

initialize_region-adds :
    (c : RegionConfig) (m : Manager) → HasQueue (initialize_region c m) c.region
unfolding initialize_region
initialize_region-adds c m = (m.made + 1, JsMap.Laws.get-set_self c.region (m.made + 1) m.queues)

initialize_regions-keeps :
    (cs : List RegionConfig) (m : Manager) (region : String)
    → HasQueue m region
    → HasQueue (initialize_regions cs m) region
unfolding initialize_regions
initialize_regions-keeps [] m region h = h
initialize_regions-keeps (c ∷ cs) m region h =
    initialize_regions-keeps cs (initialize_region c m) region
      (initialize_region-keeps c m region h)

initialize_regions-adds :
    (cs : List RegionConfig) (m : Manager)
    → All (λ c. HasQueue (initialize_regions cs m) c.region) cs
unfolding initialize_regions
initialize_regions-adds [] m = tt
initialize_regions-adds (c ∷ cs) m = (
  initialize_regions-keeps cs (initialize_region c m) c.region (initialize_region-adds c m),
  initialize_regions-adds cs (initialize_region c m),
)

initialize_regions-config :
    (cs : List RegionConfig) (m : Manager) → (initialize_regions cs m).config ≡ m.config
unfolding initialize_regions initialize_region
initialize_regions-config [] m = refl
initialize_regions-config (c ∷ cs) m = initialize_regions-config cs (initialize_region c m)

-- The region that is chosen as the primary one is one of those configured.
find_primary-here :
    (d : RegionConfig) (cs : List RegionConfig)
    → get_or d.is_primary false ≡ true
    → find_primary (d ∷ cs) ≡ some d
find_primary-here d cs h = ground (arith, h)

find_primary-later :
    (d : RegionConfig) (cs : List RegionConfig)
    → get_or d.is_primary false ≡ false
    → find_primary (d ∷ cs) ≡ find_primary cs
find_primary-later d cs h = ground (arith, h)

find_primary-All :
    (P : String → Type 0) (cs : List RegionConfig) (c : RegionConfig)
    → All (λ r. P r.region) cs
    → find_primary cs ≡ some c
    → P c.region
find_primary-All P [] c h e = cc
find_primary-All P (d ∷ cs) c (p, ps) e = elim (Bool-cases (get_or d.is_primary false)) [
  | inl marked ↦
      subst (λ (r : RegionConfig). P r.region)
        (some_injective (sym (find_primary-here d cs marked) ∙ e)) p
  | inr plain ↦ find_primary-All P cs c ps (sym (find_primary-later d cs plain) ∙ e)
]

determine-All :
    (P : String → Type 0) (c : RegionConfig) (cs : List RegionConfig)
    → All (λ r. P r.region) (c ∷ cs)
    → P (determine_primary_region (c ∷ cs))
unfolding determine_primary_region
determine-All P c cs (p, ps) = elim (Option-cases (find_primary (c ∷ cs))) [
  | inl absent ↦ rw (absent, determine_primary_region) p
  | inr (d, found) ↦
      rw (found, determine_primary_region) (find_primary-All P (c ∷ cs) d (p, ps) found)
]

start_health_checks-fields :
    (cs : List RegionConfig) (m : Manager)
    → ((start_health_checks cs m).queues ≡ m.queues)
      × ((start_health_checks cs m).config ≡ m.config)
      × ((start_health_checks cs m).primary_region ≡ m.primary_region)
unfolding start_health_checks start_health_check
start_health_checks-fields [] m = (refl, refl, refl)
start_health_checks-fields (c ∷ cs) m = start_health_checks-fields cs (start_health_check c m)

IsReady-of :
    (m : Manager) (config : GlobalQueueConfig) (primary : String)
    → m.config ≡ some config
    → m.primary_region ≡ some primary
    → IsReadyFor m (some config) (some primary)
    → IsReady m
IsReady-of m config primary c p h =
    subst (λ o. IsReadyFor m o m.primary_region) (sym c)
      (subst (λ o. IsReadyFor m (some config) o) (sym p) h)

-- What `initialize` makes of a manager if there is a region.
abbrev after_initialize : GlobalQueueConfig → RegionConfig → List RegionConfig → Manager → Manager
after_initialize config c cs m =
    record (initialize_regions (c ∷ cs) (record m { config = some config })) {
      primary_region = some (determine_primary_region (c ∷ cs));
    }

initialize-cons :
    (config : GlobalQueueConfig) (c : RegionConfig) (cs : List RegionConfig) (m : Manager)
    → config.regions ≡ c ∷ cs
    → initialize config m
      ≡ (start_health_checks (c ∷ cs) (after_initialize config c cs m), returned tt)
unfolding initialize
initialize-cons config c cs m e = ground (arith, e)

initialize-nil :
    (config : GlobalQueueConfig) (m : Manager)
    → config.regions ≡ []
    → initialize config m ≡ (m, threw "global-queue/no_regions")
unfolding initialize
initialize-nil config m e = ground (arith, e)

pub initialize-IsReady :
    (config : GlobalQueueConfig) (m : Manager) → IsReady m → IsReady (initialize config m).0
initialize-IsReady config m h = elim (List-cases config.regions) [
  | inl empty ↦ rw (initialize-nil config m empty) h
  | inr (c, rest) ↦
      let (cs, e) = rest in
      let ready = initialize_regions (c ∷ cs) (record m { config = some config }) in
      let mid = after_initialize config c cs m in
      let fields = start_health_checks-fields (c ∷ cs) mid in
      let queues : All (λ r. HasQueue ready r.region) (c ∷ cs) =
        initialize_regions-adds (c ∷ cs) (record m { config = some config }) in
      let moved = λ (region : String) (q : HasQueue ready region).
        subst (λ qs. (queue : Ref) × (JsMap.get region qs ≡ some queue)) (sym fields.0) q in
      rw (initialize-cons config c cs m e) (
        IsReady-of (start_health_checks (c ∷ cs) mid) config (determine_primary_region (c ∷ cs))
          (fields.1 ∙ initialize_regions-config (c ∷ cs) (record m { config = some config }))
          fields.2
          (
            subst (All (λ r. HasQueue (start_health_checks (c ∷ cs) mid) r.region)) (sym e)
                (All-map (λ r q. moved r.region q) (c ∷ cs) queues),
            moved (determine_primary_region (c ∷ cs)) (determine-All (HasQueue ready) c cs queues),
          ))
]

-- Another region becomes the primary one.
IsReady-move :
    (m : Manager) (region : String) (config : Option GlobalQueueConfig) (primary : Option String)
    → HasQueue m region
    → IsReadyFor m config primary
    → IsReadyFor (record m { primary_region = some region }) config (some region)
IsReady-move m region none primary q h = tt
IsReady-move m region (some config) none q h = absurd h
IsReady-move m region (some config) (some primary) q h = (h.0, q)

pub failover_to-IsReady :
    (region : String) (m : Manager) → IsReady m → IsReady (failover_to region m).0
unfolding failover_to
failover_to-IsReady region m h = elim (Option-cases (JsMap.get region m.queues)) [
  | inl absent ↦ rw (absent, failover_to) h
  | inr (queue, found) ↦
      rw (found, failover_to) (IsReady-move m region m.config m.primary_region (queue, found) h)
]
