-- ===== src/GlobalQueue/Failover.antt =====
-- Which region takes over when the primary one is down.
use job_queue.Prelude.{
  ◌≤◌, ◌≡◌, ◌↔◌, ◌∙◌, sym, ap, subst, Bool, true, false, not, ◌&&◌, none, some, List, [], ◌∷◌,
  arith, string_eq, All, best, head-sort, All-best, best-le, best-some, Bool-cases, inl, inr,
  Member,
}
use job_queue.JsMap
use job_queue.JobQueue.{Ref}
use job_queue.GlobalQueue.{
  RegionConfig, GlobalQueueConfig, Manager, failover_to, is_region_healthy, is_primary_region,
  priority_of, candidates, handle_failover, failover_enabled, health_check_tick,
}

-- The configured regions that could take over: those that answer, the primary one left out.
abbrev pub CanTakeOver : (Ref → Bool) → Manager → RegionConfig → Type 0
CanTakeOver ping m region =
    (is_region_healthy ping region.region m ≡ true) × (is_primary_region region.region m ≡ false)

true_ne_false : true ≡ false → ⊥
true_ne_false h = cc

module _ (ping : Ref → Bool) (m : Manager) where
  takes_over : RegionConfig → Bool
  takes_over region =
      is_region_healthy ping region.region m && not (is_primary_region region.region m)

  takes_over_iff : (c : RegionConfig) → (takes_over c ≡ true) ↔ CanTakeOver ping m c
  unfolding takes_over
  takes_over_iff c = ground arith

  candidates-in :
      (c : RegionConfig) (cs : List RegionConfig)
      → takes_over c ≡ true
      → candidates ping m (c ∷ cs) ≡ c ∷ candidates ping m cs
  unfolding takes_over
  candidates-in c cs h = ground (arith, h)

  candidates-out :
      (c : RegionConfig) (cs : List RegionConfig)
      → takes_over c ≡ false
      → candidates ping m (c ∷ cs) ≡ candidates ping m cs
  unfolding takes_over
  candidates-out c cs h = ground (arith, h)

  candidates-All :
      (P : RegionConfig → Type 0) (cs : List RegionConfig)
      → All P cs
      → All (λ c. CanTakeOver ping m c × P c) (candidates ping m cs)
  candidates-All P [] h = tt
  candidates-All P (c ∷ cs) (p, ps) = elim (Bool-cases (takes_over c)) [
    | inl h ↦ rw (candidates-in c cs h) (((takes_over_iff c).0 h, p), candidates-All P cs ps)
    | inr h ↦ rw (candidates-out c cs h) (candidates-All P cs ps)
  ]

  All-candidates :
      (P : RegionConfig → Type 0) (cs : List RegionConfig)
      → All P (candidates ping m cs)
      → All (λ c. CanTakeOver ping m c → P c) cs
  All-candidates P [] h = tt
  All-candidates P (c ∷ cs) h = elim (Bool-cases (takes_over c)) [
    | inl t ↦
        let split = subst (All P) (candidates-in c cs t) h in
        (λ _. split.0, All-candidates P cs split.1)
    | inr t ↦ (
      λ can. absurd (true_ne_false (sym ((takes_over_iff c).1 can) ∙ t)),
      All-candidates P cs (subst (All P) (candidates-out c cs t) h),
    )
  ]

  candidates-some :
      (c : RegionConfig) (cs : List RegionConfig)
      → Member c cs
      → CanTakeOver ping m c
      → (b : RegionConfig) × (best priority_of (candidates ping m cs) ≡ some b)
  candidates-some c [] w can = absurd w
  candidates-some c (d ∷ cs) w can = elim (Bool-cases (takes_over d)) [
    | inl t ↦ rw (candidates-in d cs t) (best-some priority_of d (candidates ping m cs))
    | inr t ↦ elim w [
      | inl e ↦ absurd (true_ne_false (sym ((takes_over_iff c).1 can) ∙ ap takes_over e ∙ t))
      | inr later ↦ rw (candidates-out d cs t) (candidates-some c cs later can)
    ]
  ]

module _ (ping : Ref → Bool) (m : Manager) (config : GlobalQueueConfig)
    (h : m.config ≡ some config) where
  handle_failover-none :
      best priority_of (candidates ping m config.regions) ≡ none → handle_failover ping m ≡ m
  unfolding handle_failover
  handle_failover-none e =
      ground (arith, h, e, head-sort priority_of (candidates ping m config.regions))

  handle_failover-some :
      (region : RegionConfig) (queue : Ref)
      → best priority_of (candidates ping m config.regions) ≡ some region
      → JsMap.get region.region m.queues ≡ some queue
      → handle_failover ping m ≡ record m { primary_region = some region.region }
  unfolding handle_failover failover_to
  handle_failover-some region queue e q =
      ground (arith, h, e, q, head-sort priority_of (candidates ping m config.regions))

  -- If the region of a health check is the primary one and does not answer, failover is enabled, every
  -- configured region has a queue, and some other configured region answers, then the check makes such
  -- a region the primary one, and nothing else: one of least priority number among those that answer.
  pub tick_recovers :
      (region c : RegionConfig)
      → failover_enabled m ≡ true
      → is_primary_region region.region m ≡ true
      → is_region_healthy ping region.region m ≡ false
      → All (λ d. (queue : Ref) × (JsMap.get d.region m.queues ≡ some queue)) config.regions
      → Member c config.regions
      → CanTakeOver ping m c
      → (b : RegionConfig) × (health_check_tick ping region m
          ≡ record m { primary_region = some b.region })
        × CanTakeOver ping m b
        × All (λ d. CanTakeOver ping m d → priority_of b ≤ priority_of d) config.regions
  unfolding health_check_tick
  tick_recovers region c on primary down ready w can =
      let (b, found) = candidates-some ping m c config.regions w can in
      let (takes, queue) =
        All-best priority_of _ (candidates ping m config.regions) b
          (candidates-All ping m _ config.regions ready) found in
      (
        b,
        rw (down, on, primary) (handle_failover-some b queue.0 found queue.1),
        takes,
        All-candidates ping m _ config.regions
            (best-le priority_of (candidates ping m config.regions) b found),
      )
