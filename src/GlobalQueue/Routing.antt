-- ===== src/GlobalQueue/Routing.antt =====
-- Where a job goes after any calls of the manager and any ticks of its health checks.
use job_queue.Prelude.{
  ◌≡◌, refl, String, Bool, Option, none, some, List, [], ◌∷◌, arith, get_or, string_eq, ◌⊎◌, ◌&&◌,
  head?, Option-cases, Bool-cases, inl, inr, sort, by_key,
}
use job_queue.JobQueue.{Ref}
use job_queue.GlobalQueue.{
  RegionConfig, GlobalQueueConfig, Manager, new, initialize, get_queue, failover_to,
  handle_failover, health_check_tick, priority_of, candidates, is_region_healthy, failover_enabled,
  is_primary_region, get_primary_region,
}
use job_queue.GlobalQueue.Jobs.{Job, World, add_job, close}
use job_queue.GlobalQueue.Readiness.{
  HasQueue, IsReadyFor, IsReady, initialize-IsReady, failover_to-IsReady,
}

failover_cases :
    (ping : Ref → Bool) (m : Manager)
    → (handle_failover ping m ≡ m) ⊎ ((r : String) × (handle_failover ping m ≡ (failover_to r m).0))
unfolding handle_failover
failover_cases ping m = elim (Option-cases m.config) [
  | inl absent ↦ inl (ground (arith, absent))
  | inr (config, e) ↦
      elim (Option-cases (head? (sort (by_key priority_of) (candidates ping m config.regions)))) [
        | inl empty ↦ inl (ground (arith, e, empty))
        | inr (r, found) ↦ inr (r.region, ground (arith, e, found))
      ]
]

-- A health check does nothing, or what `failoverTo` does for some region.
tick_cases :
    (ping : Ref → Bool) (region : RegionConfig) (m : Manager)
    → (health_check_tick ping region m ≡ m)
      ⊎ ((r : String) × (health_check_tick ping region m ≡ (failover_to r m).0))
unfolding health_check_tick
tick_cases ping region m = elim (Bool-cases (is_region_healthy ping region.region m)) [
  | inl up ↦ inl (rw up refl)
  | inr down ↦ elim (Bool-cases (failover_enabled m && is_primary_region region.region m)) [
    | inr idle ↦ inl (rw (down, idle) refl)
    | inl due ↦ elim (failover_cases ping m) [
      | inl same ↦ inl (rw (down, due) same)
      | inr (r, e) ↦ inr (r, rw (down, due) e)
    ]
  ]
]

tick-IsReady :
    (ping : Ref → Bool) (region : RegionConfig) (m : Manager)
    → IsReady m
    → IsReady (health_check_tick ping region m)
tick-IsReady ping region m h = elim (tick_cases ping region m) [
  | inl same ↦ rw same h
  | inr (r, e) ↦ rw e (failover_to-IsReady r m h)
]

-- The calls that change a manager, and the ticks of its intervals.
pub data Op : Type 0 where
  to_initialize : GlobalQueueConfig → Op
  to_failover : String → Op
  to_tick : (Ref → Bool) → RegionConfig → Op
  to_close : Op

unfoldable pub perform : Op → Manager → Manager
perform (to_initialize config) m = (initialize config m).0
perform (to_failover region) m = (failover_to region m).0
perform (to_tick ping region) m = health_check_tick ping region m
perform to_close m = (close m).0

unfoldable pub perform_all : List Op → Manager → Manager
perform_all [] m = m
perform_all (op ∷ ops) m = perform_all ops (perform op m)

perform-IsReady : (op : Op) (m : Manager) → IsReady m → IsReady (perform op m)
unfolding perform close
perform-IsReady (to_initialize config) m h = initialize-IsReady config m h
perform-IsReady (to_failover region) m h = failover_to-IsReady region m h
perform-IsReady (to_tick ping region) m h = tick-IsReady ping region m h
perform-IsReady to_close m h = h

pub perform_all-IsReady : (ops : List Op) (m : Manager) → IsReady m → IsReady (perform_all ops m)
unfolding perform_all
perform_all-IsReady [] m h = h
perform_all-IsReady (op ∷ ops) m h = perform_all-IsReady ops (perform op m) (perform-IsReady op m h)

IsReady-queue :
    (m : Manager) (config : Option GlobalQueueConfig) (primary : Option String)
    (c : GlobalQueueConfig)
    → IsReadyFor m config primary
    → config ≡ some c
    → HasQueue m (get_or primary "")
IsReady-queue m none primary c h e = cc
IsReady-queue m (some config) none c h e = absurd h
IsReady-queue m (some config) (some primary) c h e = h.1

-- After any calls, and any ticks of the health checks, a manager that has a configuration routes a
-- job to a queue, that of its primary region, and `addJob` settles as that queue answers: whatever
-- becomes of the replicas, and also after `close`.
pub add_job_routed :
    (ops : List Op) (config : GlobalQueueConfig) (world : World) (job : Job)
    → let m = perform_all ops new in
      m.config ≡ some config
      → (queue : Ref) × (get_queue (get_primary_region m) m ≡ some queue)
        × ((add_job world m job).1 ≡ world.add queue)
unfolding get_queue get_primary_region add_job
add_job_routed ops config world job h =
    let m = perform_all ops new in
    let (queue, found) =
      IsReady-queue m m.config m.primary_region config (perform_all-IsReady ops new tt) h in
    (queue, found, ground (arith, found))
