-- ===== src/GlobalQueue.antt =====
-- src/infrastructure/services/global-queue.manager.ts and
-- src/core/interfaces/global-queue.interface.ts. Queues and connections of other packages are
-- references; how they answer is an argument. `new` of them does not throw. The connection settings
-- of a region are left out, and so is the residency of data, which no code reads.
pub mod Failover
pub mod Readiness
pub mod Routing
pub mod Jobs
pub mod Replication
mod Tests
use job_queue.Prelude.{
  ℕ, suc, zero, ◌+◌, String, Bool, true, false, not, ◌&&◌, Option, none, some, List, [], ◌∷◌, ◌++◌,
  map, get_or, if◌then◌else◌, ltb, ◌==◌, string_eq, Settled, returned, threw, sort, by_key, head?,
}
use job_queue.JsMap
use job_queue.JsMap.{JsMap, values}
use job_queue.JobQueue.{Ref}

-- `RegionConfig`
pub record RegionConfig : Type 0 where
  pub region : String
  pub is_primary : Option Bool
  pub priority : Option ℕ
  pub health_check_interval_ms : Option ℕ

pub data Mode : Type 0 where
  sync async : Mode

-- `GlobalQueueConfig.replication`
pub record ReplicationConfig : Type 0 where
  pub enabled : Bool
  pub mode : Option Mode
  pub sync_timeout_ms : Option ℕ

-- `GlobalQueueConfig`, of `failover` the field `enabled`
pub record GlobalQueueConfig : Type 0 where
  pub name : String
  pub regions : List RegionConfig
  pub replication : Option ReplicationConfig
  pub failover_enabled : Option Bool

-- The fields of `GlobalQueueManager`, and the number of queues and connections made. An interval is
-- its period.
pub record Manager : Type 0 where
  pub queues : JsMap String Ref
  pub redis_clients : JsMap String Ref
  pub config : Option GlobalQueueConfig
  pub primary_region : Option String
  pub health_check_intervals : JsMap String ℕ
  pub made : ℕ

abbrev pub new : Manager
new = record {
  queues = [];
  redis_clients = [];
  config = none;
  primary_region = none;
  health_check_intervals = [];
  made = 0;
}

-- `initializeRegion`
unfoldable pub initialize_region : RegionConfig → Manager → Manager
initialize_region region m = record m {
  redis_clients = JsMap.set region.region m.made m.redis_clients;
  queues = JsMap.set region.region (m.made + 1) m.queues;
  made = m.made + 2;
}

-- `initializeRegions`
unfoldable pub initialize_regions : List RegionConfig → Manager → Manager
initialize_regions [] m = m
initialize_regions (region ∷ regions) m = initialize_regions regions (initialize_region region m)

abbrev pub find_primary : List RegionConfig → Option RegionConfig
find_primary [] = none
find_primary (region ∷ regions) =
    let rest = find_primary regions in if get_or region.is_primary false then some region else rest

abbrev pub region_of : Option RegionConfig → String
region_of none = ""
region_of (some region) = region.region

-- `determinePrimaryRegion`
unfoldable pub determine_primary_region : List RegionConfig → String
determine_primary_region regions = elim (find_primary regions) [
  | some region ↦ region.region
  | none ↦ region_of (head? regions)
]

-- `startHealthCheck`
unfoldable pub start_health_check : RegionConfig → Manager → Manager
start_health_check region m = record m {
  health_check_intervals =
      JsMap.set region.region (get_or region.health_check_interval_ms 30000)
        m.health_check_intervals;
}

-- `startHealthChecks`
unfoldable pub start_health_checks : List RegionConfig → Manager → Manager
start_health_checks [] m = m
start_health_checks (region ∷ regions) m = start_health_checks regions (start_health_check region m)

-- `initialize`, with `validateInitializeConfig`
unfoldable pub initialize : GlobalQueueConfig → Manager → Manager × Settled (Unit {0})
initialize config m = elim (config.regions) [
  | [] ↦ (m, threw "global-queue/no_regions")
  | region ∷ regions ↦
      let ready = initialize_regions (region ∷ regions) (record m { config = some config }) in
      let settled : Manager = record ready {
        primary_region = some (determine_primary_region (region ∷ regions));
      } in
      (start_health_checks (region ∷ regions) settled, returned tt)
]

-- `getQueue`
unfoldable pub get_queue : String → Manager → Option Ref
get_queue region m = JsMap.get region m.queues

-- `getRegionalQueue`
unfoldable pub get_regional_queue : String → Manager → Settled Ref
get_regional_queue region m = elim (JsMap.get region m.queues) [
  | none ↦ threw "global-queue/region_not_found"
  | some queue ↦ returned queue
]

-- `getPrimaryRegion`
unfoldable pub get_primary_region : Manager → String
get_primary_region m = get_or m.primary_region ""

-- `failoverTo`
unfoldable pub failover_to : String → Manager → Manager × Settled (Unit {0})
failover_to region m = elim (JsMap.get region m.queues) [
  | none ↦ (m, threw "global-queue/region_not_found")
  | some queue ↦ (record m { primary_region = some region }, returned tt)
]

-- `isRegionHealthy`; `ping` says whether a connection answers
unfoldable pub is_region_healthy : (Ref → Bool) → String → Manager → Bool
is_region_healthy ping region m = elim (JsMap.get region m.redis_clients) [
  | none ↦ false
  | some redis ↦ ping redis
]

abbrev pub is_primary_region : String → Manager → Bool
is_primary_region region m = elim (m.primary_region) [
  | none ↦ false
  | some primary ↦ region == primary
]

-- `r.priority ?? 999`
abbrev pub priority_of : RegionConfig → ℕ
priority_of region = get_or region.priority 999

-- `.filter((r) => r.healthy && r.region !== this.primaryRegion)`
abbrev pub candidates : (Ref → Bool) → Manager → List RegionConfig → List RegionConfig
candidates ping m [] = []
candidates ping m (region ∷ regions) =
    let rest = candidates ping m regions in
    if is_region_healthy ping region.region m && not (is_primary_region region.region m)
    then region ∷ rest
    else rest

-- `handleFailover`, which catches what `failoverTo` throws
unfoldable pub handle_failover : (Ref → Bool) → Manager → Manager
unfolding failover_to is_region_healthy
handle_failover ping m = elim (m.config) [
  | none ↦ m
  | some config ↦ elim (head? (sort (by_key priority_of) (candidates ping m config.regions))) [
    | none ↦ m
    | some new_primary ↦ (failover_to new_primary.region m).0
  ]
]

abbrev pub failover_enabled : Manager → Bool
failover_enabled m = elim (m.config) [
  | none ↦ false
  | some config ↦ get_or config.failover_enabled false
]

-- `healthCheckTick`
unfoldable pub health_check_tick : (Ref → Bool) → RegionConfig → Manager → Manager
unfolding handle_failover
health_check_tick ping region m =
    if is_region_healthy ping region.region m
    then m
    else if failover_enabled m && is_primary_region region.region m
    then handle_failover ping m
    else m
