-- ===== src/GlobalQueue/Tests.antt =====
-- Two regions: the second one takes over, and gets a copy of each job.
use job_queue.Prelude.{
  ◌≡◌, ◌≤◌, refl, Bool, true, false, not, none, some, List, [], ◌∷◌, map, if◌then◌else◌, string_eq,
  All, inl, returned, threw, nat_beq,
}
use job_queue.JsMap
use job_queue.JobQueue.{Ref}
use job_queue.GlobalQueue.{
  RegionConfig, GlobalQueueConfig, ReplicationConfig, Manager, new, initialize, initialize_region,
  initialize_regions, determine_primary_region, start_health_check, start_health_checks,
  is_region_healthy, failover_to, handle_failover, health_check_tick, get_queue, get_primary_region,
  priority_of,
}
use job_queue.GlobalQueue.Jobs.{
  Job, added, World, add_job, replicate_job, replicate_to, replicate_job_to_region, get_primary_job,
  close, get_replication_status, status_of, is_pending, is_replicated,
}
use job_queue.GlobalQueue.Failover.{CanTakeOver, tick_recovers}
use job_queue.GlobalQueue.Routing.{
  Op, to_initialize, to_close, perform, perform_all, add_job_routed,
}
use job_queue.GlobalQueue.Replication.{other_queues, add_job_async}

abbrev east : RegionConfig
east = record {
  region = "east";
  is_primary = some true;
  priority = none;
  health_check_interval_ms = none;
}

abbrev west : RegionConfig
west = record {
  region = "west";
  is_primary = none;
  priority = some 2;
  health_check_interval_ms = some 10;
}

abbrev copies : ReplicationConfig
copies = record { enabled = true; mode = none; sync_timeout_ms = none }

abbrev two_regions : GlobalQueueConfig
two_regions = record {
  name = "jobs";
  regions = west ∷ east ∷ [];
  replication = some copies;
  failover_enabled = some true;
}

abbrev ready : Manager
ready = record {
  queues = ("west", 1) ∷ ("east", 3) ∷ [];
  redis_clients = ("west", 0) ∷ ("east", 2) ∷ [];
  config = some two_regions;
  primary_region = some "east";
  health_check_intervals = ("west", 10) ∷ ("east", 30000) ∷ [];
  made = 4;
}

ready_test : initialize two_regions new ≡ (ready, returned tt)
unfolding initialize initialize_regions initialize_region determine_primary_region
    start_health_checks start_health_check JsMap.set
ready_test = refl

abbrev no_regions : GlobalQueueConfig
no_regions = record two_regions { regions = [] }

no_regions_test : initialize no_regions ready ≡ (ready, threw "global-queue/no_regions")
unfolding initialize
no_regions_test = refl

-- The connection to the east is down.
abbrev east_down : Ref → Bool
east_down redis = not (nat_beq redis 2)

east_is_down : is_region_healthy east_down "east" ready ≡ false
unfolding is_region_healthy JsMap.get
east_is_down = refl

west_can : CanTakeOver east_down ready west
unfolding is_region_healthy JsMap.get
west_can = (refl, refl)

have_queues :
    All (λ d. (queue : Ref) × (JsMap.get d.region ready.queues ≡ some queue)) two_regions.regions
unfolding JsMap.get
have_queues = ((1, refl), ((3, refl), tt))

tick_recovers_example :
    (b : RegionConfig) × (health_check_tick east_down east ready
      ≡ record ready { primary_region = some b.region })
    × CanTakeOver east_down ready b
    × All (λ d. CanTakeOver east_down ready d → priority_of b ≤ priority_of d) two_regions.regions
tick_recovers_example =
    tick_recovers east_down ready two_regions refl east west refl refl east_is_down have_queues
      (inl refl) west_can

tick_test : health_check_tick east_down east ready ≡ record ready { primary_region = some "west" }
unfolding health_check_tick handle_failover failover_to is_region_healthy JsMap.get
tick_test = refl

abbrev job : Job
job = record { name = "mail"; payload = 7 }

-- The queue of the west refuses every job.
abbrev answers : World
answers = record {
  add = λ queue. if nat_beq queue 3 then returned "1" else threw "down";
  get_job = λ queue id. returned (if nat_beq queue 3 then some job else none);
  counts = λ queue. returned (0, 0, 0, 0);
  ping = λ redis. true;
}

abbrev calls : List Op
calls = to_initialize two_regions ∷ to_close ∷ []

after_close : (perform_all calls new).config ≡ some two_regions
unfolding perform_all perform initialize initialize_regions initialize_region start_health_checks
    start_health_check close determine_primary_region JsMap.set JsMap.get
after_close = refl

add_job_routed_example :
    (queue : Ref) × (get_queue (get_primary_region (perform_all calls new)) (perform_all calls new)
      ≡ some queue)
    × ((add_job answers (perform_all calls new) job).1 ≡ answers.add queue)
add_job_routed_example = add_job_routed calls two_regions answers job after_close

primary_queue : get_queue (get_primary_region ready) ready ≡ some 3
unfolding get_queue get_primary_region JsMap.get
primary_queue = refl

add_job_async_example : add_job answers ready job ≡ (
  added 3 job none ∷ map (λ q. added q job (some "1")) (other_queues ready ("west" ∷ "east" ∷ [])),
  returned "1",
)
add_job_async_example =
    add_job_async answers ready two_regions copies job 3 "1" refl refl refl refl primary_queue refl
      refl

replica_tests :
    (add_job answers ready job ≡ (added 3 job none ∷ added 1 job (some "1") ∷ [], returned "1"))
    × (get_replication_status answers ready "1"
        ≡ ("west", is_pending) ∷ ("east", is_replicated) ∷ [])
unfolding add_job get_queue replicate_job get_primary_job replicate_to replicate_job_to_region
    get_replication_status status_of JsMap.get JsMap.set
replica_tests = (refl, refl)
