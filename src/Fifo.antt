-- ===== src/Fifo.antt =====
-- src/infrastructure/services/fifo-queue.manager.ts.
-- A BullMQ queue is a reference, and how its promises settle is an argument.
pub mod Inert
pub mod Groups
mod Tests
use job_queue.Prelude.{
  ℕ, ◌+◌, String, Bool, true, false, Option, none, some, List, [], ◌∷◌, get_or, if◌then◌else◌, ◌==◌,
  string_eq, Settled, returned, threw, is_blank,
}
use Prim.Native.String.{◌++◌ as append}
use job_queue.JsMap
use job_queue.JsMap.{JsMap, keys}

-- A BullMQ queue, or data that is passed on.
abbrev pub Ref : Type 0
Ref = ℕ

pub record GroupState : Type 0 where
  pub paused : Bool
  pub concurrency : ℕ

-- `MessageGroupConfig`, the fields that the class reads
pub record MessageGroupConfig : Type 0 where
  pub group_id : String
  pub deduplication_id : Option String

-- The fields of `FIFOQueueManager`
pub record Manager : Type 0 where
  pub queues : JsMap String Ref
  pub group_states : JsMap String GroupState
  pub default_concurrency : ℕ

-- the constructor
abbrev pub new : ℕ → Manager
new concurrency = record { queues = []; group_states = []; default_concurrency = concurrency }

-- A call of `groupQueue.add`: the queue, the job's name and data, the group and the job's id
pub record AddCall : Type 0 where
  pub queue : Ref
  pub job_name : String
  pub payload : Ref
  pub group : String
  pub job_id : Option String

-- `initializeGroup`
unfoldable pub initialize_group : String → Manager → Manager
initialize_group group_id m = record m {
  group_states =
      JsMap.set group_id (record { paused = false; concurrency = m.default_concurrency })
        m.group_states;
}

-- `${groupId}:${deduplicationId}` where there is a deduplication id that is not empty
abbrev pub dedup_job_id : MessageGroupConfig → Option String
dedup_job_id config = elim (config.deduplication_id) [
  | none ↦ none
  | some d ↦ if d == "" then none else some (append config.group_id (append ":" d))
]

-- the call of `groupQueue.add`; `reply` settles its promise with the job's id
abbrev pub send :
    String
    → Ref
    → MessageGroupConfig
    → (AddCall → Settled (Option String))
    → Manager
    → Ref
    → Manager × List AddCall × Settled String
send job_name payload config reply m queue =
    let call : AddCall = record {
      queue = queue;
      job_name = job_name;
      payload = payload;
      group = config.group_id;
      job_id = dedup_job_id config;
    } in
    (m, call ∷ [], elim (reply call) [ returned id ↦ returned (get_or id "") | threw e ↦ threw e ])

-- `addToGroup`
unfoldable pub add_to_group :
    String
    → Ref
    → MessageGroupConfig
    → (AddCall → Settled (Option String))
    → Manager
    → Manager × List AddCall × Settled String
unfolding initialize_group
add_to_group job_name payload config reply m =
    if is_blank config.group_id
    then (m, [], threw "fifo/invalid_group_id")
    else (elim (JsMap.get config.group_id m.queues) [
      | some queue ↦ send job_name payload config reply m queue
      | none ↦
          let m' = initialize_group config.group_id m in
          elim (JsMap.get config.group_id m'.queues) [
            | some queue ↦ send job_name payload config reply m' queue
            | none ↦ (m', [], threw "Failed to initialize group queue")
          ]
    ])

-- `getGroupQueueOrThrow`
unfoldable pub get_group_queue_or_throw : String → Manager → Settled Ref
get_group_queue_or_throw group_id m = elim (JsMap.get group_id m.queues) [
  | some queue ↦ returned queue
  | none ↦ threw "fifo/group_not_found"
]

-- the write of `pauseGroup` and `resumeGroup`
unfoldable pub set_paused : Bool → String → Manager → Manager
set_paused paused group_id m =
    let state =
      get_or (JsMap.get group_id m.group_states)
        (record { paused = false; concurrency = m.default_concurrency }) in
    record m { group_states = JsMap.set group_id (record state { paused = paused }) m.group_states }

-- `pauseGroup`, `resumeGroup`; `reply` is how `groupQueue.pause()` or `resume()` settles
unfoldable pub pause_group : String → Settled (Unit {0}) → Manager → Manager × Settled (Unit {0})
unfolding get_group_queue_or_throw set_paused
pause_group group_id reply m = elim (get_group_queue_or_throw group_id m) [
  | threw e ↦ (m, threw e)
  | returned queue ↦ elim reply [
    | returned _ ↦ (set_paused true group_id m, returned tt)
    | threw e ↦ (m, threw e)
  ]
]

unfoldable pub resume_group : String → Settled (Unit {0}) → Manager → Manager × Settled (Unit {0})
unfolding get_group_queue_or_throw set_paused
resume_group group_id reply m = elim (get_group_queue_or_throw group_id m) [
  | threw e ↦ (m, threw e)
  | returned queue ↦ elim reply [
    | returned _ ↦ (set_paused false group_id m, returned tt)
    | threw e ↦ (m, threw e)
  ]
]

-- `listGroups`
unfoldable pub list_groups : Manager → List String
list_groups m = keys m.queues

-- A job of `getGroupJobs`: its id and data; an error of BullMQ gives no jobs
abbrev pub JobView : Type 0
JobView = String × Ref

unfoldable pub get_group_jobs : String → Settled (List JobView) → Manager → List JobView
get_group_jobs group_id reply m = elim (JsMap.get group_id m.queues) [
  | none ↦ []
  | some queue ↦ elim reply [ returned jobs ↦ jobs | threw e ↦ [] ]
]

-- The four counts of a queue, and `getGroupStats`
pub record Counts : Type 0 where
  pub waiting : ℕ
  pub active : ℕ
  pub completed : ℕ
  pub failed : ℕ

pub record GroupStats : Type 0 where
  pub total : ℕ
  pub counts : Counts

unfoldable pub get_group_stats : String → Settled Counts → Manager → Settled GroupStats
unfolding get_group_queue_or_throw
get_group_stats group_id reply m = elim (get_group_queue_or_throw group_id m) [
  | threw e ↦ threw e
  | returned queue ↦ elim reply [
    | threw e ↦ threw e
    | returned c ↦
        returned (record { total = c.waiting + c.active + c.completed + c.failed; counts = c })
  ]
]

-- What `getJob` and then `remove` do for one job: gone, removed, or an error.
pub data Removal : Type 0 where
  gone removed : Removal
  failed_with : String → Removal

-- the loop of `drainGroup`
unfoldable pub drain_from : ℕ → (String → Removal) → List JobView → Settled ℕ
drain_from drained removal [] = returned drained
drain_from drained removal ((id, payload) ∷ jobs) =
    let skip = drain_from drained removal jobs in
    let more = drain_from (drained + 1) removal jobs in
    elim (removal id) [ gone ↦ skip | removed ↦ more | failed_with e ↦ threw e ]

-- `drainGroup`
unfoldable pub drain_group :
    String → Settled (List JobView) → (String → Removal) → Manager → Settled ℕ
unfolding get_group_jobs drain_from
drain_group group_id reply removal m = elim (JsMap.get group_id m.queues) [
  | none ↦ returned 0
  | some queue ↦ drain_from 0 removal (get_group_jobs group_id reply m)
]
