-- ===== src/Status/Lists.antt =====
-- The lists of jobs of src/core/services/status/job-status-query-service.ts. What the queue client
-- lists of a state up to an index is an argument, with no index for -1, which asks for all, and so is
-- what the manager of dead letters lists. A status is shown with a job, which is a reference.
use job_queue.Prelude.{
  ℕ, zero, suc, ◌+◌, ◌-◌, ◌≤◌, ◌<◌, ◌≡◌, ◌∙◌, refl, sym, ap, String, false, Option, some, List, [],
  ◌∷◌, ◌++◌, arith, leb, length, take, All, length-append, if◌then◌else◌, Settled, returned, threw,
}
use job_queue.JobQueue.{Ref}
use job_queue.Dlq.{end_of}
use job_queue.Status.{
  JobStatus, pending, active, completed, failed, delayed, waiting, paused, dlq,
  map_status_to_states,
}

-- What the queue client and the manager of dead letters list
pub record Client : Type 0 where
  pub jobs_by_state : String → Option ℕ → Settled (List Ref)
  pub dead_letters : ℕ → List Ref

module _ (client : Client) where
  -- the loop of `getJobsByStatus`
  unfoldable pub collect : ℕ → List String → List Ref → Settled (List Ref)
  collect limit [] jobs = returned jobs
  collect limit (state ∷ states) jobs = elim (client.jobs_by_state state (end_of limit)) [
    | threw error ↦ threw error
    | returned state_jobs ↦
        let rest = collect limit states (jobs ++ state_jobs) in
        if leb limit (length (jobs ++ state_jobs)) then returned (jobs ++ state_jobs) else rest
  ]

  abbrev pub cut : ℕ → Settled (List Ref) → Settled (List Ref)
  cut limit (threw error) = threw error
  cut limit (returned jobs) = returned (take limit jobs)

  -- `getJobsByStatus`
  unfoldable pub get_jobs_by_status : JobStatus → ℕ → Settled (List Ref)
  unfolding collect map_status_to_states
  get_jobs_by_status dlq limit = returned (client.dead_letters limit)
  get_jobs_by_status status limit = cut limit (collect limit (map_status_to_states status) [])

  -- the loop of `getAllJobs`
  unfoldable pub collect_all : ℕ → List JobStatus → List Ref → Settled (List Ref)
  unfolding get_jobs_by_status
  collect_all limit [] all_jobs = returned all_jobs
  collect_all limit (status ∷ statuses) all_jobs =
      elim (get_jobs_by_status status (limit - length all_jobs)) [
        | threw error ↦ threw error
        | returned jobs ↦
            let rest = collect_all limit statuses (all_jobs ++ jobs) in
            if leb limit (length (all_jobs ++ jobs)) then returned (all_jobs ++ jobs) else rest
      ]

  abbrev pub or_nothing : ℕ → Settled (List Ref) → List Ref
  or_nothing limit (threw error) = []
  or_nothing limit (returned jobs) = take limit jobs

  -- `getAllJobs`
  unfoldable pub get_all_jobs : ℕ → List Ref
  unfolding collect_all
  get_all_jobs limit =
      or_nothing limit
        (collect_all limit (pending ∷ active ∷ completed ∷ failed ∷ delayed ∷ waiting ∷ []) [])

take_all : (xs : List Ref) (n : ℕ) → length xs ≤ n → take n xs ≡ xs
take_all [] zero h = refl
take_all [] (suc n) h = refl
take_all (x ∷ xs) zero h = absurd (omega (arith, h))
take_all (x ∷ xs) (suc n) h = ap (λ l. x ∷ l) (take_all xs n (omega (arith, h)))

append_assoc : (xs ys zs : List Ref) → (xs ++ ys) ++ zs ≡ xs ++ (ys ++ zs)
append_assoc [] ys zs = refl
append_assoc (x ∷ xs) ys zs = ap (λ l. x ∷ l) (append_assoc xs ys zs)

append_nil : (xs : List Ref) → xs ++ [] ≡ xs
append_nil [] = refl
append_nil (x ∷ xs) = ap (λ l. x ∷ l) (append_nil xs)

abbrev pub concat_map : (JobStatus → List Ref) → List JobStatus → List Ref
concat_map f [] = []
concat_map f (s ∷ ss) = f s ++ concat_map f ss

-- Not the status of dead letters, which `getAllJobs` leaves out
abbrev pub IsAlive : JobStatus → Type 0
IsAlive dlq = ⊥
IsAlive _ = Unit

abbrev pub state_of : JobStatus → String
state_of pending = "waiting"
state_of active = "active"
state_of completed = "completed"
state_of failed = "failed"
state_of delayed = "delayed"
state_of waiting = "waiting"
state_of paused = "paused"
state_of dlq = ""

not_full : (a b : ℕ) → a < b → leb b a ≡ false
not_full a b h = ground (arith, h)

module _ (client : Client) (held : String → List Ref) (limit : ℕ)
    (lists : (state : String) (end : ℕ)
      → length (held state) ≤ end
      → client.jobs_by_state state (some end) ≡ returned (held state)) where
  abbrev listing : JobStatus → List Ref
  listing status = held (state_of status)

  collect_one :
      (state : String) (k : ℕ)
      → length (held state) < k
      → cut client k (collect client k (state ∷ []) []) ≡ returned (held state)
  unfolding collect
  collect_one state zero h = absurd (omega (arith, h))
  collect_one state (suc end) h =
      rw (lists state end (omega (arith, h)), not_full (length (held state)) (suc end) h, collect)
        (ap returned (take_all (held state) (suc end) (omega (arith, h))))

  status_lists :
      (s : JobStatus) (k : ℕ)
      → IsAlive s
      → length (listing s) < k
      → get_jobs_by_status client s k ≡ returned (listing s)
  unfolding get_jobs_by_status map_status_to_states
  status_lists pending k alive h = collect_one "waiting" k h
  status_lists active k alive h = collect_one "active" k h
  status_lists completed k alive h = collect_one "completed" k h
  status_lists failed k alive h = collect_one "failed" k h
  status_lists delayed k alive h = collect_one "delayed" k h
  status_lists waiting k alive h = collect_one "waiting" k h
  status_lists paused k alive h = collect_one "paused" k h
  status_lists dlq k alive h = absurd alive

  collect_all-concat :
      (statuses : List JobStatus) (jobs : List Ref)
      → All IsAlive statuses
      → length jobs + length (concat_map listing statuses) < limit
      → collect_all client limit statuses jobs ≡ returned (jobs ++ concat_map listing statuses)
  unfolding collect_all
  collect_all-concat [] jobs alive h = ap returned (sym (append_nil jobs))
  collect_all-concat (s ∷ ss) jobs (alive, others) h =
      let tail = concat_map listing ss in
      let total = length-append (listing s) tail in
      let grown = length-append jobs (listing s) in
      let room : leb limit (length (jobs ++ listing s)) ≡ false =
        not_full (length (jobs ++ listing s)) limit (omega (arith, h, total, grown)) in
      rw (status_lists s (limit - length jobs) alive (omega (arith, h, total)), room, collect_all)
        (collect_all-concat ss (jobs ++ listing s) others (omega (arith, h, total, grown))
          ∙ ap returned (append_assoc jobs (listing s) tail))

  -- If the queue client lists all jobs of a state that fit into the range it is asked for, and the
  -- jobs of the six statuses are fewer than the limit, the waiting ones counted twice, then
  -- `getAllJobs` lists them by status, and what the client lists as waiting at the beginning and again
  -- at the end.
  pub get_all_jobs_lem :
      let all_listed =
        held "waiting"
        ++ (held "active"
            ++ (held "completed"
                ++ (held "failed" ++ (held "delayed" ++ (held "waiting" ++ []))))) in
      length all_listed < limit → get_all_jobs client limit ≡ all_listed
  unfolding get_all_jobs
  get_all_jobs_lem h =
      rw
        (
          collect_all-concat (pending ∷ active ∷ completed ∷ failed ∷ delayed ∷ waiting ∷ []) []
              (tt, (tt, (tt, (tt, (tt, (tt, tt)))))) (omega (arith, h)),
          get_all_jobs,
        )
        (take_all _ limit (omega (arith, h)))
