-- ===== src/Dlq/Replay.antt =====
-- The methods of the manager of dead letters do not throw, and a replay keeps to its limit.
use job_queue.Prelude.{
  ℕ, suc, ◌+◌, ◌≤◌, ◌≡◌, refl, String, false, Option, none, some, List, [], ◌∷◌, arith, length,
  get_or, if◌then◌else◌, Bool-cases, inl, inr, Settled-cases, Settled, returned, threw,
  bind_settled, ◌>>◌, caught,
}
use job_queue.JobQueue.{Ref}
use job_queue.Dlq.{
  Job, Outside, is_enabled, move_job_to_dlq, get_dlq_jobs, notify, replay_found, replay_job,
  replay_each, replay_dlq,
}

-- It settles with a value.
abbrev pub Returns : {S A : Type 0} → S × Settled A → Type 0
Returns {S} {A} r = (s : S) × ((a : A) × (r ≡ (s, returned a)))

caught-Returns : {S A : Type 0} (a : A) (r : S × Settled A) → Returns (caught a r)
caught-Returns a (s, returned b) = (s, (b, refl))
caught-Returns a (s, threw error) = (s, (a, refl))

module _ {S : Type 0} (o : Outside S) where
  replay_job-Returns :
      (id : String) (options : Option Ref) (s : S) → Returns (replay_job o id options s)
  unfolding replay_job
  replay_job-Returns id options s = elim (Bool-cases (is_enabled o)) [
    | inl on ↦
        rw (on, replay_job)
          (caught-Returns false (bind_settled (o.get_job id s) (replay_found o options)))
    | inr off ↦ rw (off, replay_job) (s, (false, refl))
  ]

  -- The loop returns, having counted at most one more for each job.
  replay_each-le :
      (jobs : List Job) (n : ℕ) (s : S)
      → (t : S) × ((m : ℕ) × ((replay_each o jobs n s ≡ (t, returned m)) × (m ≤ n + length jobs)))
  unfolding replay_each
  replay_each-le [] n s = (s, (n, (refl, omega arith)))
  replay_each-le (job ∷ jobs) n s =
      let (u, r) = replay_job-Returns (get_or job.id "") none s in
      let (t, rest) = replay_each-le jobs (if r.0 then n + 1 else n) u in
      (t, (rest.0, (rw (r.1, replay_each) rest.1.0, ground (arith, rest.1.1))))

  move_job_to_dlq-Returns :
      (job : Job) (error : String) (s : S) → Returns (move_job_to_dlq o job error s)
  unfolding move_job_to_dlq
  move_job_to_dlq-Returns job error s = elim (Bool-cases (is_enabled o)) [
    | inl on ↦
        rw (on, move_job_to_dlq)
          (caught-Returns tt (
            bind_settled (o.record_job_dlq job s)
              (λ _. o.emit_job_dlq job error >> notify o o.notification_handler job)))
    | inr off ↦ rw (off, move_job_to_dlq) (s, (tt, refl))
  ]

  -- What the queue client gives for a range has as many jobs as the range at most.
  abbrev pub KeepsRange : Type 0
  KeepsRange =
      (end : ℕ) (s : S) (jobs : List Job)
      → (o.get_failed (some end) s).1 ≡ returned jobs
      → length jobs ≤ suc end

  dlq_jobs-le :
      (end : ℕ) (s : S)
      → KeepsRange
      → (t : S) × ((jobs : List Job) × ((get_dlq_jobs o (suc end) s ≡ (t, returned jobs))
            × (length jobs ≤ suc end)))
  unfolding get_dlq_jobs
  dlq_jobs-le end s keeps = elim (Bool-cases (is_enabled o)) [
    | inr off ↦ (s, ([], (rw (off, get_dlq_jobs) refl, omega arith)))
    | inl on ↦ elim (Settled-cases (o.get_failed (some end) s).1) [
      | inl (jobs, given) ↦ (
        (o.get_failed (some end) s).0,
        (jobs, (rw (on, given, get_dlq_jobs) refl, keeps end s jobs given)),
      )
      | inr (error, failed) ↦
          ((o.get_failed (some end) s).0, ([], (rw (on, failed, get_dlq_jobs) refl, omega arith)))
    ]
  ]

  -- `replayDLQ` with a limit that is not 0 returns, whatever fails on the way, and it counts at most as
  -- many jobs as the limit says, if the queue client keeps to the range that it is asked for.
  pub replay_dlq_bound :
      (end : ℕ) (s : S)
      → KeepsRange
      → (t : S) × ((n : ℕ) × ((replay_dlq o (suc end) s ≡ (t, returned n)) × (n ≤ suc end)))
  unfolding replay_dlq
  replay_dlq_bound end s keeps = elim (Bool-cases (is_enabled o)) [
    | inr off ↦ (s, (0, (rw (off, replay_dlq) refl, omega arith)))
    | inl on ↦
        let (u, jobs) = dlq_jobs-le end s keeps in
        let (t, r) = replay_each-le jobs.0 0 u in
        (t, (r.0, (ground (arith, on, jobs.1.0, r.1.0), omega (arith, r.1.1, jobs.1.1))))
  ]
