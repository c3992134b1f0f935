-- ===== src/JobChain/Status.antt =====
-- Workflows in Redis, against a plain map of workflows.
use job_queue.Prelude.{
  Settled-cases, ℕ, ◌+◌, leb, ◌≡◌, ◌≤◌, ◌∙◌, refl, ap, subst, Bool, true, false, Option, none, some,
  List, [], ◌∷◌, ◌++◌, arith, Bool-cases, Option-cases, inl, inr, some_injective, if◌then◌else◌,
  ◌==◌, returned, threw,
}
use job_queue.AccessControl.{Text}
use job_queue.AccessControl.Keys.{text_beq-append}
use job_queue.Redis.{text_eq}
use job_queue.Redis.Timed.{TimedAnswers, until}
use job_queue.JobChain.{WorkflowExecutionResult, Serialized, serialize_workflow, started}
use job_queue.JobChain.Store.{
  Outside, week, checked, chain_key, workflow_key, workflow_part, chain_part, text_of, parsed,
  create_chain, execute_workflow, get_workflow_status, cancel_workflow,
}
use job_queue.JobChain.Entries.{IsSound, reduced, deserialize-serialize}
use job_queue.JobChain.Calls.{
  Workflows, put, Op, executing, cancelling, asking, chaining, InOrder, time_of, cancelled_at, spec,
  spec_answers, perform, answers,
}

module _ {S : Type 0} (o : Outside S) where
  abbrev pub written : Option WorkflowExecutionResult → Option Text
  written none = none
  written (some w) = some (text_of o w)

  written_until :
      (b : Bool) (w : WorkflowExecutionResult)
      → (if b then some (text_of o w) else none) ≡ written (if b then some w else none)
  written_until true w = refl
  written_until false w = refl

  written_if :
      (b fresh : Bool) (w : WorkflowExecutionResult) (v : Option WorkflowExecutionResult)
      (old : Option Text)
      → old ≡ written v
      → (if b then (if fresh then some (text_of o w) else none) else old)
        ≡ written (if b then (if fresh then some w else none) else v)
  written_if true fresh w v old h = written_until fresh w
  written_if false fresh w v old h = h

  put_some :
      (fresh : Bool) (w v : WorkflowExecutionResult)
      → (if fresh then some w else none) ≡ some v
      → w ≡ v
  put_some true w v e = some_injective e
  put_some false w v e = cc e

  workflow_key_beq : (i j : Text) → (workflow_key o i == workflow_key o j) ≡ (i == j)
  workflow_key_beq i j =
      text_beq-append o.key_prefix (workflow_part ++ i) (workflow_part ++ j) ∙ refl

  chain_key_other : (i j : Text) → (chain_key o i == workflow_key o j) ≡ false
  chain_key_other i j = text_beq-append o.key_prefix (chain_part ++ i) (workflow_part ++ j) ∙ refl

  module _ (a : TimedAnswers o.redis) where
    -- A workflow that is read as it was written
    pub record IsReadable (w : WorkflowExecutionResult) : Type 0 where
      pub sound : IsSound w
      pub plain_error : reduced w ≡ w

    -- From a time on, Redis holds the workflows of the map, and each of them is read as it was written.
    pub record Implements (clock : ℕ) (s : S) (f : Workflows) : Type 0 where
      pub held :
          (later : ℕ) (i : Text)
          → clock ≤ later
          → a.look later (workflow_key o i) s ≡ written (f i later)
      pub readable :
          (later : ℕ) (i : Text) (w : WorkflowExecutionResult) → f i later ≡ some w → IsReadable w

    Implements-later :
        (clock now : ℕ) (s : S) (f : Workflows)
        → clock ≤ now
        → Implements clock s f
        → Implements now s f
    Implements-later clock now s f order h = record {
      held = λ later i g. h.held later i (omega (arith, order, g));
      readable = h.readable;
    }

    Implements-put :
        (now : ℕ) (i : Text) (w : WorkflowExecutionResult) (s : S) (f : Workflows)
        → IsReadable w
        → Implements now s f
        → Implements now
            (o.redis.setex now (workflow_key o i) week (text_of o w) s).0
            (put now i w f)
    Implements-put now i w s f good h = record {
      held = λ later j order.
          a.look-setex now later (workflow_key o j) (workflow_key o i) week (text_of o w) s
            (omega arith) order
          ∙ ap
              (λ (b : Bool).
                if b then until now week later (text_of o w) else a.look later (workflow_key o j) s)
              (workflow_key_beq i j)
          ∙ written_if (i == j) (leb later (now + 604800000)) w (f j later)
              (a.look later (workflow_key o j) s) (h.held later j order);
      readable = λ later j v e. elim (Bool-cases (i == j)) [
        | inl same ↦
            subst IsReadable
              (put_some (leb later (now + 604800000)) w v (
                subst
                  (λ (b : Bool).
                    (if b
                      then (if leb later (now + 604800000) then some w else none)
                      else f j later)
                    ≡ some v)
                  same e))
              good
        | inr other ↦ h.readable later j v (
            subst
              (λ (b : Bool).
                (if b then (if leb later (now + 604800000) then some w else none) else f j later)
                ≡ some v)
              other e)
      ];
    }

    Implements-chain :
        (now : ℕ) (i text : Text) (s : S) (f : Workflows)
        → Implements now s f
        → Implements now (o.redis.setex now (chain_key o i) week text s).0 f
    Implements-chain now i text s f h = record {
      held = λ later j order.
          a.look-setex now later (workflow_key o j) (chain_key o i) week text s (omega arith) order
          ∙ ap
              (λ (b : Bool).
                if b then until now week later text else a.look later (workflow_key o j) s)
              (chain_key_other i j)
          ∙ h.held later j order;
      readable = h.readable;
    }

    get_status_missing :
        (now : ℕ) (i : Text) (s : S)
        → a.look now (workflow_key o i) s ≡ none
        → get_workflow_status o now i s ≡ (s, threw "workflow/not_found")
    unfolding get_workflow_status
    get_status_missing now i s h = ground (arith, a.get_lem now (workflow_key o i) s, h)

    module _ (plain : (x : Serialized) → o.workflows.stored x ≡ x) where
      get_status_found :
          (now : ℕ) (i : Text) (w : WorkflowExecutionResult) (s : S)
          → a.look now (workflow_key o i) s ≡ some (text_of o w)
          → IsReadable w
          → get_workflow_status o now i s ≡ (s, returned w)
      unfolding get_workflow_status
      get_status_found now i w s h good =
          rw
            (
              a.get_lem now (workflow_key o i) s,
              h,
              o.workflows.present-stringify (serialize_workflow w),
              get_workflow_status,
              parsed,
              o.workflows.parse-stringify (serialize_workflow w),
              plain (serialize_workflow w),
              deserialize-serialize now w good.sound,
              good.plain_error,
            )
            refl

      started-IsReadable : (now : ℕ) (id : Text) → 1 ≤ now → IsReadable (started now id)
      started-IsReadable now id h = record {
        sound = record {
          results_map = tt;
          error_filled = tt;
          start_positive = h;
          end_positive = tt;
        };
        plain_error = refl;
      }

      cancelled-IsReadable :
          (now : ℕ) (w : WorkflowExecutionResult)
          → 1 ≤ now
          → IsReadable w
          → IsReadable (cancelled_at now w)
      cancelled-IsReadable now w h g = record {
        sound = record {
          results_map = g.sound.results_map;
          error_filled = g.sound.error_filled;
          start_positive = g.sound.start_positive;
          end_positive = h;
        };
        plain_error = ap (cancelled_at now) g.plain_error;
      }

      -- One call
      step :
          (op : Op) (s : S) (f : Workflows)
          → 1 ≤ time_of op
          → Implements (time_of op) s f
          → Implements (time_of op) (perform o op s).0 (spec op f).0
            × ((perform o op s).1 ≡ (spec op f).1)
      unfolding perform spec execute_workflow create_chain cancel_workflow
      step (executing now id steps) s f t h =
          elim (Settled-cases (checked "workflow/invalid_id" "workflow/empty_steps" id steps)) [
            | inr (error, bad) ↦ rw (bad, perform, execute_workflow) (h, refl)
            | inl (u, good) ↦
                rw
                  (
                    good,
                    a.setex_lem now (workflow_key o id) week (text_of o (started now id)) s
                        (omega arith),
                    perform,
                    execute_workflow,
                  )
                  (Implements-put now id (started now id) s f (started-IsReadable now id t) h, refl)
          ]
      step (chaining now id steps) s f t h =
          elim (Settled-cases (checked "chain/invalid_id" "chain/empty_steps" id steps)) [
            | inr (error, bad) ↦ rw (bad, perform, create_chain) (h, refl)
            | inl (u, good) ↦
                rw
                  (
                    good,
                    a.setex_lem now (chain_key o id) week (text_of o (started now id)) s
                        (omega arith),
                    perform,
                    create_chain,
                  )
                  (Implements-chain now id (text_of o (started now id)) s f h, refl)
          ]
      step (asking now id) s f t h = elim (Option-cases (f id now)) [
        | inl absent ↦
            rw
              (
                get_status_missing now id s (h.held now id (omega arith) ∙ ap written absent),
                absent,
                perform,
              )
              (h, refl)
        | inr (w, e) ↦
            rw
              (
                get_status_found now id w s (h.held now id (omega arith) ∙ ap written e)
                    (h.readable now id w e),
                e,
                perform,
              )
              (h, refl)
      ]
      step (cancelling now id) s f t h = elim (Option-cases (f id now)) [
        | inl absent ↦
            rw
              (
                get_status_missing now id s (h.held now id (omega arith) ∙ ap written absent),
                absent,
                perform,
                cancel_workflow,
              )
              (h, refl)
        | inr (w, e) ↦
            rw
              (
                get_status_found now id w s (h.held now id (omega arith) ∙ ap written e)
                    (h.readable now id w e),
                e,
                a.setex_lem now (workflow_key o id) week (text_of o (cancelled_at now w)) s
                    (omega arith),
                perform,
                cancel_workflow,
              )
              (
                Implements-put now id (cancelled_at now w) s f
                    (cancelled-IsReadable now w t (h.readable now id w e)) h,
                refl,
              )
      ]

      -- If Redis answers every command and JSON keeps the workflows, the calls of `executeWorkflow`,
      -- `cancelWorkflow`, `getWorkflowStatus` and `createChain`, in the order of their times, which are not
      -- 0, are answered as a map of workflows answers them in which every workflow is left out seven days
      -- after it was last executed or cancelled: until then it is running since it was executed, or
      -- cancelled since then, and nothing else, whatever its steps.
      pub answers_refine_workflows :
          (clock : ℕ) (ops : List Op) (s : S) (f : Workflows)
          → 1 ≤ clock
          → InOrder clock ops
          → Implements clock s f
          → answers o ops s ≡ spec_answers ops f
      unfolding answers spec_answers
      answers_refine_workflows clock [] s f positive order h = refl
      answers_refine_workflows clock (op ∷ ops) s f positive (order, orders) h =
          let timed : 1 ≤ time_of op = omega (arith, positive, order) in
          let (g, e) = step op s f timed (Implements-later clock (time_of op) s f order h) in
          ap (λ x. x ∷ answers o ops (perform o op s).0) e
          ∙ ap (λ xs. (spec op f).1 ∷ xs)
              (answers_refine_workflows (time_of op) ops (perform o op s).0 (spec op f).0 timed
                orders g)
