-- ===== src/JobChain/Entries.antt =====
-- What is written of a workflow, and what is read back.
use job_queue.Prelude.{
  ℕ, zero, suc, ◌≡◌, ◌≤◌, ◌∙◌, refl, sym, ap, false, Option, none, some, List, [], ◌∷◌, ◌++◌, arith,
  All, get_or, ◌==◌,
}
use job_queue.JsMap
use job_queue.JsMap.{JsMap}
use job_queue.JobQueue.{Ref}
use job_queue.AccessControl.{Text}
use job_queue.Redis.{present, text_eq}
use job_queue.JobChain.{
  WorkflowExecutionResult, Failure, new_error, message_of, failure_of, serialize_workflow,
  deserialize_workflow, set_all, non_zero,
}

-- No key stands twice, as in a `Map`.
abbrev pub IsMap : JsMap Text Ref → Type 0
IsMap [] = Unit
IsMap ((k, v) ∷ m) = (JsMap.has k m ≡ false) × IsMap m

set-absent :
    (k : Text) (v : Ref) (m : JsMap Text Ref)
    → JsMap.has k m ≡ false
    → JsMap.set k v m ≡ m ++ ((k, v) ∷ [])
unfolding JsMap.has JsMap.set
set-absent k v [] h = refl
set-absent k v ((j, w) ∷ m) h = ground (arith, h, set-absent k v m)

has-append :
    (j k : Text) (v : Ref) (m : JsMap Text Ref)
    → JsMap.has j m ≡ false
    → (k == j) ≡ false
    → JsMap.has j (m ++ ((k, v) ∷ [])) ≡ false
unfolding JsMap.has
has-append j k v [] h g = ground (arith, g)
has-append j k v ((i, w) ∷ m) h g = ground (arith, h, g, has-append j k v m)

-- The entries whose keys are not in `seen`
abbrev AreNew : JsMap Text Ref → JsMap Text Ref → Type 0
AreNew seen = All (λ (e : Text × Ref). JsMap.has e.0 seen ≡ false)

others-differ :
    (k : Text) (m : JsMap Text Ref)
    → JsMap.has k m ≡ false
    → All (λ (e : Text × Ref). (k == e.0) ≡ false) m
unfolding JsMap.has
others-differ k [] h = tt
others-differ k ((j, w) ∷ m) h = (
  ground (arith, h, text_eq.beq_iff j k, text_eq.beq_iff k j),
  others-differ k m (ground (arith, h)),
)

still-AreNew :
    (k : Text) (v : Ref) (seen m : JsMap Text Ref)
    → AreNew seen m
    → All (λ (e : Text × Ref). (k == e.0) ≡ false) m
    → AreNew (seen ++ ((k, v) ∷ [])) m
still-AreNew k v seen [] h g = tt
still-AreNew k v seen ((j, w) ∷ m) (h, hs) (g, gs) =
    (has-append j k v seen h g, still-AreNew k v seen m hs gs)

append_one :
    {A : Type 0} (xs : List A) (y : A) (ys : List A) → (xs ++ (y ∷ [])) ++ ys ≡ xs ++ (y ∷ ys)
append_one [] y ys = refl
append_one (x ∷ xs) y ys = ap (λ l. x ∷ l) (append_one xs y ys)

append_nil : {A : Type 0} (xs : List A) → xs ++ [] ≡ xs
append_nil [] = refl
append_nil (x ∷ xs) = ap (λ l. x ∷ l) (append_nil xs)

set_all-append : (m seen : JsMap Text Ref) → IsMap m → AreNew seen m → set_all m seen ≡ seen ++ m
unfolding set_all
set_all-append [] seen h g = sym (append_nil seen)
set_all-append ((k, v) ∷ m) seen (h, hs) (g, gs) =
    ap (set_all m) (set-absent k v seen g)
    ∙ set_all-append m (seen ++ ((k, v) ∷ [])) hs (still-AreNew k v seen m gs (others-differ k m h))
    ∙ append_one seen (k, v) m

all-new : (m : JsMap Text Ref) → AreNew [] m
unfolding JsMap.has
all-new [] = tt
all-new ((k, v) ∷ m) = (refl, all-new m)

-- The times are not 0, and an error has a message.
abbrev pub IsPositive : Option ℕ → Type 0
IsPositive none = Unit
IsPositive (some n) = 1 ≤ n

abbrev pub HasText : Text → Type 0
HasText [] = ⊥
HasText (c ∷ t) = Unit

abbrev pub IsFilled : Option Failure → Type 0
IsFilled none = Unit
IsFilled (some error) = HasText error.message

-- A workflow with no more of its error than the message
abbrev pub only_message : Option Failure → Option Failure
only_message none = none
only_message (some error) = some (new_error error.message)

abbrev pub reduced : WorkflowExecutionResult → WorkflowExecutionResult
reduced w = record w { error = only_message w.error }

pub record IsSound (w : WorkflowExecutionResult) : Type 0 where
  pub results_map : IsMap w.step_results
  pub error_filled : IsFilled w.error
  pub start_positive : 1 ≤ w.started_at
  pub end_positive : IsPositive w.completed_at

non_zero-positive : (n now : ℕ) → 1 ≤ n → get_or (non_zero (some n)) now ≡ n
non_zero-positive zero now h = omega (arith, h)
non_zero-positive (suc n) now h = refl

non_zero-IsPositive : (o : Option ℕ) → IsPositive o → non_zero o ≡ o
non_zero-IsPositive none h = refl
non_zero-IsPositive (some zero) h = absurd (omega (arith, h))
non_zero-IsPositive (some (suc n)) h = refl

present-HasText : (t : Text) → HasText t → present (some t) ≡ some t
present-HasText [] h = absurd h
present-HasText (c ∷ t) h = refl

error_read :
    (o : Option Failure) → IsFilled o → failure_of (present (message_of o)) ≡ only_message o
error_read none h = refl
error_read (some error) h = ap failure_of (present-HasText error.message h)

-- A workflow whose results are a map, whose times are not 0 and whose error, if any, has a message,
-- is the same after `serializeWorkflow` and `deserializeWorkflow`, the order of its steps included,
-- but that the error becomes a plain one with the same message.
pub deserialize-serialize :
    (now : ℕ) (w : WorkflowExecutionResult)
    → IsSound w
    → deserialize_workflow now (serialize_workflow w) ≡ reduced w
unfolding deserialize_workflow serialize_workflow
deserialize-serialize now w h =
    rw
      (
        error_read w.error h.error_filled,
        non_zero-positive w.started_at now h.start_positive,
        non_zero-IsPositive w.completed_at h.end_positive,
        set_all-append w.step_results [] h.results_map (all-new w.step_results),
      )
      refl
