-- ===== src/Processing/Registry.antt =====
-- Which processor the registry holds for a name after any calls.
use job_queue.Prelude.{
  ◌≡◌, ◌∙◌, refl, ap, String, Bool, true, false, Option, none, some, List, [], ◌∷◌, arith,
  if◌then◌else◌, ◌==◌, or_else, string_eq,
}
use text.Mathlib.TextEquality.{eq_iff}
use job_queue.JsMap
use job_queue.JsMap.Laws.{get-set, get-has, get-delete, beq_refl}
use job_queue.JobQueue.{Ref}
use job_queue.Processing.{Processors, register, unregister, get, has, clear}

-- The calls that change the registry; a refused `register` is caught by its caller.
pub data Op : Type 0 where
  add : String → Ref → Op
  remove : String → Op
  remove_all : Op

unfoldable pub perform : Op → Processors → Processors
perform (add name processor) r = (register name processor r).0
perform (remove name) r = (unregister name r).0
perform remove_all r = clear r

unfoldable pub perform_all : List Op → Processors → Processors
perform_all [] r = r
perform_all (op ∷ ops) r = perform_all ops (perform op r)

abbrev pub is_some : Option Ref → Bool
is_some o = elim o [ none ↦ false | some processor ↦ true ]

-- The processor for a name: the first one given since the last removal.
abbrev pub after_op : String → Op → Option Ref → Option Ref
after_op name (add n processor) held = or_else held (if n == name then some processor else none)
after_op name (remove n) held = if n == name then none else held
after_op name remove_all held = none

abbrev pub holder : String → List Op → Option Ref → Option Ref
holder name [] held = held
holder name (op ∷ ops) held = holder name ops (after_op name op held)

get-perform :
    (name : String) (op : Op) (r : Processors)
    → get name (perform op r) ≡ after_op name op (get name r)
unfolding perform register unregister clear get JsMap.get
get-perform name (add n processor) r =
    ground (arith, get-has n r, get-set n name processor r, eq_iff n name)
get-perform name (remove n) r = get-delete n name r
get-perform name remove_all r = refl

-- Whatever is registered, unregistered and cleared, the registry holds for a name the first
-- processor that was given for it since it was last removed: a later one never takes its place.
pub get-perform_all :
    (name : String) (ops : List Op) (r : Processors)
    → get name (perform_all ops r) ≡ holder name ops (get name r)
unfolding perform_all
get-perform_all name [] r = refl
get-perform_all name (op ∷ ops) r =
    get-perform_all name ops (perform op r) ∙ ap (holder name ops) (get-perform name op r)

-- `has` says whether `get` finds a processor, and so does the result of `unregister`; after
-- `register` the name has a processor, whether it was refused or not, and after `unregister` none.
pub has_lem :
    (name : String) (processor : Ref) (r : Processors)
    → (has name r ≡ is_some (get name r))
      × ((unregister name r).1 ≡ is_some (get name r))
      × (has name (register name processor r).0 ≡ true)
      × (has name (unregister name r).0 ≡ false)
unfolding register has get unregister
has_lem name processor r = (
  get-has name r,
  get-has name r,
  ground (
    arith,
    get-has name r,
    get-set name name processor r,
    beq_refl name,
    get-has name (JsMap.set name processor r),
  ),
  ground (arith, get-has name (JsMap.delete name r), get-delete name name r, beq_refl name),
)
