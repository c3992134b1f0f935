-- ===== src/Container/Tests.antt =====
-- A container with one service that is bound twice.
use job_queue.Prelude.{◌≡◌, refl, false, none, some, [], ◌∷◌, map, string_eq, returned}
use job_queue.JsMap
use job_queue.Container.{
  Container, Instance, new, bind, bind_singleton, resolve, resolve_with, create_child,
  copy_bindings, has, clear,
}
use job_queue.Container.Sharing.{
  to_bind, to_resolve, perform_all, resolve_stable, transient_is_shared,
}

abbrev bound : Container
bound = record { bindings = ("logger", 4) ∷ []; singletons = []; made = 2 }

abbrev first : Instance
first = record { factory = 4; serial = 2 }

resolve_tests :
    ((resolve "logger" (bind_singleton "logger" 4 (new 2))).1 ≡ returned first)
    × ((resolve "logger" (create_child bound)).1 ≡ returned first)
    × (has "logger" (clear bound) ≡ false)
unfolding resolve resolve_with bind bind_singleton create_child copy_bindings has clear JsMap.get
    JsMap.set JsMap.has
resolve_tests = (refl, refl, refl)

resolve_stable_example :
    (resolve "logger" (perform_all (to_bind "logger" 9 none ∷ []) (resolve "logger" bound).0)).1
    ≡ returned first
unfolding resolve resolve_with JsMap.get
resolve_stable_example =
    resolve_stable "logger" first bound (to_bind "logger" 9 none ∷ []) refl refl

transient_is_shared_example :
    let again = bind "logger" 9 (some false) bound in
    ((resolve "logger" again).1 ≡ returned (record { factory = 9; serial = 2 }))
    × ((resolve "logger" (perform_all (map to_resolve ("queue" ∷ [])) (resolve "logger" again).0)).1
        ≡ (resolve "logger" again).1)
transient_is_shared_example = transient_is_shared "logger" 9 bound ("queue" ∷ [])
