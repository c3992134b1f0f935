-- ===== src/CircuitBreaker/Manager.antt =====
-- `CircuitBreakerManager` of src/infrastructure/services/circuit-breaker.manager.ts. Its `Map` holds
-- references to breakers: what a caller does to the breaker that the map has under an identifier,
-- `on_breaker` does to the map.
use job_queue.Prelude.{
  String, Option, none, some, List, [], ◌∷◌, ◌≡◌, ◌∙◌, ap, Bool, false, Option-cases, inl, inr,
  if◌then◌else◌, ◌==◌, string_eq,
}
use job_queue.JsMap
use job_queue.JsMap.{JsMap, values}
use job_queue.JsMap.Laws.{get-set, get-delete}
use job_queue.CircuitBreaker.{Config, Stats, Breaker, new}

-- the field `breakers`
abbrev pub Manager : Type 0
Manager = JsMap String Breaker

-- `createBreaker`
unfoldable pub create_breaker : Config → Manager → Manager
create_breaker config breakers = JsMap.set config.id (new config) breakers

-- `getBreaker`
unfoldable pub get_breaker : String → Manager → Option Breaker
get_breaker id breakers = JsMap.get id breakers

-- `listBreakers`
unfoldable pub list_breakers : Manager → List Breaker
list_breakers breakers = values breakers

-- `removeBreaker`
unfoldable pub remove_breaker : String → Manager → Manager
remove_breaker id breakers = JsMap.delete id breakers

-- the loop of `getAllStats`
unfoldable pub stats_from : Manager → JsMap String Stats → JsMap String Stats
stats_from [] stats = stats
stats_from ((id, breaker) ∷ breakers) stats = stats_from breakers (JsMap.set id breaker.stats stats)

-- `getAllStats`
unfoldable pub get_all_stats : Manager → JsMap String Stats
unfolding stats_from
get_all_stats breakers = stats_from breakers []

abbrev pub on_found : String → (Breaker → Breaker) → Option Breaker → Manager → Manager
on_found id f none breakers = breakers
on_found id f (some breaker) breakers = JsMap.set id (f breaker) breakers

-- A method of the breaker that the map has under an identifier
unfoldable pub on_breaker : String → (Breaker → Breaker) → Manager → Manager
on_breaker id f breakers = on_found id f (JsMap.get id breakers) breakers

-- What happens to one breaker leaves the others as they are.
pub get_breaker-on_breaker :
    (i j : String) (f : Breaker → Breaker) (m : Manager)
    → (i == j) ≡ false
    → get_breaker j (on_breaker i f m) ≡ get_breaker j m
unfolding get_breaker on_breaker
get_breaker-on_breaker i j f m h = elim (Option-cases (JsMap.get i m)) [
  | inl absent ↦ ap (λ o. JsMap.get j (on_found i f o m)) absent
  | inr (b, found) ↦
      ap (λ o. JsMap.get j (on_found i f o m)) found
      ∙ get-set i j (f b) m
      ∙ ap (λ (x : Bool). if x then some (f b) else JsMap.get j m) h
]

-- A new breaker takes the place of the one under its identifier, with its statistics and its state.
pub get_breaker-create_breaker :
    (config : Config) (j : String) (m : Manager)
    → get_breaker j (create_breaker config m)
      ≡ (if config.id == j then some (new config) else get_breaker j m)
unfolding get_breaker create_breaker
get_breaker-create_breaker config j m = get-set config.id j (new config) m

pub get_breaker-remove_breaker :
    (i j : String) (m : Manager)
    → get_breaker j (remove_breaker i m) ≡ (if i == j then none else get_breaker j m)
unfolding get_breaker remove_breaker
get_breaker-remove_breaker i j m = get-delete i j m
