-- ===== src/Container.antt =====
-- src/application/di/container.ts: `DIContainer`.
-- A factory is a reference, and what its calls make are told apart by a number: the container counts
-- the calls of factories. A factory neither throws nor uses the container that calls it.
pub mod Sharing
mod Tests
use job_queue.Prelude.{
  ℕ, ◌+◌, String, Bool, true, false, Option, none, some, List, [], ◌∷◌, if◌then◌else◌, string_eq,
  Settled, returned, threw,
}
use job_queue.JsMap
use job_queue.JsMap.{JsMap, keys}
use job_queue.JobQueue.{Ref}

-- What a factory makes: the factory, and how many calls came before.
pub record Instance : Type 0 where
  pub factory : Ref
  pub serial : ℕ

-- The fields of `DIContainer`, and the number of instances made
pub record Container : Type 0 where
  pub bindings : JsMap String Ref
  pub singletons : JsMap String Instance
  pub made : ℕ

abbrev pub new : ℕ → Container
new made = record { bindings = []; singletons = []; made = made }

-- `bind`; the option `singleton` may be missing
unfoldable pub bind : String → Ref → Option Bool → Container → Container
bind key factory singleton c = record {
  bindings = JsMap.set key factory c.bindings;
  singletons = elim singleton [
    | none ↦ c.singletons
    | some shared ↦ if shared then c.singletons else JsMap.delete key c.singletons
  ];
  made = c.made;
}

-- `bindSingleton`
unfoldable pub bind_singleton : String → Ref → Container → Container
unfolding bind
bind_singleton key factory c = bind key factory (some true) c

-- `resolve` once it has the factory
unfoldable pub resolve_with : String → Ref → Container → Container × Instance
resolve_with key factory c = elim (JsMap.get key c.singletons) [
  | some instance ↦ (c, instance)
  | none ↦
      let fresh : Instance = record { factory = factory; serial = c.made } in
      (
        record {
          bindings = c.bindings;
          singletons = JsMap.set key fresh c.singletons;
          made = c.made + 1;
        },
        fresh,
      )
]

-- `resolve`
unfoldable pub resolve : String → Container → Container × Settled Instance
resolve key c = elim (JsMap.get key c.bindings) [
  | none ↦ (c, threw "Service not registered")
  | some factory ↦ let (after, instance) = resolve_with key factory c in (after, returned instance)
]

-- `has`
unfoldable pub has : String → Container → Bool
has key c = JsMap.has key c.bindings

-- `keys`
unfoldable pub registered_keys : Container → List String
registered_keys c = keys c.bindings

-- `clear`
unfoldable pub clear : Container → Container
clear c = new c.made

-- the loop of `createChild`
unfoldable pub copy_bindings : JsMap String Ref → Container → Container
copy_bindings [] child = child
copy_bindings ((key, factory) ∷ bindings) child =
    copy_bindings bindings (bind key factory none child)

-- `createChild`; the count goes on in the child
unfoldable pub create_child : Container → Container
unfolding copy_bindings
create_child c = copy_bindings c.bindings (new c.made)
