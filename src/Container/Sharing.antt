-- ===== src/Container/Sharing.antt =====
-- Which instance `resolve` returns.
use job_queue.Prelude.{
  returned_injective, ◌+◌, ◌≡◌, ◌∙◌, refl, sym, ap, String, Bool, true, false, not, ◌&&◌, ◌||◌,
  Option, none, some, List, [], ◌∷◌, map, arith, if◌then◌else◌, ◌==◌, string_eq, Settled, returned,
  threw, Option-cases, inl, inr,
}
use text.Mathlib.TextEquality.{eq_iff}
use job_queue.JsMap
use job_queue.JsMap.{JsMap}
use job_queue.JsMap.Laws.{get-set, get-delete, get-has, beq_refl, get-set_self}
use job_queue.JobQueue.{Ref}
use job_queue.Container.{Instance, Container, bind, resolve, resolve_with, clear}

-- The calls that change a container.
pub data Op : Type 0 where
  to_bind : String → Ref → Option Bool → Op
  to_resolve : String → Op
  to_clear : Op

unfoldable pub perform : Op → Container → Container
perform (to_bind key factory singleton) c = bind key factory singleton c
perform (to_resolve key) c = (resolve key c).0
perform to_clear c = clear c

unfoldable pub perform_all : List Op → Container → Container
perform_all [] c = c
perform_all (op ∷ ops) c = perform_all ops (perform op c)

-- Whether a call leaves the instance of a key in place: `clear` does not, nor does a `bind` of that
-- key with `singleton: false`.
abbrev pub keeps : String → Op → Bool
keeps key (to_bind k factory none) = true
keeps key (to_bind k factory (some shared)) = shared || not (k == key)
keeps key (to_resolve k) = true
keeps key to_clear = false

abbrev pub all_keep : String → List Op → Bool
all_keep key [] = true
all_keep key (op ∷ ops) = keeps key op && all_keep key ops

-- The container is bound for a key, and has an instance for it.
abbrev pub Holds : String → Instance → Container → Type 0
Holds key v c = (JsMap.get key c.singletons ≡ some v) × (JsMap.has key c.bindings ≡ true)

has-set :
    (k j : String) (f : Ref) (m : JsMap String Ref)
    → JsMap.has j (JsMap.set k f m) ≡ (if k == j then true else JsMap.has j m)
has-set k j f m = ground (arith, get-has j (JsMap.set k f m), get-set k j f m, get-has j m)

bind-Holds :
    (key : String) (v : Instance) (k : String) (factory : Ref) (singleton : Option Bool)
    (c : Container)
    → keeps key (to_bind k factory singleton) ≡ true
    → Holds key v c
    → Holds key v (bind k factory singleton c)
unfolding bind
bind-Holds key v k factory none c h (g, b) =
    (g, ground (arith, has-set k key factory c.bindings, b))
bind-Holds key v k factory (some shared) c h (g, b) = (
  ground (arith, g, h, get-delete k key c.singletons),
  ground (arith, has-set k key factory c.bindings, b),
)

-- The three ways that `resolve` can go.
resolve-missing :
    (key : String) (c : Container)
    → JsMap.get key c.bindings ≡ none
    → resolve key c ≡ (c, threw "Service not registered")
unfolding resolve
resolve-missing key c b = rw (b, resolve) refl

resolve-cached :
    (key : String) (f : Ref) (v : Instance) (c : Container)
    → JsMap.get key c.bindings ≡ some f
    → JsMap.get key c.singletons ≡ some v
    → resolve key c ≡ (c, returned v)
unfolding resolve resolve_with
resolve-cached key f v c b g = rw (b, resolve) (rw (g, resolve_with) refl)

abbrev fresh : Ref → Container → Instance
fresh f c = record { factory = f; serial = c.made }

abbrev with_fresh : String → Ref → Container → Container
with_fresh key f c = record {
  bindings = c.bindings;
  singletons = JsMap.set key (fresh f c) c.singletons;
  made = c.made + 1;
}

resolve-fresh :
    (key : String) (f : Ref) (c : Container)
    → JsMap.get key c.bindings ≡ some f
    → JsMap.get key c.singletons ≡ none
    → resolve key c ≡ (with_fresh key f c, returned (fresh f c))
unfolding resolve resolve_with
resolve-fresh key f c b g = rw (b, resolve) (rw (g, resolve_with) refl)

resolve-Holds :
    (key : String) (v : Instance) (k : String) (c : Container)
    → Holds key v c
    → Holds key v (resolve k c).0
resolve-Holds key v k c (g, b) = elim (Option-cases (JsMap.get k c.bindings)) [
  | inl missing ↦ rw (resolve-missing k c missing) (g, b)
  | inr (f, bound) ↦ elim (Option-cases (JsMap.get k c.singletons)) [
    | inl absent ↦
        rw (resolve-fresh k f c bound absent)
          (ground (arith, g, absent, get-set k key (fresh f c) c.singletons, eq_iff k key), b)
    | inr (w, cached) ↦ rw (resolve-cached k f w c bound cached) (g, b)
  ]
]

Holds-resolve :
    (key : String) (v : Instance) (c : Container) → Holds key v c → (resolve key c).1 ≡ returned v
Holds-resolve key v c (g, b) = elim (Option-cases (JsMap.get key c.bindings)) [
  | inl missing ↦ ground (arith, b, missing, get-has key c.bindings)
  | inr (f, bound) ↦ ap (λ r. r.1) (resolve-cached key f v c bound g)
]

instance_of : Instance → Settled Instance → Instance
instance_of default (returned v) = v
instance_of default (threw e) = default

bound-has :
    (key : String) (f : Ref) (c : Container)
    → JsMap.get key c.bindings ≡ some f
    → JsMap.has key c.bindings ≡ true
bound-has key f c bound = ground (arith, bound, get-has key c.bindings)

resolve-returned :
    (key : String) (v : Instance) (c : Container)
    → (resolve key c).1 ≡ returned v
    → Holds key v (resolve key c).0
resolve-returned key v c h = elim (Option-cases (JsMap.get key c.bindings)) [
  | inl missing ↦ ground (arith, h, ap (λ r. r.1) (resolve-missing key c missing))
  | inr (f, bound) ↦ elim (Option-cases (JsMap.get key c.singletons)) [
    | inl absent ↦
        let r = resolve-fresh key f c bound absent in
        rw r (
          get-set_self key (fresh f c) c.singletons
              ∙ ap some (returned_injective (sym (ap (λ p. p.1) r) ∙ h)),
          bound-has key f c bound,
        )
    | inr (w, cached) ↦
        let r = resolve-cached key f w c bound cached in
        rw r (
          cached ∙ ap some (returned_injective (sym (ap (λ p. p.1) r) ∙ h)),
          bound-has key f c bound,
        )
  ]
]

perform-Holds :
    (key : String) (v : Instance) (op : Op) (c : Container)
    → keeps key op ≡ true
    → Holds key v c
    → Holds key v (perform op c)
unfolding perform
perform-Holds key v (to_bind k factory singleton) c k_ok h =
    bind-Holds key v k factory singleton c k_ok h
perform-Holds key v (to_resolve k) c k_ok h = resolve-Holds key v k c h
perform-Holds key v to_clear c k_ok h = ground (arith, k_ok)

perform_all-Holds :
    (key : String) (v : Instance) (ops : List Op) (c : Container)
    → all_keep key ops ≡ true
    → Holds key v c
    → Holds key v (perform_all ops c)
unfolding perform_all
perform_all-Holds key v [] c k h = h
perform_all-Holds key v (op ∷ ops) c k h =
    perform_all-Holds key v ops (perform op c) (ground (arith, k))
      (perform-Holds key v op c (ground (arith, k)) h)

-- Once `resolve` has returned an instance for a key, it returns the same one ever after, whatever is
-- bound and resolved in between, until `clear` is called or the key is bound with `singleton: false`:
-- in particular, another factory bound to the key in the meantime is not called.
pub resolve_stable :
    (key : String) (v : Instance) (c : Container) (ops : List Op)
    → (resolve key c).1 ≡ returned v
    → all_keep key ops ≡ true
    → (resolve key (perform_all ops (resolve key c).0)).1 ≡ returned v
resolve_stable key v c ops h k =
    Holds-resolve key v _ (perform_all-Holds key v ops _ k (resolve-returned key v c h))

resolves_keep : (key : String) (others : List String) → all_keep key (map to_resolve others) ≡ true
resolves_keep key [] = refl
resolves_keep key (k ∷ others) = resolves_keep key others

bind-resolve :
    (key : String) (f : Ref) (c : Container)
    → (resolve key (bind key f (some false) c)).1
      ≡ returned (record { factory = f; serial = c.made })
unfolding bind
bind-resolve key f c =
    ap (λ r. r.1)
      (resolve-fresh key f (bind key f (some false) c) (get-set_self key f c.bindings)
        (ground (arith, get-delete key key c.singletons, beq_refl key)))

-- After a key is bound with `singleton: false` the next `resolve` calls the new factory, and those
-- after it return the same instance again, whatever keys are resolved in between.
pub transient_is_shared :
    (key : String) (f : Ref) (c : Container) (others : List String)
    → let bound = bind key f (some false) c in
      ((resolve key bound).1 ≡ returned (record { factory = f; serial = c.made }))
      × ((resolve key (perform_all (map to_resolve others) (resolve key bound).0)).1
          ≡ (resolve key bound).1)
transient_is_shared key f c others =
    let first = bind-resolve key f c in
    (
      first,
      resolve_stable key (fresh f c) (bind key f (some false) c) (map to_resolve others) first
            (resolves_keep key others)
          ∙ sym first,
    )
