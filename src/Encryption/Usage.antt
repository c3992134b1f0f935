-- ===== src/Encryption/Usage.antt =====
-- What the methods leave in the cache of keys, whether or not Redis answers.
use job_queue.Prelude.{
  Settled-cases, ◌≡◌, ◌∙◌, refl, sym, ap, subst, Bool, true, false, Option, none, some, List, [],
  ◌∷◌, Option-cases, Bool-cases, inl, inr, some_injective, if◌then◌else◌, ◌==◌,
}
use job_queue.JsMap
use job_queue.JsMap.{JsMap}
use job_queue.JsMap.Laws.{get-set, get-delete}
use job_queue.AccessControl.{Text}
use job_queue.Redis.{present, text_eq, IsThere, after_bind, after_caught}
use job_queue.Encryption.{KeyConfig, Manager, on_server, find_active}
use job_queue.Encryption.Keys.{
  Outside, key_name, add_key, switch_off, deactivate_key, retire_key, rotate_key, remove_key,
  get_keys, read_configs, read_config, activated, initialize,
}

-- Every key of the cache stands under its identifier, and is as `Q` wants it.
abbrev pub Agrees : (Text → Text → Type 0) → JsMap Text KeyConfig → Type 0
Agrees Q cache =
    (i : Text) (c : KeyConfig) → JsMap.get i cache ≡ some c → (c.key_id ≡ i) × Q i c.key

-- The keys of the cache agree with `Q`, and given `T`, there is one under an identifier.
abbrev pub Keeps : Type 0 → (Text → Text → Type 0) → Text → JsMap Text KeyConfig → Type 0
Keeps T Q id cache = Agrees Q cache × (T → IsThere (JsMap.get id cache))

set-Agrees :
    (Q : Text → Text → Type 0) (k i : Text) (b : Bool) (c d : KeyConfig) (old : Option KeyConfig)
    → (b ≡ true → k ≡ i)
    → c.key_id ≡ k
    → Q k c.key
    → (old ≡ some d → (d.key_id ≡ i) × Q i d.key)
    → (if b then some c else old) ≡ some d
    → (d.key_id ≡ i) × Q i d.key
set-Agrees Q k i true c d old same e q h g =
    subst (λ (x : KeyConfig). (x.key_id ≡ i) × Q i x.key) (some_injective g)
      (e ∙ same refl, subst (λ j. Q j c.key) (same refl) q)
set-Agrees Q k i false c d old same e q h g = h g

module _ (T : Type 0) (Q : Text → Text → Type 0) where
  pub Agrees-set :
      (k : Text) (c : KeyConfig) (cache : JsMap Text KeyConfig)
      → c.key_id ≡ k
      → Q k c.key
      → Agrees Q cache
      → Agrees Q (JsMap.set k c cache)
  Agrees-set k c cache e q h i d g =
      set-Agrees Q k i (k == i) c d (JsMap.get i cache) (text_eq.beq_iff k i).0 e q (h i d)
        (sym (get-set k i c cache) ∙ g)

  delete-Agrees :
      (k : Text) (cache : JsMap Text KeyConfig) → Agrees Q cache → Agrees Q (JsMap.delete k cache)
  delete-Agrees k cache h i d g = elim (Bool-cases (k == i)) [
    | inl same ↦ cc (
      sym (get-delete k i cache) ∙ g,
      ap (λ (b : Bool). if b then none else JsMap.get i cache) same,
    )
    | inr other ↦ h i d (
        sym (ap (λ (b : Bool). if b then none else JsMap.get i cache) other)
        ∙ sym (get-delete k i cache)
        ∙ g)
  ]

  IsThere-set :
      (k id : Text) (c : KeyConfig) (cache : JsMap Text KeyConfig)
      → IsThere (JsMap.get id cache)
      → IsThere (JsMap.get id (JsMap.set k c cache))
  IsThere-set k id c cache h = elim (Bool-cases (k == id)) [
    | inl same ↦ rw (get-set k id c cache, same) tt
    | inr other ↦ rw (get-set k id c cache, other) h
  ]

  Keeps-set :
      (id k : Text) (c : KeyConfig) (cache : JsMap Text KeyConfig)
      → c.key_id ≡ k
      → Q k c.key
      → Keeps T Q id cache
      → Keeps T Q id (JsMap.set k c cache)
  Keeps-set id k c cache e q (h, there) =
      (Agrees-set k c cache e q h, λ t. IsThere-set k id c cache (there t))

  Keeps-delete :
      (id k : Text) (cache : JsMap Text KeyConfig)
      → (T → (k == id) ≡ false)
      → Keeps T Q id cache
      → Keeps T Q id (JsMap.delete k cache)
  Keeps-delete id k cache other (h, there) =
      (delete-Agrees k cache h, λ t. rw (get-delete k id cache, other t) (there t))

  module _ {S : Type 0} (o : Outside S) (id : Text) where
    pub add_key-Keeps :
        (c : KeyConfig) (m : Manager S)
        → Q c.key_id c.key
        → Keeps T Q id m.keys_cache
        → Keeps T Q id (add_key o c m).0.keys_cache
    unfolding add_key
    add_key-Keeps c m q h =
        elim (Settled-cases
          (o.redis.set (key_name o c.key_id) (o.configs.stringify c) m.server).1) [
            | inl (u, done) ↦ rw (done, add_key) (Keeps-set id c.key_id c m.keys_cache refl q h)
            | inr (error, failed) ↦ rw (failed, add_key) h
          ]

    switch_off-Keeps :
        (k : Text) (c : KeyConfig) (m : Manager S)
        → JsMap.get k m.keys_cache ≡ some c
        → Keeps T Q id m.keys_cache
        → Keeps T Q id (switch_off o k c m).0.keys_cache
    unfolding switch_off
    switch_off-Keeps k c m found h =
        let (e, q) = h.0 k c found in
        let off = record c { is_active = false } in
        add_key-Keeps off (record m { keys_cache = JsMap.set k off m.keys_cache })
          (subst (λ j. Q j c.key) (sym e) q) (Keeps-set id k off m.keys_cache e q h)

    pub deactivate_key-Keeps :
        (k : Text) (m : Manager S)
        → Keeps T Q id m.keys_cache
        → Keeps T Q id (deactivate_key o k m).0.keys_cache
    unfolding deactivate_key
    deactivate_key-Keeps k m h = elim (Option-cases (JsMap.get k m.keys_cache)) [
      | inl absent ↦ rw (absent, deactivate_key) h
      | inr (c, found) ↦ rw (found, deactivate_key) (switch_off-Keeps k c m found h)
    ]

    retire_key-Keeps :
        (m : Manager S) → Keeps T Q id m.keys_cache → Keeps T Q id (retire_key o m).0.keys_cache
    unfolding retire_key
    retire_key-Keeps m h = elim (Option-cases (present m.active_key_id)) [
      | inl absent ↦ rw (absent, retire_key) h
      | inr (k, active) ↦ elim (Option-cases (JsMap.get k m.keys_cache)) [
        | inl absent ↦ rw (active, absent, retire_key) h
        | inr (c, found) ↦ rw (active, found, retire_key) (switch_off-Keeps k c m found h)
      ]
    ]

    pub rotate_key-Keeps :
        (c : KeyConfig) (m : Manager S)
        → Q c.key_id c.key
        → Keeps T Q id m.keys_cache
        → Keeps T Q id (rotate_key o c m).0.keys_cache
    unfolding rotate_key
    rotate_key-Keeps c m q h =
        let P = λ (n : Manager S). Keeps T Q id n.keys_cache in
        after_bind P (retire_key o m) _ (retire_key-Keeps m h) (λ u n k.
          after_bind P (add_key o (record c { is_active = true }) n) _
            (add_key-Keeps (record c { is_active = true }) n q k) (λ v l g. g))

    pub remove_key-Keeps :
        (k : Text) (m : Manager S)
        → (T → (k == id) ≡ false)
        → Keeps T Q id m.keys_cache
        → Keeps T Q id (remove_key o k m).0.keys_cache
    unfolding remove_key
    remove_key-Keeps k m other h = elim (Settled-cases (o.redis.del (key_name o k) m.server).1) [
      | inl (u, done) ↦ rw (done, remove_key) (Keeps-delete id k m.keys_cache other h)
      | inr (error, failed) ↦ rw (failed, remove_key) h
    ]

    activated-Keeps :
        (found : Option KeyConfig) (m : Manager S)
        → Keeps T Q id m.keys_cache
        → Keeps T Q id (activated o found m).keys_cache
    activated-Keeps none m h = h
    activated-Keeps (some c) m h = h

    read_configs-Keeps :
        (keys : List Text) (found : List KeyConfig) (m : Manager S)
        → Keeps T Q id m.keys_cache
        → Keeps T Q id (read_configs o keys found m).0.keys_cache
    unfolding read_configs
    read_configs-Keeps [] found m h = h
    read_configs-Keeps (key ∷ keys) found m h =
        let P = λ (n : Manager S). Keeps T Q id n.keys_cache in
        after_bind P (on_server (o.redis.get key) m) _ h (λ text n k.
          after_bind P (n, read_config o (present text) found) _ k
            (λ next l g. read_configs-Keeps keys next l g))

    get_keys-Keeps :
        (m : Manager S) → Keeps T Q id m.keys_cache → Keeps T Q id (get_keys o m).0.keys_cache
    unfolding get_keys
    get_keys-Keeps m h =
        let P = λ (n : Manager S). Keeps T Q id n.keys_cache in
        after_caught P [] _ (
          after_bind P (on_server (o.redis.keys _) m) _ h
            (λ keys n k. read_configs-Keeps keys [] n k))

    pub initialize-Keeps :
        (m : Manager S) → Keeps T Q id m.keys_cache → Keeps T Q id (initialize o m).0.keys_cache
    unfolding initialize
    initialize-Keeps m h =
        let P = λ (n : Manager S). Keeps T Q id n.keys_cache in
        after_caught P tt _ (
          after_bind P (get_keys o m) _ (get_keys-Keeps m h)
            (λ keys n k. activated-Keeps (find_active keys) n k))
