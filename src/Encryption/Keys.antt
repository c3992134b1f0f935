-- ===== src/Encryption/Keys.antt =====
-- The methods of the encryption manager that keep its keys.
use job_queue.Prelude.{
  true, false, Option, none, some, List, [], ◌∷◌, ◌++◌, Settled, returned, threw,
}
use job_queue.JsMap
use job_queue.JsMap.{JsMap}
use job_queue.AccessControl.{Text, star}
use job_queue.Redis.{
  Action, ◌>>=◌, ◌>>◌, return, modify, settle, or_return, Redis, Json, present, text_eq,
}
use job_queue.Encryption.{KeyConfig, Manager, on_server, find_active}

-- What the manager is made with.
pub record Outside (S : Type 0) : Type 0 where
  pub redis : Redis S
  pub key_prefix : Text
  pub configs : Json KeyConfig

module _ {S : Type 0} (o : Outside S) where
  -- `buildKeyName`
  abbrev pub key_name : Text → Text
  key_name key_id = o.key_prefix ++ (58 ∷ key_id)

  -- `addKey`
  unfoldable pub add_key : KeyConfig → Action (Manager S) (Unit {0})
  add_key config = do
    on_server (o.redis.set (key_name config.key_id) (o.configs.stringify config))
    modify λ m. record m { keys_cache = JsMap.set config.key_id config m.keys_cache }

  -- `config.isActive = false` on the object in the cache, and `addKey` of it
  unfoldable pub switch_off : Text → KeyConfig → Action (Manager S) (Unit {0})
  unfolding add_key
  switch_off key_id config = do
    modify λ m. record m {
      keys_cache = JsMap.set key_id (record config { is_active = false }) m.keys_cache;
    }
    add_key (record config { is_active = false })

  -- `deactivateKey`
  unfoldable pub deactivate_key : Text → Action (Manager S) (Unit {0})
  unfolding switch_off
  deactivate_key key_id m = elim (JsMap.get key_id m.keys_cache) [
    | none ↦ (m, returned tt)
    | some config ↦ switch_off key_id config m
  ]

  -- the part of `rotateKey` for the old key
  unfoldable pub retire_key : Action (Manager S) (Unit {0})
  unfolding switch_off
  retire_key m = elim (present m.active_key_id) [
    | none ↦ (m, returned tt)
    | some key_id ↦ elim (JsMap.get key_id m.keys_cache) [
      | none ↦ (m, returned tt)
      | some old_key ↦ switch_off key_id old_key m
    ]
  ]

  -- `rotateKey`
  unfoldable pub rotate_key : KeyConfig → Action (Manager S) (Unit {0})
  unfolding retire_key add_key
  rotate_key new_key = do
    retire_key
    add_key (record new_key { is_active = true })
    modify λ m. record m { active_key_id = some new_key.key_id }

  -- `removeKey`
  unfoldable pub remove_key : Text → Action (Manager S) (Unit {0})
  remove_key key_id = do
    on_server (o.redis.del (key_name key_id))
    modify λ m. record m { keys_cache = JsMap.delete key_id m.keys_cache }

  -- the part of a loop's body after `get`
  abbrev pub read_config : Option Text → List KeyConfig → Settled (List KeyConfig)
  read_config none configs = returned configs
  read_config (some found) configs = elim (o.configs.parse found) [
    | threw error ↦ threw error
    | returned config ↦ returned (configs ++ (config ∷ []))
  ]

  -- the loop of `getKeys`
  unfoldable pub read_configs : List Text → List KeyConfig → Action (Manager S) (List KeyConfig)
  read_configs [] configs = return configs
  read_configs (key ∷ keys) configs = do
    found ← on_server (o.redis.get key)
    next ← settle (read_config (present found) configs)
    read_configs keys next

  -- `getKeys`
  unfoldable pub get_keys : Action (Manager S) (List KeyConfig)
  unfolding read_configs
  get_keys =
      or_return [] (do
        keys ← on_server (o.redis.keys (o.key_prefix ++ (58 ∷ star ∷ [])))
        read_configs keys [])

  abbrev pub activated : Option KeyConfig → Manager S → Manager S
  activated none m = m
  activated (some config) m = record m { active_key_id = some config.key_id }

  -- `initialize`
  unfoldable pub initialize : Action (Manager S) (Unit {0})
  unfolding get_keys
  initialize = or_return tt (do keys ← get_keys; modify (activated (find_active keys)))
