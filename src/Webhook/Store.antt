-- ===== src/Webhook/Store.antt =====
-- The parts of src/infrastructure/services/webhook.manager.ts that live in Redis: the webhooks with
-- their cache, and the history of deliveries. A `catch` that logs and throws again is left out, and so
-- are identifiers in messages, and the headers and credentials of a webhook.
use job_queue.Prelude.{
  ℕ, String, Bool, true, false, Option, none, some, List, [], ◌∷◌, ◌++◌, get_or, or_else,
  if◌then◌else◌, ltb, is_blank, Settled, returned, threw, sort, take, Action, ◌>>=◌, ◌>>◌, return,
  modify, settle, or_return,
}
use job_queue.JsMap
use job_queue.JsMap.{JsMap}
use job_queue.AccessControl.{Text, star}
use job_queue.Redis.{Redis, Json, present, text_eq}
use job_queue.Webhook.{
  DeliveryStrategy, EventType, WebhookConfig, Answer, responded, failed, Effect, deliver_webhook,
  send_event,
}

-- `Partial<WebhookConfig>`, the properties that have a value
pub record WebhookUpdate : Type 0 where
  pub url : Option String
  pub events : Option (List EventType)
  pub delivery_strategy : Option DeliveryStrategy
  pub max_retries : Option ℕ
  pub active : Option Bool

-- `{ ...existing, ...config }`
abbrev pub merged : WebhookConfig → WebhookUpdate → WebhookConfig
merged existing config = record {
  url = get_or config.url existing.url;
  events = get_or config.events existing.events;
  delivery_strategy = or_else config.delivery_strategy existing.delivery_strategy;
  max_retries = or_else config.max_retries existing.max_retries;
  active = get_or config.active existing.active;
}

-- `{ active: value }`
abbrev pub only_active : Bool → WebhookUpdate
only_active value = record {
  url = none;
  events = none;
  delivery_strategy = none;
  max_retries = none;
  active = some value;
}

-- `WebhookDeliveryAttempt` as it is read
pub record DeliveryAttempt : Type 0 where
  pub event_id : Text
  pub webhook_id : Text
  pub attempt_number : ℕ
  pub timestamp : ℕ

-- What the manager is made with, and JSON at its types.
pub record Outside (S : Type 0) : Type 0 where
  pub redis : Redis S
  pub key_prefix : Text
  pub webhooks : Json WebhookConfig
  pub attempts : Json DeliveryAttempt

-- `WebhookManager`, with the state of its Redis
pub record Manager (S : Type 0) : Type 0 where
  pub server : S
  pub webhooks_cache : JsMap Text WebhookConfig

abbrev pub on_server : {S A : Type 0} → Action S A → Action (Manager S) A
on_server act m = let (s, r) = act m.server in (record m { server = s }, r)

-- the guards of `registerWebhook`
abbrev pub checked : String → List EventType → Settled (Unit {0})
checked url [] = if is_blank url then threw "webhook/invalid_url" else threw "webhook/no_events"
checked url (event ∷ events) = if is_blank url then threw "webhook/invalid_url" else returned tt

-- what `if (!data) throw` lets pass
abbrev pub required : Option Text → Settled Text
required none = threw "webhook/not_found"
required (some text) = returned text

-- the part of a loop's body after `get`
abbrev pub read_one : {A : Type 0} → Json A → Option Text → List A → Settled (List A)
read_one json none items = returned items
read_one json (some text) items = elim (json.parse text) [
  | threw error ↦ threw error
  | returned a ↦ returned (items ++ (a ∷ []))
]

module _ {S A : Type 0} (redis : Redis S) (json : Json A) where
  -- the loops of `listWebhooks` and `getDeliveryHistory`, with what they have collected
  unfoldable pub read_all : List Text → List A → Action (Manager S) (List A)
  read_all [] items = return items
  read_all (key ∷ keys) items = do
    found ← on_server (redis.get key)
    next ← settle (read_one json (present found) items)
    read_all keys next

-- `attempts.sort((a, b) => b.timestamp - a.timestamp)`
abbrev pub newest_first : DeliveryAttempt → DeliveryAttempt → Bool
newest_first a b = ltb b.timestamp a.timestamp

-- `:attempts:` in code units
abbrev pub attempts_part : Text
attempts_part = 58 ∷ 97 ∷ 116 ∷ 116 ∷ 101 ∷ 109 ∷ 112 ∷ 116 ∷ 115 ∷ 58 ∷ []

-- the answer that `testWebhook` returns
abbrev pub tested : Answer → Settled ℕ
tested (responded code) = returned code
tested (failed message) = threw message

module _ {S : Type 0} (o : Outside S) where
  -- `buildWebhookKey`
  abbrev pub webhook_key : Text → Text
  webhook_key webhook_id = o.key_prefix ++ (58 ∷ webhook_id)

  -- `registerWebhook`, with the identifier that it makes of the time and a random part
  unfoldable pub register_webhook : (webhook_id : Text) → WebhookConfig → Action (Manager S) Text
  register_webhook webhook_id config = do
    settle (checked config.url config.events)
    on_server (o.redis.set (webhook_key webhook_id) (o.webhooks.stringify config))
    modify λ m. record m { webhooks_cache = JsMap.set webhook_id config m.webhooks_cache }
    return webhook_id

  -- the part of `getWebhook` after the cache
  unfoldable pub load_webhook : Text → Action (Manager S) WebhookConfig
  load_webhook webhook_id = do
    found ← on_server (o.redis.get (webhook_key webhook_id))
    text ← settle (required (present found))
    config ← settle (o.webhooks.parse text)
    modify λ m. record m { webhooks_cache = JsMap.set webhook_id config m.webhooks_cache }
    return config

  -- `getWebhook`
  unfoldable pub get_webhook : Text → Action (Manager S) WebhookConfig
  get_webhook webhook_id m = elim (JsMap.get webhook_id m.webhooks_cache) [
    | some cached ↦ (m, returned cached)
    | none ↦ load_webhook webhook_id m
  ]

  -- `updateWebhook`
  unfoldable pub update_webhook : Text → WebhookUpdate → Action (Manager S) (Unit {0})
  unfolding get_webhook load_webhook
  update_webhook webhook_id config = do
    existing ← get_webhook webhook_id
    on_server (o.redis.set (webhook_key webhook_id) (o.webhooks.stringify (merged existing config)))
    modify λ m. record m {
      webhooks_cache = JsMap.set webhook_id (merged existing config) m.webhooks_cache;
    }

  -- `enableWebhook` and `disableWebhook`
  unfoldable pub enable_webhook : Text → Action (Manager S) (Unit {0})
  unfolding update_webhook
  enable_webhook webhook_id = update_webhook webhook_id (only_active true)

  unfoldable pub disable_webhook : Text → Action (Manager S) (Unit {0})
  unfolding update_webhook
  disable_webhook webhook_id = update_webhook webhook_id (only_active false)

  -- `deleteWebhook`
  unfoldable pub delete_webhook : Text → Action (Manager S) (Unit {0})
  delete_webhook webhook_id = do
    on_server (o.redis.del (webhook_key webhook_id))
    modify λ m. record m { webhooks_cache = JsMap.delete webhook_id m.webhooks_cache }

  -- `listWebhooks`
  unfoldable pub list_webhooks : Action (Manager S) (List WebhookConfig)
  unfolding read_all
  list_webhooks = or_return [] (do
    keys ← on_server (o.redis.keys (o.key_prefix ++ (58 ∷ star ∷ [])))
    read_all o.redis o.webhooks keys [])

  -- `sendEvent`, from what Redis holds
  unfoldable pub send_event_to_all :
      (String → ℕ → Answer) → EventType → Action (Manager S) (List Effect)
  unfolding list_webhooks send_event
  send_event_to_all http_post event_type = do
    webhooks ← list_webhooks
    return (send_event webhooks http_post event_type)

  -- `getDeliveryHistory`
  unfoldable pub get_delivery_history : Text → ℕ → Action (Manager S) (List DeliveryAttempt)
  unfolding read_all
  get_delivery_history webhook_id limit = or_return [] (do
    keys ←
        on_server (o.redis.keys (o.key_prefix ++ (58 ∷ webhook_id) ++ attempts_part ++ (star ∷ [])))
    attempts ← read_all o.redis o.attempts keys []
    return (take limit (sort newest_first attempts)))

  -- `retryDelivery`, with the effects of the delivery
  unfoldable pub retry_delivery : (ℕ → Answer) → Text → Action (Manager S) (List Effect)
  unfolding get_webhook deliver_webhook
  retry_delivery http_post webhook_id = do
    webhook ← get_webhook webhook_id
    return (deliver_webhook webhook http_post)

  -- `testWebhook`, with the status code of the response
  unfoldable pub test_webhook : (String → Answer) → Text → Action (Manager S) ℕ
  unfolding get_webhook
  test_webhook http_post webhook_id = do
    webhook ← get_webhook webhook_id
    settle (tested (http_post webhook.url))

  -- `recordDeliveryAttempt`; `suffix` is the text of the event, a colon and the attempt's number
  unfoldable pub record_delivery_attempt :
      (suffix : Text) → DeliveryAttempt → Action (Manager S) (Unit {0})
  record_delivery_attempt suffix attempt = or_return tt (
      on_server (
        o.redis.set (o.key_prefix ++ (58 ∷ attempt.webhook_id) ++ attempts_part ++ suffix)
          (o.attempts.stringify attempt)))
