-- ===== src/Webhook.antt =====
-- src/infrastructure/services/webhook.manager.ts: `sendEvent` and the delivery of one event to one
-- webhook, and src/core/interfaces/webhook.interface.ts. What Redis holds is an argument here, the list
-- that `listWebhooks` returns, and so is the answer of `httpPost` to each attempt.
pub mod Delivery
pub mod Selection
pub mod Store
pub mod Switching
mod Tests
use job_queue.Prelude.{
  ℕ, suc, zero, ◌+◌, ◌-◌, ◌*◌, String, Bool, true, false, not, ◌||◌, ◌&&◌, Option, none, some, List,
  [], ◌∷◌, ◌++◌, leb, ltb, nat_beq, get_or, if◌then◌else◌,
}

-- `WebhookDeliveryStrategy`
pub data DeliveryStrategy : Type 0 where
  best_effort reliable guaranteed : DeliveryStrategy

abbrev pub is_best_effort : DeliveryStrategy → Bool
is_best_effort best_effort = true
is_best_effort _ = false

-- `WebhookEventType`
pub data EventType : Type 0 where
  job_completed job_failed job_started job_progress job_retrying : EventType
  workflow_completed workflow_failed : EventType

abbrev pub event_index : EventType → ℕ
event_index job_completed = 0
event_index job_failed = 1
event_index job_started = 2
event_index job_progress = 3
event_index job_retrying = 4
event_index workflow_completed = 5
event_index workflow_failed = 6

-- `WebhookConfig`, the fields that are read here
pub record WebhookConfig : Type 0 where
  pub url : String
  pub events : List EventType
  pub delivery_strategy : Option DeliveryStrategy
  pub max_retries : Option ℕ
  pub active : Bool

-- `webhook.events.includes(eventType)`
abbrev pub includes : EventType → List EventType → Bool
includes t [] = false
includes t (u ∷ us) = if nat_beq (event_index u) (event_index t) then true else includes t us

-- How `httpPost` settles: with a status code, or by an error.
pub data Answer : Type 0 where
  responded : ℕ → Answer
  failed : String → Answer

-- `WebhookDeliveryAttempt`: what `recordDeliveryAttempt` writes, `nextRetryAt` as a delay from then
pub data Outcome : Type 0 where
  status_code : ℕ → Outcome
  error_message : String → Option ℕ → Outcome

-- What a delivery does.
pub data Effect : Type 0 where
  posted : String → ℕ → Effect
  attempt_recorded : String → ℕ → Outcome → Effect
  waited : ℕ → Effect
  delivery_failed : Effect

-- `response.statusCode >= 200 && response.statusCode < 300`
abbrev pub is_success : ℕ → Bool
is_success code = leb 200 code && ltb code 300

-- `tryDeliverWebhookAttempt`, with `delivered`
unfoldable pub try_deliver_webhook_attempt :
    WebhookConfig → DeliveryStrategy → (ℕ → Answer) → ℕ → List Effect × Bool
try_deliver_webhook_attempt webhook strategy http_post attempt_number =
    elim (http_post attempt_number) [
      | responded code ↦ (
        posted webhook.url attempt_number
            ∷ attempt_recorded webhook.url attempt_number (status_code code)
            ∷ [],
        is_success code || is_best_effort strategy,
      )
      | failed message ↦ (
        posted webhook.url attempt_number
            ∷ attempt_recorded webhook.url attempt_number (
                error_message message
                  (if not (is_best_effort strategy) then some (5000 * attempt_number) else none))
            ∷ [],
        is_best_effort strategy,
      )
    ]

-- `waitBeforeRetry`
unfoldable pub wait_before_retry : ℕ → ℕ → List Effect
wait_before_retry attempt_number max_retries =
    if ltb max_retries attempt_number then [] else waited (5000 * (attempt_number - 1)) ∷ []

-- the loop of `deliverWebhook`, whose condition holds as often as the first argument says, and what
-- follows the loop
unfoldable pub deliver_from :
    ℕ → WebhookConfig → DeliveryStrategy → ℕ → (ℕ → Answer) → ℕ → List Effect
deliver_from zero webhook strategy max_retries http_post attempt_number = delivery_failed ∷ []
deliver_from (suc left) webhook strategy max_retries http_post attempt_number =
    let (effects, delivered) =
      try_deliver_webhook_attempt webhook strategy http_post attempt_number in
    let rest = deliver_from left webhook strategy max_retries http_post (attempt_number + 1) in
    if delivered || is_best_effort strategy
    then effects
    else effects ++ (wait_before_retry (attempt_number + 1) max_retries ++ rest)

-- `deliverWebhook`: from `attemptNumber = 1`, `attemptNumber <= maxRetries` holds `maxRetries` times
unfoldable pub deliver_webhook : WebhookConfig → (ℕ → Answer) → List Effect
unfolding deliver_from
deliver_webhook webhook http_post =
    let strategy = get_or webhook.delivery_strategy reliable in
    let max_retries = get_or webhook.max_retries 3 in
    deliver_from max_retries webhook strategy max_retries http_post 1

-- `sendEvent`; `http_post` has the URL as its first argument
unfoldable pub send_event : List WebhookConfig → (String → ℕ → Answer) → EventType → List Effect
send_event [] http_post event_type = []
send_event (webhook ∷ webhooks) http_post event_type =
    let rest = send_event webhooks http_post event_type in
    if not webhook.active || not (includes event_type webhook.events)
    then rest
    else deliver_webhook webhook (http_post webhook.url) ++ rest
