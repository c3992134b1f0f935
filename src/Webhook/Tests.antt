-- ===== src/Webhook/Tests.antt =====
-- Three webhooks: one whose third attempt succeeds, one of best effort, and one switched off.
use job_queue.Prelude.{
  ℕ, suc, zero, ◌≡◌, ◌≤◌, refl, true, false, none, some, [], ◌∷◌, is_blank, returned,
}
use job_queue.JsMap
use job_queue.JsMap.{JsMap}
use job_queue.AccessControl.{Text}
use job_queue.Redis.{Json, text_eq}
use job_queue.Redis.Memory.{memory, memory_answers}
use job_queue.Webhook.Store.{
  DeliveryAttempt, Outside, Manager, webhook_key, register_webhook, get_webhook, list_webhooks,
  record_delivery_attempt, read_all, enable_webhook, disable_webhook,
}
use job_queue.Webhook.Switching.{switching_lem}
use job_queue.Webhook.{
  best_effort, guaranteed, job_failed, job_completed, WebhookConfig, Answer, responded, failed,
  posted, attempt_recorded, waited, status_code, error_message, deliver_webhook, send_event,
  deliver_from, try_deliver_webhook_attempt, wait_before_retry,
}
use job_queue.Webhook.Delivery.{
  posts, records, request, pause, timeline, failures, deliver_webhook_lem,
}
use job_queue.Webhook.Selection.{requests, requests-send_event}

abbrev patient : WebhookConfig
patient = record {
  url = "a";
  events = job_failed ∷ [];
  delivery_strategy = none;
  max_retries = some 4;
  active = true;
}

abbrev eager : WebhookConfig
eager = record {
  url = "b";
  events = job_completed ∷ job_failed ∷ [];
  delivery_strategy = some best_effort;
  max_retries = none;
  active = true;
}

abbrev off : WebhookConfig
off = record {
  url = "c";
  events = job_failed ∷ [];
  delivery_strategy = some guaranteed;
  max_retries = none;
  active = false;
}

-- An error, a 503, and then 204
abbrev http_post : ℕ → Answer
http_post (suc zero) = failed "timeout"
http_post (suc (suc zero)) = responded 503
http_post _ = responded 204

delivery_test :
    deliver_webhook patient http_post
    ≡ posted "a" 1
      ∷ attempt_recorded "a" 1 (error_message "timeout" (some 5000))
      ∷ waited 5000
      ∷ posted "a" 2
      ∷ attempt_recorded "a" 2 (status_code 503)
      ∷ waited 10000
      ∷ posted "a" 3
      ∷ attempt_recorded "a" 3 (status_code 204)
      ∷ []
unfolding deliver_webhook deliver_from try_deliver_webhook_attempt wait_before_retry
delivery_test = refl

deliver_webhook_lem_example :
    (posts (deliver_webhook patient http_post) ≡ 1 ∷ 2 ∷ 3 ∷ [])
    × (records (deliver_webhook patient http_post) ≡ 1 ∷ 2 ∷ 3 ∷ [])
    × (3 ≤ 4)
    × (timeline (deliver_webhook patient http_post)
        ≡ request 1 ∷ pause 5000 ∷ request 2 ∷ pause 10000 ∷ request 3 ∷ [])
    × (failures (deliver_webhook patient http_post) ≡ 0)
deliver_webhook_lem_example = deliver_webhook_lem patient http_post

requests-send_event_example :
    requests (send_event (patient ∷ off ∷ eager ∷ []) (λ url. http_post) job_failed)
    ≡ ("a", 1) ∷ ("a", 2) ∷ ("a", 3) ∷ ("b", 1) ∷ []
requests-send_event_example =
    requests-send_event (patient ∷ off ∷ eager ∷ []) (λ url. http_post) job_failed

-- A text form that writes every webhook as the first one: the cache has the others.
abbrev one_webhook : Json WebhookConfig
one_webhook = record {
  stringify = λ w. 1 ∷ [];
  parse = λ text. returned patient;
  stored = λ w. patient;
  present-stringify = λ w. refl;
  parse-stringify = λ w. refl;
}

abbrev attempt : DeliveryAttempt
attempt = record { event_id = 101 ∷ []; webhook_id = 97 ∷ []; attempt_number = 1; timestamp = 5 }

abbrev one_attempt : Json DeliveryAttempt
one_attempt = record {
  stringify = λ a. 2 ∷ [];
  parse = λ text. returned attempt;
  stored = λ a. attempt;
  present-stringify = λ a. refl;
  parse-stringify = λ a. refl;
}

abbrev outside : Outside (JsMap Text Text)
outside = record {
  redis = memory;
  key_prefix = 112 ∷ [];
  webhooks = one_webhook;
  attempts = one_attempt;
}

abbrev fresh : Manager (JsMap Text Text)
fresh = record { server = []; webhooks_cache = [] }

abbrev registered : Manager (JsMap Text Text)
registered = record {
  server = (112 ∷ 58 ∷ 119 ∷ [], 1 ∷ []) ∷ [];
  webhooks_cache = (119 ∷ [], patient) ∷ [];
}

register_test :
    register_webhook outside (119 ∷ []) patient fresh ≡ (registered, returned (119 ∷ []))
unfolding register_webhook JsMap.set is_blank
register_test = refl

get_test : get_webhook outside (119 ∷ []) registered ≡ (registered, returned patient)
unfolding get_webhook JsMap.get
get_test = refl

-- The record of a delivery is listed as if it were a webhook.
listed_test :
    (list_webhooks outside (record_delivery_attempt outside (49 ∷ []) attempt registered).0).1
    ≡ returned (patient ∷ patient ∷ [])
unfolding list_webhooks record_delivery_attempt read_all JsMap.get JsMap.set
listed_test = refl

switching_lem_example :
    let off = record patient { active = false } in
    let on = record patient { active = true } in
    let disabled = (disable_webhook outside (119 ∷ []) registered).0 in
    let enabled = (enable_webhook outside (119 ∷ []) registered).0 in
    ((disable_webhook outside (119 ∷ []) registered).1 ≡ returned tt)
    × (get_webhook outside (119 ∷ []) disabled ≡ (disabled, returned off))
    × (memory_answers.look (webhook_key outside (119 ∷ [])) disabled.server
        ≡ some (one_webhook.stringify off))
    × ((enable_webhook outside (119 ∷ []) registered).1 ≡ returned tt)
    × (get_webhook outside (119 ∷ []) enabled ≡ (enabled, returned on))
    × (memory_answers.look (webhook_key outside (119 ∷ [])) enabled.server
        ≡ some (one_webhook.stringify on))
switching_lem_example =
    switching_lem outside memory_answers (119 ∷ []) patient registered registered get_test
