-- ===== src/Webhook/Selection.antt =====
-- To which webhooks `sendEvent` posts an event.
use job_queue.Prelude.{
  ℕ, suc, zero, ◌+◌, ◌-◌, ◌*◌, ◌≡◌, ◌∙◌, refl, ap, String, Bool, true, false, not, ◌||◌, ◌&&◌, none,
  some, List, [], ◌∷◌, ◌++◌, map, arith, ltb, get_or, if◌then◌else◌,
}
use job_queue.Webhook.{
  status_code, error_message, is_success, DeliveryStrategy, reliable, is_best_effort, EventType,
  includes, WebhookConfig, Answer, responded, failed, Effect, posted, attempt_recorded, waited,
  delivery_failed, try_deliver_webhook_attempt, wait_before_retry, deliver_from, deliver_webhook,
  send_event,
}
use job_queue.Webhook.Delivery.{posts, due, deliver_webhook_lem}

-- The requests made, with URL and number of attempt.
abbrev pub requests : List Effect → List (String × ℕ)
requests [] = []
requests (posted url n ∷ es) = (url, n) ∷ requests es
requests (_ ∷ es) = requests es

requests-append : (xs ys : List Effect) → requests (xs ++ ys) ≡ requests xs ++ requests ys
requests-append [] ys = refl
requests-append (posted url n ∷ xs) ys = ap (λ r. (url, n) ∷ r) (requests-append xs ys)
requests-append (attempt_recorded url n outcome ∷ xs) ys = requests-append xs ys
requests-append (waited ms ∷ xs) ys = requests-append xs ys
requests-append (delivery_failed ∷ xs) ys = requests-append xs ys

-- All requests go to one URL.
abbrev pub IsTo : String → List Effect → Type 0
IsTo u [] = Unit
IsTo u (posted url n ∷ es) = (url ≡ u) × IsTo u es
IsTo u (_ ∷ es) = IsTo u es

append-IsTo : (u : String) (xs ys : List Effect) → IsTo u xs → IsTo u ys → IsTo u (xs ++ ys)
append-IsTo u [] ys p q = q
append-IsTo u (posted url n ∷ xs) ys (e, p) q = (e, append-IsTo u xs ys p q)
append-IsTo u (attempt_recorded url n outcome ∷ xs) ys p q = append-IsTo u xs ys p q
append-IsTo u (waited ms ∷ xs) ys p q = append-IsTo u xs ys p q
append-IsTo u (delivery_failed ∷ xs) ys p q = append-IsTo u xs ys p q

requests-IsTo :
    (u : String) (es : List Effect) → IsTo u es → requests es ≡ map (λ n. (u, n)) (posts es)
requests-IsTo u [] p = refl
requests-IsTo u (posted url n ∷ es) (e, p) = ground (arith, e, requests-IsTo u es p)
requests-IsTo u (attempt_recorded url n outcome ∷ es) p = requests-IsTo u es p
requests-IsTo u (waited ms ∷ es) p = requests-IsTo u es p
requests-IsTo u (delivery_failed ∷ es) p = requests-IsTo u es p

attempt-IsTo :
    (webhook : WebhookConfig) (strategy : DeliveryStrategy) (http_post : ℕ → Answer) (n : ℕ)
    → IsTo webhook.url (try_deliver_webhook_attempt webhook strategy http_post n).0
unfolding try_deliver_webhook_attempt
attempt-IsTo webhook strategy http_post n =
    elim (http_post n)
      as (λ answer.
        IsTo webhook.url
          (elim answer as (λ _. List Effect × Bool) [
            | responded code ↦ (
              posted webhook.url n ∷ attempt_recorded webhook.url n (status_code code) ∷ [],
              is_success code || is_best_effort strategy,
            )
            | failed message ↦ (
              posted webhook.url n
                  ∷ attempt_recorded webhook.url n (
                      error_message message
                        (if not (is_best_effort strategy) then some (5000 * n) else none))
                  ∷ [],
              is_best_effort strategy,
            )
          ]).0) [ responded code ↦ (refl, tt) | failed message ↦ (refl, tt) ]

if-IsTo :
    (u : String) (b : Bool) (xs ys : List Effect)
    → IsTo u xs
    → IsTo u ys
    → IsTo u (if b then xs else ys)
if-IsTo u true xs ys p q = p
if-IsTo u false xs ys p q = q

wait-IsTo : (u : String) (n max_retries : ℕ) → IsTo u (wait_before_retry n max_retries)
unfolding wait_before_retry
wait-IsTo u n max_retries = if-IsTo u (ltb max_retries n) [] (waited (5000 * (n - 1)) ∷ []) tt tt

deliver_from-IsTo :
    (left : ℕ) (webhook : WebhookConfig) (strategy : DeliveryStrategy) (max_retries : ℕ)
    (http_post : ℕ → Answer) (n : ℕ)
    → IsTo webhook.url (deliver_from left webhook strategy max_retries http_post n)
unfolding deliver_from
deliver_from-IsTo zero webhook strategy max_retries http_post n = tt
deliver_from-IsTo (suc left) webhook strategy max_retries http_post n =
    let url = webhook.url in
    let (effects, delivered) = try_deliver_webhook_attempt webhook strategy http_post n in
    let pause = wait_before_retry (n + 1) max_retries in
    let rest = deliver_from left webhook strategy max_retries http_post (n + 1) in
    let a = attempt-IsTo webhook strategy http_post n in
    let r =
      append-IsTo url pause rest (wait-IsTo url (n + 1) max_retries)
        (deliver_from-IsTo left webhook strategy max_retries http_post (n + 1)) in
    if-IsTo url (delivered || is_best_effort strategy) effects (effects ++ (pause ++ rest)) a
      (append-IsTo url effects (pause ++ rest) a r)

-- The requests that an event calls for, webhook by webhook.
abbrev pub expected : (String → ℕ → Answer) → EventType → List WebhookConfig → List (String × ℕ)
expected http_post event_type [] = []
expected http_post event_type (webhook ∷ webhooks) =
    let rest = expected http_post event_type webhooks in
    let once = is_best_effort (get_or webhook.delivery_strategy reliable) in
    let attempts = due once (http_post webhook.url) (get_or webhook.max_retries 3) 1 in
    if webhook.active && includes event_type webhook.events
    then map (λ n. (webhook.url, n)) attempts ++ rest
    else rest

requests-deliver_webhook :
    (webhook : WebhookConfig) (http_post : ℕ → Answer)
    → requests (deliver_webhook webhook http_post)
      ≡ map
          (λ n. (webhook.url, n))
          (due
            (is_best_effort (get_or webhook.delivery_strategy reliable))
            http_post
            (get_or webhook.max_retries 3)
            1)
unfolding deliver_webhook
requests-deliver_webhook webhook http_post =
    let strategy = get_or webhook.delivery_strategy reliable in
    let max_retries = get_or webhook.max_retries 3 in
    requests-IsTo webhook.url (deliver_webhook webhook http_post)
      (deliver_from-IsTo max_retries webhook strategy max_retries http_post 1)
    ∙ ap (map (λ n. (webhook.url, n))) (deliver_webhook_lem webhook http_post).0

-- `sendEvent` posts an event to the webhooks that are active and subscribed to its type, in their
-- order, and to no other; to each until an attempt succeeds or its attempts are used up, whatever
-- became of the webhooks before it.
pub requests-send_event :
    (webhooks : List WebhookConfig) (http_post : String → ℕ → Answer) (event_type : EventType)
    → requests (send_event webhooks http_post event_type) ≡ expected http_post event_type webhooks
unfolding send_event
requests-send_event [] http_post event_type = refl
requests-send_event (webhook ∷ webhooks) http_post event_type = ground (
  arith,
  requests-append (deliver_webhook webhook (http_post webhook.url))
      (send_event webhooks http_post event_type),
  requests-deliver_webhook webhook (http_post webhook.url),
  requests-send_event webhooks http_post event_type,
)
