-- ===== src/Webhook/Delivery.antt =====
-- How often an event is posted to a webhook, and how long the manager waits between the attempts.
use job_queue.Prelude.{
  ℕ, suc, zero, ◌+◌, ◌-◌, ◌*◌, ◌≤◌, ◌≡◌, ◌∙◌, refl, ap, Bool, true, false, ◌||◌, ◌&&◌, List, [],
  ◌∷◌, ◌++◌, arith, ltb, get_or, if◌then◌else◌, length,
}
use job_queue.Webhook.{
  DeliveryStrategy, reliable, is_best_effort, WebhookConfig, Answer, responded, failed, Effect,
  posted, attempt_recorded, waited, delivery_failed, is_success, try_deliver_webhook_attempt,
  wait_before_retry, deliver_from, deliver_webhook,
}

-- The attempts posted, those recorded, the order of requests and waits, and the failures reported.
abbrev pub posts : List Effect → List ℕ
posts [] = []
posts (posted url n ∷ es) = n ∷ posts es
posts (_ ∷ es) = posts es

abbrev pub records : List Effect → List ℕ
records [] = []
records (attempt_recorded url n outcome ∷ es) = n ∷ records es
records (_ ∷ es) = records es

-- A request, or a wait
pub data Beat : Type 0 where
  request : ℕ → Beat
  pause : ℕ → Beat

abbrev pub timeline : List Effect → List Beat
timeline [] = []
timeline (posted url n ∷ es) = request n ∷ timeline es
timeline (waited ms ∷ es) = pause ms ∷ timeline es
timeline (_ ∷ es) = timeline es

abbrev pub failures : List Effect → ℕ
failures [] = 0
failures (delivery_failed ∷ es) = suc (failures es)
failures (_ ∷ es) = failures es

-- Whether an answer is a success.
abbrev pub succeeds : Answer → Bool
succeeds (responded code) = is_success code
succeeds (failed message) = false

-- The attempts that are due: up to and with the first that succeeds, or that is not to be repeated.
abbrev pub due : Bool → (ℕ → Answer) → ℕ → ℕ → List ℕ
due once http_post zero n = []
due once http_post (suc left) n =
    let rest = due once http_post left (n + 1) in
    n ∷ (if succeeds (http_post n) || once then [] else rest)

-- These attempts, with the wait after each of them but the last.
abbrev pub paced : List ℕ → List Beat
paced [] = []
paced (n ∷ []) = request n ∷ []
paced (n ∷ m ∷ ns) = request n ∷ pause (5000 * n) ∷ paced (m ∷ ns)

-- Whether every attempt fails, from one on.
abbrev pub all_fail : (ℕ → Answer) → ℕ → ℕ → Bool
all_fail http_post zero n = true
all_fail http_post (suc left) n =
    let rest = all_fail http_post left (n + 1) in if succeeds (http_post n) then false else rest

measures-append :
    (xs ys : List Effect)
    → (posts (xs ++ ys) ≡ posts xs ++ posts ys)
      × (records (xs ++ ys) ≡ records xs ++ records ys)
      × (timeline (xs ++ ys) ≡ timeline xs ++ timeline ys)
      × (failures (xs ++ ys) ≡ failures xs + failures ys)
measures-append [] ys = (refl, refl, refl, omega arith)
measures-append (posted url n ∷ xs) ys =
    let m = measures-append xs ys in
    (ap (λ ns. n ∷ ns) m.0, m.1, ap (λ bs. request n ∷ bs) m.2, m.3)
measures-append (attempt_recorded url n outcome ∷ xs) ys =
    let m = measures-append xs ys in (m.0, ap (λ ns. n ∷ ns) m.1, m.2, m.3)
measures-append (waited ms ∷ xs) ys =
    let m = measures-append xs ys in (m.0, m.1, ap (λ bs. pause ms ∷ bs) m.2, m.3)
measures-append (delivery_failed ∷ xs) ys =
    let m = measures-append xs ys in (m.0, m.1, m.2, omega (arith, m.3))

pause_lem :
    (n max_retries : ℕ)
    → (if ltb max_retries (n + 1) then [] else pause (5000 * (n + 1 - 1)) ∷ [])
      ≡ (if ltb max_retries (n + 1) then [] else pause (5000 * n) ∷ [])
pause_lem n max_retries =
    ap (λ k. if ltb max_retries (n + 1) then [] else pause (5000 * k) ∷ []) (omega arith)

-- The wait before an attempt, if there is one to come.
wait_lem :
    (n max_retries : ℕ)
    → (posts (wait_before_retry n max_retries) ≡ [])
      × (records (wait_before_retry n max_retries) ≡ [])
      × (timeline (wait_before_retry n max_retries)
          ≡ (if ltb max_retries n then [] else pause (5000 * (n - 1)) ∷ []))
      × (failures (wait_before_retry n max_retries) ≡ 0)
unfolding wait_before_retry
wait_lem n max_retries = ground arith

module _ (webhook : WebhookConfig) (http_post : ℕ → Answer) where
  -- One attempt posts once, and is recorded once.
  attempt_lem :
      (strategy : DeliveryStrategy) (n : ℕ)
      → let (effects, delivered) = try_deliver_webhook_attempt webhook strategy http_post n in
        (delivered ≡ (succeeds (http_post n) || is_best_effort strategy))
        × (posts effects ≡ n ∷ [])
        × (records effects ≡ n ∷ [])
        × (timeline effects ≡ request n ∷ [])
        × (failures effects ≡ 0)
  unfolding try_deliver_webhook_attempt
  attempt_lem strategy n = ground arith

  length-due :
      (once : Bool) (left n : ℕ) → length (due once http_post left n) ≤ (if once then 1 else left)
  length-due once zero n = ground arith
  length-due once (suc left) n = ground (arith, length-due once left (n + 1))

  -- An attempt that is repeated after a pause.
  again_lem :
      (strategy : DeliveryStrategy) (max_retries n : ℕ) (rest : List Effect)
      → let es =
          (try_deliver_webhook_attempt webhook strategy http_post n).0
          ++ (wait_before_retry (n + 1) max_retries ++ rest) in
        (posts es ≡ n ∷ posts rest)
        × (records es ≡ n ∷ records rest)
        × (timeline es
            ≡ request n
              ∷ ((if ltb max_retries (n + 1) then [] else pause (5000 * n) ∷ []) ++ timeline rest))
        × (failures es ≡ failures rest)
  again_lem strategy max_retries n rest =
      let effects = (try_deliver_webhook_attempt webhook strategy http_post n).0 in
      let pause' = wait_before_retry (n + 1) max_retries in
      let a = attempt_lem strategy n in
      let w = wait_lem (n + 1) max_retries in
      let m = measures-append effects (pause' ++ rest) in
      let k = measures-append pause' rest in
      (
        m.0
            ∙ ap (λ xs. xs ++ posts (pause' ++ rest)) a.1
            ∙ ap (λ xs. n ∷ xs) (k.0 ∙ ap (λ xs. xs ++ posts rest) w.0),
        m.1
            ∙ ap (λ xs. xs ++ records (pause' ++ rest)) a.2
            ∙ ap (λ xs. n ∷ xs) (k.1 ∙ ap (λ xs. xs ++ records rest) w.1),
        m.2
            ∙ ap (λ xs. xs ++ timeline (pause' ++ rest)) a.3
            ∙ ap (λ xs. request n ∷ xs)
                (k.2 ∙ ap (λ xs. xs ++ timeline rest) (w.2 ∙ pause_lem n max_retries)),
        omega (arith, m.3, k.3, a.4, w.3),
      )

  deliver_from_lem :
      (left : ℕ) (strategy : DeliveryStrategy) (max_retries n : ℕ)
      → let effects = deliver_from left webhook strategy max_retries http_post n in
        (posts effects ≡ due (is_best_effort strategy) http_post left n)
        × (records effects ≡ due (is_best_effort strategy) http_post left n)
  unfolding deliver_from
  deliver_from_lem zero strategy max_retries n = (refl, refl)
  deliver_from_lem (suc left) strategy max_retries n = ground (
    arith,
    attempt_lem strategy n,
    deliver_from_lem left strategy max_retries (n + 1),
    again_lem strategy max_retries n
        (deliver_from left webhook strategy max_retries http_post (n + 1)),
  )

  failures-deliver_from :
      (left : ℕ) (strategy : DeliveryStrategy) (max_retries n : ℕ)
      → failures (deliver_from left webhook strategy max_retries http_post n) ≡ (
          if is_best_effort strategy && ltb 0 left
          then 0
          else if all_fail http_post left n
          then 1
          else 0)
  unfolding deliver_from
  failures-deliver_from zero strategy max_retries n = ground arith
  failures-deliver_from (suc left) strategy max_retries n = ground (
    arith,
    attempt_lem strategy n,
    failures-deliver_from left strategy max_retries (n + 1),
    again_lem strategy max_retries n
        (deliver_from left webhook strategy max_retries http_post (n + 1)),
  )

  waits-deliver_from :
      (left : ℕ) (strategy : DeliveryStrategy) (max_retries n : ℕ)
      → left + n ≡ max_retries + 1
      → timeline (deliver_from left webhook strategy max_retries http_post n)
        ≡ paced (due (is_best_effort strategy) http_post left n)
  unfolding deliver_from
  waits-deliver_from zero strategy max_retries n h = refl
  waits-deliver_from (suc zero) strategy max_retries n h =
      ground
        (arith, h, attempt_lem strategy n, again_lem strategy max_retries n (delivery_failed ∷ []))
  waits-deliver_from (suc (suc left)) strategy max_retries n h =
      let rest = deliver_from (suc left) webhook strategy max_retries http_post (n + 1) in
      ground (
        arith,
        h,
        attempt_lem strategy n,
        again_lem strategy max_retries n rest,
        waits-deliver_from (suc left) strategy max_retries (n + 1) (omega (arith, h)),
      )

  -- An event is posted to a webhook until an attempt succeeds, `maxRetries` times at most and once
  -- at most with the strategy of best effort, and every attempt is recorded. Right after the k-th
  -- attempt, before the next, the manager waits 5000 * k milliseconds, and at no other time. It reports a failure just if no
  -- attempt succeeds, but with best effort only if `maxRetries` is 0.
  pub deliver_webhook_lem :
      let effects = deliver_webhook webhook http_post in
      let once = is_best_effort (get_or webhook.delivery_strategy reliable) in
      let max_retries = get_or webhook.max_retries 3 in
      let attempts = due once http_post max_retries 1 in
      (posts effects ≡ attempts)
      × (records effects ≡ attempts)
      × (length attempts ≤ (if once then 1 else max_retries))
      × (timeline effects ≡ paced attempts)
      × (failures effects ≡ (
          if once && ltb 0 max_retries
          then 0
          else if all_fail http_post max_retries 1
          then 1
          else 0))
  unfolding deliver_webhook
  deliver_webhook_lem =
      let strategy = get_or webhook.delivery_strategy reliable in
      let max_retries = get_or webhook.max_retries 3 in
      let d = deliver_from_lem max_retries strategy max_retries 1 in
      (
        d.0,
        d.1,
        length-due (is_best_effort strategy) max_retries 1,
        waits-deliver_from max_retries strategy max_retries 1 refl,
        failures-deliver_from max_retries strategy max_retries 1,
      )
