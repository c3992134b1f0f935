-- ===== src/Webhook/Switching.antt =====
-- `enableWebhook` and `disableWebhook`, on a Redis that answers.
use job_queue.Prelude.{◌≡◌, ◌∙◌, refl, ap, Bool, true, false, some, if◌then◌else◌, returned}
use job_queue.JsMap
use job_queue.JsMap.{JsMap}
use job_queue.JsMap.Laws.{get-set_self, beq_refl}
use job_queue.AccessControl.{Text}
use job_queue.Redis.{text_eq, Answers}
use job_queue.Webhook.{WebhookConfig}
use job_queue.Webhook.Store.{
  Outside, Manager, WebhookUpdate, merged, only_active, webhook_key, get_webhook, update_webhook,
  enable_webhook, disable_webhook,
}

module _ {S : Type 0} (o : Outside S) (a : Answers o.redis) where
  abbrev after_update : Text → WebhookConfig → Manager S → Manager S
  after_update id w n = record n {
    server = (o.redis.set (webhook_key o id) (o.webhooks.stringify w) n.server).0;
    webhooks_cache = JsMap.set id w n.webhooks_cache;
  }

  update_run :
      (id : Text) (u : WebhookUpdate) (w : WebhookConfig) (m n : Manager S)
      → get_webhook o id m ≡ (n, returned w)
      → update_webhook o id u m ≡ (after_update id (merged w u) n, returned tt)
  unfolding update_webhook
  update_run id u w m n h =
      rw (h, a.set_lem (webhook_key o id) (o.webhooks.stringify (merged w u)) n.server) refl

  get_updated :
      (id : Text) (w : WebhookConfig) (n : Manager S)
      → get_webhook o id (after_update id w n) ≡ (after_update id w n, returned w)
  unfolding get_webhook
  get_updated id w n = rw (get-set_self id w n.webhooks_cache, get_webhook) refl

  held_updated :
      (id : Text) (w : WebhookConfig) (n : Manager S)
      → a.look (webhook_key o id) (after_update id w n).server ≡ some (o.webhooks.stringify w)
  held_updated id w n =
      a.look-set (webhook_key o id) (webhook_key o id) (o.webhooks.stringify w) n.server
      ∙ ap
          (λ (b : Bool).
            if b then some (o.webhooks.stringify w) else a.look (webhook_key o id) n.server)
          (beq_refl (webhook_key o id))

  -- If Redis answers every command and the manager finds a webhook, then `disableWebhook` returns, and
  -- after it `getWebhook` gives the webhook switched off and otherwise as it was, from the cache, and
  -- Redis holds the text of the same; `enableWebhook` does that with the webhook switched on.
  pub switching_lem :
      (id : Text) (w : WebhookConfig) (m n : Manager S)
      → get_webhook o id m ≡ (n, returned w)
      → let off = record w { active = false } in
        let on = record w { active = true } in
        ((disable_webhook o id m).1 ≡ returned tt)
        × (get_webhook o id (disable_webhook o id m).0 ≡ ((disable_webhook o id m).0, returned off))
        × (a.look (webhook_key o id) (disable_webhook o id m).0.server
            ≡ some (o.webhooks.stringify off))
        × ((enable_webhook o id m).1 ≡ returned tt)
        × (get_webhook o id (enable_webhook o id m).0 ≡ ((enable_webhook o id m).0, returned on))
        × (a.look (webhook_key o id) (enable_webhook o id m).0.server
            ≡ some (o.webhooks.stringify on))
  unfolding disable_webhook enable_webhook
  switching_lem id w m n h =
      let off = record w { active = false } in
      let on = record w { active = true } in
      rw
        (
          disable_webhook,
          enable_webhook,
          update_run id (only_active false) w m n h,
          update_run id (only_active true) w m n h,
        )
        (
          refl,
          get_updated id off n,
          held_updated id off n,
          refl,
          get_updated id on n,
          held_updated id on n,
        )
