-- ===== src/Billing/Lifecycle/Calls.antt =====
-- Every call that changes webhook events keeps their rows in order
-- (src/casino_bot/billing/api_v1.py and src/casino_bot/services/billing_service.py).
use Prim.Native.String.{String}
use casino_bot.Prelude.{
  ℕ, ℤ, ◌≡◌, refl, Bool, true, false, not, Option, none, some, List, [], ◌∷◌, All-append_one,
  All-select, All-first, first, arith,
}
use casino_bot.Python.{bind-keeps, ◌>>=◌, lift, pure}
use casino_bot.Python.Documents.{Value}
use casino_bot.Settings.{Settings}
use casino_bot.Database.{BillingWebhookEvent, EventStatus, Session, begin_work, write}
use casino_bot.Billing.Events.{BillingClock, NormalizedBillingEvent, RawBody}
use casino_bot.Billing.Operations.{
  is_old, cutoff, event_or_404, replayable, replayed, released, undelete_dead_letter,
  cleanup_old_webhook_events, finish_replay, replay_event, replay_by, replay_row, release,
  settled_item, add_item, replay_webhook_event, replay_failed_events, replay_each,
}
use casino_bot.Billing.Webhooks.{
  has_event_id, add_event, create_webhook_event, flushed_or_none, safe_process_webhook,
  process_normalized_event, current_row,
}
use casino_bot.Billing.Providers.{Adapter, provider_adapter, parse_and_verify_webhook}
use casino_bot.Billing.Lifecycle.{
  IsOrderly, OrderlyIn, received-IsOrderly, replayed-IsOrderly, current-IsOrderly, put-OrderlyIn,
}
use casino_bot.Billing.Lifecycle.Attempts.{process-OrderlyIn, commit-OrderlyIn}
use casino_bot.Billing.Routes.{handled, Delivery, reply_to, take_delivery, billing_webhook}

module _ (settings : Settings) where
  safe-OrderlyIn :
      (clock : BillingClock) (row : BillingWebhookEvent) (event : NormalizedBillingEvent)
      (s : Session)
      → IsOrderly settings row
      → OrderlyIn settings s
      → OrderlyIn settings (safe_process_webhook settings clock row event s).1
  unfolding safe_process_webhook
  safe-OrderlyIn clock row event s h all =
      commit-OrderlyIn settings clock row (process_normalized_event settings clock row event s).0
        (process_normalized_event settings clock row event s).1 h
        (process-OrderlyIn settings clock row event s h all)

  reply-OrderlyIn :
      (d : Delivery) (event : NormalizedBillingEvent) (taken : Bool) (row : BillingWebhookEvent)
      (s : Session)
      → IsOrderly settings row
      → OrderlyIn settings s
      → OrderlyIn settings ((flushed_or_none taken row >>= reply_to settings d event) s).1
  unfolding flushed_or_none reply_to
  reply-OrderlyIn d event true row s h all = (all.1, all.1)
  reply-OrderlyIn d event false row s h all =
      let added = (write (add_event row) s).1 in
      bind-keeps (OrderlyIn settings) (safe_process_webhook settings d.clock row event)
        (λ status. pure (handled status)) added
        (safe-OrderlyIn d.clock row event added h
          (All-append_one (IsOrderly settings) s.work.webhook_events row all.0 h, all.1))
        λ status s' all'. all'

  take-OrderlyIn :
      (d : Delivery) (adapter : Option Adapter) (s : Session)
      → OrderlyIn settings s
      → OrderlyIn settings (take_delivery settings d adapter s).1
  unfolding take_delivery create_webhook_event
  take-OrderlyIn d none s all = all
  take-OrderlyIn d (some adapter) s all =
      bind-keeps (OrderlyIn settings)
        (lift (parse_and_verify_webhook adapter settings d.hmac d.now d.headers d.body))
        (λ event. create_webhook_event d.sha256 d.clock event d.body >>= reply_to settings d event)
        s all
        λ event s' all'.
          reply-OrderlyIn d event _ _ (begin_work s' s'.work)
            (received-IsOrderly settings _ _ _ event) all'

  finish-OrderlyIn :
      (clock : BillingClock) (row : BillingWebhookEvent) (status : EventStatus) (s : Session)
      → IsOrderly settings row
      → OrderlyIn settings s
      → OrderlyIn settings (finish_replay settings clock row status s).1
  unfolding finish_replay
  finish-OrderlyIn clock row status s h all =
      let row' = replayed settings clock (current_row row s.work) in
      let written =
        put-OrderlyIn settings row' s
          (replayed-IsOrderly settings clock _ (current-IsOrderly settings row s.work h all.0))
          all in
      (written.0, written.0)

  event-OrderlyIn :
      (clock : BillingClock) (row : BillingWebhookEvent) (event : NormalizedBillingEvent)
      (s : Session)
      → IsOrderly settings row
      → OrderlyIn settings s
      → OrderlyIn settings (replay_event settings clock row event s).1
  unfolding replay_event
  event-OrderlyIn clock row event s h all =
      bind-keeps (OrderlyIn settings) (process_normalized_event settings clock row event)
        (finish_replay settings clock row) s (process-OrderlyIn settings clock row event s h all)
        λ status s' all'. finish-OrderlyIn clock row status s' h all'

  by-OrderlyIn :
      (clock : BillingClock) (dumps : Value → String) (row : BillingWebhookEvent)
      (adapter : Adapter) (s : Session)
      → IsOrderly settings row
      → OrderlyIn settings s
      → OrderlyIn settings (replay_by settings clock dumps row adapter s).1
  unfolding replay_by
  by-OrderlyIn clock dumps row adapter s h all =
      let body : RawBody = record {
        bytes = dumps row.raw_payload;
        document = some row.raw_payload;
      } in
      bind-keeps (OrderlyIn settings) (lift (adapter.parse_event body))
        (replay_event settings clock row) s all
        λ event s' all'. event-OrderlyIn clock row event s' h all'

  row-OrderlyIn :
      (clock : BillingClock) (dumps : Value → String) (row : BillingWebhookEvent) (s : Session)
      → IsOrderly settings row
      → OrderlyIn settings s
      → OrderlyIn settings (replay_row settings clock dumps row s).1
  unfolding replay_row
  row-OrderlyIn clock dumps row s h all =
      bind-keeps (OrderlyIn settings) (lift (replayable row)) (replay_by settings clock dumps row) s
        all λ adapter s1 all1. by-OrderlyIn clock dumps row adapter s1 h all1

  found-OrderlyIn :
      (clock : BillingClock) (dumps : Value → String) (found : Option BillingWebhookEvent)
      (s : Session)
      → ((row : BillingWebhookEvent) → found ≡ some row → IsOrderly settings row)
      → OrderlyIn settings s
      → OrderlyIn settings ((lift (event_or_404 found) >>= replay_row settings clock dumps) s).1
  unfolding event_or_404
  found-OrderlyIn clock dumps none s h all = all
  found-OrderlyIn clock dumps (some row) s h all = row-OrderlyIn clock dumps row s (h row refl) all

  pub replay-OrderlyIn :
      (clock : BillingClock) (dumps : Value → String) (id : ℕ) (s : Session)
      → OrderlyIn settings s
      → OrderlyIn settings (replay_webhook_event settings clock dumps id s).1
  unfolding replay_webhook_event
  replay-OrderlyIn clock dumps id s all =
      found-OrderlyIn clock dumps (first (has_event_id id) s.work.webhook_events)
        (begin_work s s.work)
        (λ row e. All-first (IsOrderly settings) (has_event_id id) s.work.webhook_events all.0 e)
        all

  each-OrderlyIn :
      (clocks : ℕ → BillingClock) (dumps : Value → String) (rows : List BillingWebhookEvent)
      (s : Session)
      → OrderlyIn settings s
      → OrderlyIn settings (replay_each settings clocks dumps rows s).1
  unfolding replay_each
  each-OrderlyIn clocks dumps [] s all = all
  each-OrderlyIn clocks dumps (row ∷ rows) s all =
      let rest = replay_each settings clocks dumps rows in
      let m = replay_webhook_event settings (clocks row.id) dumps row.id in
      let r = settled_item (m s).0 in
      bind-keeps (OrderlyIn settings) (lift r)
        (λ item. rest >>= λ items. pure (add_item row.id item items)) (m s).1
        (replay-OrderlyIn (clocks row.id) dumps row.id s all)
        λ item s1 all1.
          bind-keeps (OrderlyIn settings) rest (λ items. pure (add_item row.id item items)) s1
            (each-OrderlyIn clocks dumps rows s1 all1) λ items s2 all2. all2

  released-IsOrderly :
      (row : BillingWebhookEvent) → IsOrderly settings row → IsOrderly settings (released row)
  released-IsOrderly row h = ground arith

  release-OrderlyIn :
      (found : Option BillingWebhookEvent) (s : Session)
      → ((row : BillingWebhookEvent) → found ≡ some row → IsOrderly settings row)
      → OrderlyIn settings s
      → OrderlyIn settings ((lift (event_or_404 found) >>= release) s).1
  unfolding event_or_404 release
  release-OrderlyIn none s h all = all
  release-OrderlyIn (some row) s h all =
      let written =
        put-OrderlyIn settings (released row) s (released-IsOrderly row (h row refl)) all in
      (written.0, written.0)

  pub undelete-OrderlyIn :
      (id : ℕ) (s : Session)
      → OrderlyIn settings s
      → OrderlyIn settings (undelete_dead_letter id s).1
  unfolding undelete_dead_letter
  undelete-OrderlyIn id s all =
      release-OrderlyIn (first (has_event_id id) s.work.webhook_events) (begin_work s s.work)
        (λ row e. All-first (IsOrderly settings) (has_event_id id) s.work.webhook_events all.0 e)
        all

  pub cleanup-OrderlyIn :
      (now : ℤ) (s : Session)
      → OrderlyIn settings s
      → OrderlyIn settings (cleanup_old_webhook_events settings now s).1
  unfolding cleanup_old_webhook_events
  cleanup-OrderlyIn now s all =
      let left =
        All-select (IsOrderly settings) (λ row. not (is_old (cutoff settings now) row))
          s.work.webhook_events all.0 in
      (left, left)

  pub webhook-OrderlyIn :
      (d : Delivery) (s : Session)
      → OrderlyIn settings s
      → OrderlyIn settings (billing_webhook settings d s).1
  unfolding billing_webhook
  webhook-OrderlyIn d s all = take-OrderlyIn d (provider_adapter d.provider) s all

  pub failed-OrderlyIn :
      (clocks : ℕ → BillingClock) (dumps : Value → String) (provider : Option String) (limit : ℕ)
      (s : Session)
      → OrderlyIn settings s
      → OrderlyIn settings (replay_failed_events settings clocks dumps provider limit s).1
  unfolding replay_failed_events
  failed-OrderlyIn clocks dumps provider limit s all =
      each-OrderlyIn clocks dumps _ (begin_work s s.work) all
