-- ===== src/Billing/Lifecycle.antt =====
-- The life of webhook events (src/casino_bot/services/billing_service.py): what holds of every row
-- between two calls. Attempts and Calls show that each call keeps it.
pub mod Attempts
pub mod Calls
use Prim.Native.String.{String}
use casino_bot.Prelude.{
  ℕ, pos, ◌+ℤ◌, ◌≤ℤ◌, ◌≡◌, Bool, true, false, if◌then◌else◌, str_eq, Option, none, some, All,
  All-update_first, All-first, first, arith, Option-cases, inl, inr,
}
use casino_bot.Python.{
  Result, ok, err, bind-keeps, http_exception, http_coded, integrity_error, type_error, value_error,
  key_error, compliance_violation, operational_error, engine_rejected, exception,
}
use casino_bot.Settings.{Settings}
use casino_bot.Database.{
  User, BillingWebhookEvent, EventStatus, Subscription, received, ignored, failed_event, processed,
  Tables, Session, is_found, begin_work, write, audit_log,
}
use casino_bot.Billing.Events.{BillingClock, NormalizedBillingEvent}
use casino_bot.Billing.Sync.{
  save_subscription, resolve_user, upsert_subscription, subscription_or_new,
}
use casino_bot.Billing.Operations.{is_finished, replayed}
use casino_bot.Billing.Webhooks.{
  has_event_id, put_event, received_event, start_attempt, end_attempt, current_row,
  processing_failed, commit_or_fail, record_failure, process_normalized_event, is_unsupported,
  is_exhausted, sync_event, mark_processed, ignore_event, fail_mapping, bury_if_exhausted,
}
use casino_bot.Billing.Webhooks.Idempotent.{upsert-SameEvents}

-- The status of a row whose processing has come to an end.
unfoldable pub is_settled : EventStatus → Bool
is_settled received = false
is_settled ignored = true
is_settled failed_event = true
is_settled processed = true

-- What holds of a row between two calls: one whose processing has ended counts at least that
-- attempt, a dead letter has had as many attempts as the settings allow, and a finished row says
-- when it was processed.
pub record IsOrderly (settings : Settings) (row : BillingWebhookEvent) : Type 0 where
  pub natural : pos 0 ≤ℤ row.attempts_count
  pub counted : is_settled row.status ≡ true → pos 1 ≤ℤ row.attempts_count
  pub buried : row.dead_letter ≡ true → settings.billing.dead_letter_attempts ≤ℤ row.attempts_count
  pub finished : is_finished row.status ≡ true → is_found row.processed_at ≡ true

abbrev pub AreOrderly : Settings → Tables → Type 0
AreOrderly settings t = All (IsOrderly settings) t.webhook_events

abbrev pub OrderlyIn : Settings → Session → Type 0
OrderlyIn settings s = AreOrderly settings s.work × AreOrderly settings s.committed

module _ (settings : Settings) where
  pub received-IsOrderly :
      (hash : String) (clock : BillingClock) (id : ℕ) (event : NormalizedBillingEvent)
      → IsOrderly settings (received_event hash clock id event)
  unfolding received_event is_finished is_settled
  received-IsOrderly hash clock id event = ground arith

  pub start-IsOrderly :
      (clock : BillingClock) (row : BillingWebhookEvent)
      → IsOrderly settings row
      → IsOrderly settings (start_attempt clock row)
  unfolding start_attempt ◌+ℤ◌
  start-IsOrderly clock row h = ground arith

  pub start_counts :
      (clock : BillingClock) (row : BillingWebhookEvent)
      → IsOrderly settings row
      → pos 1 ≤ℤ (start_attempt clock row).attempts_count
  unfolding start_attempt ◌+ℤ◌
  start_counts clock row h = let natural = h.natural in ground arith

  pub end-IsOrderly :
      (status : EventStatus) (code message : String) (clock : BillingClock)
      (row : BillingWebhookEvent)
      → IsOrderly settings row
      → pos 1 ≤ℤ row.attempts_count
      → IsOrderly settings (end_attempt status code message clock row)
  unfolding end_attempt
  end-IsOrderly status code message clock row h one = ground arith

  pub bury-IsOrderly :
      (row : BillingWebhookEvent)
      → IsOrderly settings row
      → IsOrderly settings (bury_if_exhausted settings row)
  unfolding bury_if_exhausted is_exhausted
  bury-IsOrderly row h = ground arith

  pub failed-IsOrderly :
      (clock : BillingClock) (row : BillingWebhookEvent)
      → IsOrderly settings row
      → IsOrderly settings (processing_failed settings clock row)
  unfolding processing_failed bury_if_exhausted is_exhausted
  failed-IsOrderly clock row h = ground arith

  pub replayed-IsOrderly :
      (clock : BillingClock) (row : BillingWebhookEvent)
      → IsOrderly settings row
      → IsOrderly settings (replayed settings clock row)
  unfolding replayed bury_if_exhausted is_exhausted
  replayed-IsOrderly clock row h = ground arith

  pub current-IsOrderly :
      (row : BillingWebhookEvent) (t : Tables)
      → IsOrderly settings row
      → AreOrderly settings t
      → IsOrderly settings (current_row row t)
  current-IsOrderly row t h all =
      elim (Option-cases (first (has_event_id row.id) t.webhook_events)) [
        | inl e ↦ rw (e, current_row) h
        | inr (x, e) ↦
            rw (e, current_row)
              (All-first (IsOrderly settings) (has_event_id row.id) t.webhook_events all e)
      ]

  pub put-AreOrderly :
      (y : BillingWebhookEvent) (t : Tables)
      → IsOrderly settings y
      → AreOrderly settings t
      → AreOrderly settings (put_event y t)
  put-AreOrderly y t h all =
      All-update_first (IsOrderly settings) (has_event_id y.id) y t.webhook_events h all

  -- The session after a write of a row.
  pub put-OrderlyIn :
      (y : BillingWebhookEvent) (s : Session)
      → IsOrderly settings y
      → OrderlyIn settings s
      → OrderlyIn settings (write (put_event y) s).1
  put-OrderlyIn y s h all = (put-AreOrderly y s.work h all.0, all.1)
