-- ===== src/Billing/Webhooks.antt =====
-- Webhook events (src/casino_bot/services/billing_service.py): their creation, their processing, and
-- what becomes of an event whose processing raises.
pub mod Idempotent
pub mod Failures
pub mod Redelivery
use Prim.Native.String.{String}
use casino_bot.Prelude.{
  ℕ, ◌+◌, ℤ, pos, pos_part, ◌+ℤ◌, ◌*ℤ◌, ltb_ℤ, leb_ℤ, Bool, true, false, not, ◌&&◌, ◌||◌, ◌==◌,
  str_eq, Option, none, some, List, [], ◌∷◌, ◌++◌, first, update_first, if◌then◌else◌,
}
use casino_bot.Python.{
  Error, Result, ok, err, integrity_error, http_exception, http_coded, exception, type_error,
  value_error, key_error, compliance_violation, operational_error, engine_rejected, Json, number,
  text, flag, lift, pure, raise, raise_if, ◌>>=◌, ◌>>◌,
}
use casino_bot.Settings.{Settings}
use casino_bot.Database.{
  User, Subscription, BillingWebhookEvent, EventStatus, received, ignored, failed_event, processed,
  Tables, Session, Db, query, write, commit, rollback, has_user, is_found, audit_log,
}
use casino_bot.Billing.Events.{BillingClock, NormalizedBillingEvent, RawBody, max_datetime}
use casino_bot.Billing.Sync.{resolve_user, upsert_subscription}

-- The columns of the unique index of the events.
abbrev pub has_external_id : String → String → BillingWebhookEvent → Bool
has_external_id provider external_event_id row =
    str_eq row.provider provider && str_eq row.external_event_id external_event_id

abbrev pub has_event_id : ℕ → BillingWebhookEvent → Bool
has_event_id id row = row.id == id

abbrev pub put_event : BillingWebhookEvent → Tables → Tables
put_event row t = record t {
  webhook_events = update_first (has_event_id row.id) (λ _. row) t.webhook_events;
}

unfoldable pub received_event :
    String → BillingClock → ℕ → NormalizedBillingEvent → BillingWebhookEvent
received_event payload_hash clock id event = record {
  id = id;
  provider = event.provider;
  external_event_id = event.external_event_id;
  event_type = event.event_type;
  payload_hash = payload_hash;
  received_at = clock.created_at;
  processed_at = none;
  status = received;
  error_message = none;
  raw_payload = event.raw;
  attempts_count = pos 0;
  dead_letter = false;
  last_replayed_at = none;
  last_attempt_at = none;
  last_error_code = none;
  last_error_message = none;
}

abbrev pub add_event : BillingWebhookEvent → Tables → Tables
add_event row t = record t {
  webhook_events = t.webhook_events ++ row ∷ [];
  next_event_id = t.next_event_id + 1;
}

-- The flush of the new row, and the rollback where it breaks the unique index.
unfoldable pub flushed_or_none : Bool → BillingWebhookEvent → Db (Option BillingWebhookEvent)
flushed_or_none true row = rollback >> pure none
flushed_or_none false row = write (add_event row) >> pure (some row)

unfoldable pub create_webhook_event :
    (sha256 : String → String)
    → BillingClock
    → NormalizedBillingEvent
    → RawBody
    → Db (Option BillingWebhookEvent)
create_webhook_event sha256 clock event body = do
  id ← query (λ t. t.next_event_id)
  taken ← query (λ t.
      is_found (first (has_external_id event.provider event.external_event_id) t.webhook_events))
  flushed_or_none taken (received_event (sha256 body.bytes) clock id event)

-- The row at the beginning of an attempt.
unfoldable pub start_attempt : BillingClock → BillingWebhookEvent → BillingWebhookEvent
start_attempt clock row = record row {
  attempts_count = row.attempts_count +ℤ pos 1;
  last_attempt_at = some clock.attempted_at;
  last_error_code = none;
  last_error_message = none;
}

-- An attempt that ends without a subscription.
unfoldable pub end_attempt :
    EventStatus → String → String → BillingClock → BillingWebhookEvent → BillingWebhookEvent
end_attempt status error_code message clock row = record row {
  status = status;
  error_message = some message;
  last_error_code = some error_code;
  last_error_message = some message;
  processed_at = some clock.processed_at;
}

unfoldable pub is_exhausted : Settings → BillingWebhookEvent → Bool
is_exhausted settings row = leb_ℤ settings.billing.dead_letter_attempts row.attempts_count

unfoldable pub bury_if_exhausted : Settings → BillingWebhookEvent → BillingWebhookEvent
unfolding is_exhausted
bury_if_exhausted settings row =
    if is_exhausted settings row then record row { dead_letter = true } else row

unfoldable pub ignore_event : BillingClock → String → String → BillingWebhookEvent → Db EventStatus
unfolding end_attempt
ignore_event clock error_code message row = do
  write (put_event (end_attempt ignored error_code message clock row))
  pure ignored

unfoldable pub fail_mapping :
    Settings → BillingClock → NormalizedBillingEvent → BillingWebhookEvent → Db EventStatus
unfolding end_attempt bury_if_exhausted audit_log
fail_mapping settings clock event row = do
  write (
      put_event (
        bury_if_exhausted settings
          (end_attempt failed_event "mapping_failed" "Unable to map event to user" clock row)))
  audit_log "billing-webhook" "billing_mapping_failed" (
      some (
        ("provider", text event.provider)
        ∷ ("external_event_id", text event.external_event_id)
        ∷ []))
  pure failed_event

-- The end of an attempt that has stored a subscription.
unfoldable pub mark_processed :
    BillingClock
    → NormalizedBillingEvent
    → BillingWebhookEvent
    → User
    → Subscription
    → Db EventStatus
unfolding audit_log
mark_processed clock event row user sub = do
  write (put_event (record row { status = processed; processed_at = some clock.processed_at }))
  audit_log "billing-webhook" "billing_subscription_synced" (
      some (
        ("provider", text event.provider)
        ∷ ("external_event_id", text event.external_event_id)
        ∷ ("subscription_id", number (pos sub.id))
        ∷ ("user_id", number (pos user.id))
        ∷ ("status", text sub.status)
        ∷ ("entitlement_active", flag sub.entitlement_active)
        ∷ []))
  pure processed

unfoldable pub sync_event :
    Settings
    → BillingClock
    → NormalizedBillingEvent
    → BillingWebhookEvent
    → Option User
    → Db EventStatus
sync_event settings clock event row none = fail_mapping settings clock event row
sync_event settings clock event row (some user) =
    upsert_subscription settings clock event user.id >>= mark_processed clock event row user

unfoldable pub is_unsupported : NormalizedBillingEvent → Bool
is_unsupported event = not (is_found event.status) && not (str_eq event.event_type "")

unfoldable pub process_normalized_event :
    Settings → BillingClock → BillingWebhookEvent → NormalizedBillingEvent → Db EventStatus
process_normalized_event settings clock event_row event s =
    let row = start_attempt clock event_row in
    let begun = (write (put_event row) s).1 in
    let unidentified =
      ignore_event clock "missing_external_event_id" "Missing external_event_id" row begun in
    let unsupported = ignore_event clock "unsupported_event" "Unsupported event type" row begun in
    let synced_event = (query (resolve_user event) >>= sync_event settings clock event row) begun in
    if str_eq event.external_event_id ""
    then unidentified
    else if is_unsupported event
    then unsupported
    else synced_event

-- The row as the session has it: the attempt has changed it.
abbrev pub current_row : BillingWebhookEvent → Tables → BillingWebhookEvent
current_row row t = elim (first (has_event_id row.id) t.webhook_events) [ none ↦ row | some r ↦ r ]

unfoldable pub processing_failed :
    Settings → BillingClock → BillingWebhookEvent → BillingWebhookEvent
unfolding bury_if_exhausted
processing_failed settings clock row = bury_if_exhausted settings (record row {
  error_message = some "processing_error";
  last_attempt_at = some clock.failed_at;
  last_error_code = some "processing_error";
  last_error_message = some "processing_error";
})

unfoldable pub record_failure : Settings → BillingClock → BillingWebhookEvent → Db EventStatus
record_failure settings clock row = do
  current ← query (current_row row)
  write (put_event (processing_failed settings clock current))
  commit
  raise (http_exception 500 "Webhook processing failed")

-- The `try` around an attempt. After a flush that has failed, the session refuses every statement
-- until it is rolled back, so that the handler's own reads raise.
unfoldable pub commit_or_fail :
    Settings → BillingClock → BillingWebhookEvent → Result EventStatus → Db EventStatus
unfolding record_failure
commit_or_fail settings clock row (ok status) = commit >> pure status
commit_or_fail settings clock row (err (http_exception code detail)) =
    raise (http_exception code detail)
commit_or_fail settings clock row (err (http_coded code detail message)) =
    raise (http_coded code detail message)
commit_or_fail settings clock row (err (integrity_error message)) =
    rollback >> raise (exception "PendingRollbackError" message)
commit_or_fail settings clock row (err e) = record_failure settings clock row

unfoldable pub safe_process_webhook :
    Settings → BillingClock → BillingWebhookEvent → NormalizedBillingEvent → Db EventStatus
safe_process_webhook settings clock event_row event s =
    let (r, s') = process_normalized_event settings clock event_row event s in
    commit_or_fail settings clock event_row r s'
