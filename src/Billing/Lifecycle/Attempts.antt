-- ===== src/Billing/Lifecycle/Attempts.antt =====
-- An attempt at an event keeps every row in order, however it ends
-- (src/casino_bot/services/billing_service.py).
use Prim.Native.String.{String}
use casino_bot.Prelude.{
  ℕ, pos, ◌≤ℤ◌, ◌≡◌, Bool, true, false, if◌then◌else◌, str_eq, Option, none, some, arith,
}
use casino_bot.Python.{
  Result, ok, err, bind-keeps, http_exception, http_coded, integrity_error, type_error, value_error,
  key_error, compliance_violation, operational_error, engine_rejected, exception,
}
use casino_bot.Settings.{Settings}
use casino_bot.Database.{
  User, BillingWebhookEvent, EventStatus, Subscription, ignored, failed_event, processed, Session,
  begin_work, write, audit_log,
}
use casino_bot.Billing.Events.{BillingClock, NormalizedBillingEvent}
use casino_bot.Billing.Sync.{
  save_subscription, resolve_user, upsert_subscription, subscription_or_new,
}
use casino_bot.Billing.Webhooks.{
  put_event, start_attempt, end_attempt, current_row, processing_failed, commit_or_fail,
  record_failure, process_normalized_event, is_unsupported, sync_event, mark_processed,
  ignore_event, fail_mapping, bury_if_exhausted,
}
use casino_bot.Billing.Webhooks.Idempotent.{upsert-SameEvents}
use casino_bot.Billing.Lifecycle.{
  IsOrderly, OrderlyIn, start_counts, start-IsOrderly, end-IsOrderly, bury-IsOrderly,
  failed-IsOrderly, current-IsOrderly, put-AreOrderly, put-OrderlyIn,
}

module _ (settings : Settings) where
  ignore-OrderlyIn :
      (clock : BillingClock) (code message : String) (row : BillingWebhookEvent) (s : Session)
      → IsOrderly settings row
      → pos 1 ≤ℤ row.attempts_count
      → OrderlyIn settings s
      → OrderlyIn settings (ignore_event clock code message row s).1
  unfolding ignore_event
  ignore-OrderlyIn clock code message row s h one all =
      put-OrderlyIn settings (end_attempt ignored code message clock row) s
        (end-IsOrderly settings ignored code message clock row h one) all

  fail-OrderlyIn :
      (clock : BillingClock) (event : NormalizedBillingEvent) (row : BillingWebhookEvent)
      (s : Session)
      → IsOrderly settings row
      → pos 1 ≤ℤ row.attempts_count
      → OrderlyIn settings s
      → OrderlyIn settings (fail_mapping settings clock event row s).1
  unfolding fail_mapping audit_log
  fail-OrderlyIn clock event row s h one all =
      let ended =
        end-IsOrderly settings failed_event "mapping_failed" "Unable to map event to user" clock row
          h one in
      let done =
        put-OrderlyIn settings
          (bury_if_exhausted settings
            (end_attempt failed_event "mapping_failed" "Unable to map event to user" clock row))
          s (bury-IsOrderly settings _ ended) all in
      (done.0, done.1)

  mark-OrderlyIn :
      (clock : BillingClock) (event : NormalizedBillingEvent) (row : BillingWebhookEvent)
      (user : User) (sub : Subscription) (s : Session)
      → IsOrderly settings row
      → pos 1 ≤ℤ row.attempts_count
      → OrderlyIn settings s
      → OrderlyIn settings (mark_processed clock event row user sub s).1
  unfolding mark_processed audit_log
  mark-OrderlyIn clock event row user sub s h one all =
      let y : BillingWebhookEvent = record row {
        status = processed;
        processed_at = some clock.processed_at;
      } in
      let y-IsOrderly : IsOrderly settings y = ground arith in
      let done = put-OrderlyIn settings y s y-IsOrderly all in (done.0, done.1)

  upsert-committed :
      (clock : BillingClock) (event : NormalizedBillingEvent) (user_id : ℕ) (s : Session)
      → (upsert_subscription settings clock event user_id s).1.committed ≡ s.committed
  unfolding upsert_subscription save_subscription subscription_or_new
  upsert-committed clock event user_id s = ground arith

  sync-OrderlyIn :
      (clock : BillingClock) (event : NormalizedBillingEvent) (row : BillingWebhookEvent)
      (user : Option User) (s : Session)
      → IsOrderly settings row
      → pos 1 ≤ℤ row.attempts_count
      → OrderlyIn settings s
      → OrderlyIn settings (sync_event settings clock event row user s).1
  unfolding sync_event
  sync-OrderlyIn clock event row none s h one all = fail-OrderlyIn clock event row s h one all
  sync-OrderlyIn clock event row (some user) s h one all =
      bind-keeps (OrderlyIn settings) (upsert_subscription settings clock event user.id)
        (mark_processed clock event row user) s
        (
          rw (upsert-SameEvents settings clock event user.id s) all.0,
          rw (upsert-committed clock event user.id s) all.1,
        )
        λ sub s' all'. mark-OrderlyIn clock event row user sub s' h one all'

  by_branch :
      {A : Type 0} (b c : Bool) (x y z : A × Session)
      → OrderlyIn settings x.1
      → OrderlyIn settings y.1
      → OrderlyIn settings z.1
      → OrderlyIn settings (if b then x else if c then y else z).1
  by_branch true c x y z hx hy hz = hx
  by_branch false true x y z hx hy hz = hy
  by_branch false false x y z hx hy hz = hz

  pub process-OrderlyIn :
      (clock : BillingClock) (event_row : BillingWebhookEvent) (event : NormalizedBillingEvent)
      (s : Session)
      → IsOrderly settings event_row
      → OrderlyIn settings s
      → OrderlyIn settings (process_normalized_event settings clock event_row event s).1
  unfolding process_normalized_event
  process-OrderlyIn clock event_row event s h all =
      let row = start_attempt clock event_row in
      let held = start-IsOrderly settings clock event_row h in
      let one = start_counts settings clock event_row h in
      let begun = (write (put_event row) s).1 in
      let all' : OrderlyIn settings begun = put-OrderlyIn settings row s held all in
      by_branch (str_eq event.external_event_id "") (is_unsupported event) _ _ _
        (ignore-OrderlyIn clock "missing_external_event_id" "Missing external_event_id" row begun
          held one all')
        (ignore-OrderlyIn clock "unsupported_event" "Unsupported event type" row begun held one
          all')
        (sync-OrderlyIn clock event row (resolve_user event begun.work)
          (begin_work begun begun.work) held one all')

  record-OrderlyIn :
      (clock : BillingClock) (row : BillingWebhookEvent) (s : Session)
      → IsOrderly settings row
      → OrderlyIn settings s
      → OrderlyIn settings (record_failure settings clock row s).1
  unfolding record_failure
  record-OrderlyIn clock row s h all =
      let y = processing_failed settings clock (current_row row s.work) in
      let done =
        put-AreOrderly settings y s.work
          (failed-IsOrderly settings clock _ (current-IsOrderly settings row s.work h all.0))
          all.0 in
      (done, done)

  pub commit-OrderlyIn :
      (clock : BillingClock) (row : BillingWebhookEvent) (r : Result EventStatus) (s : Session)
      → IsOrderly settings row
      → OrderlyIn settings s
      → OrderlyIn settings (commit_or_fail settings clock row r s).1
  unfolding commit_or_fail
  commit-OrderlyIn clock row (ok status) s h all = (all.0, all.0)
  commit-OrderlyIn clock row (err (http_exception code detail)) s h all = all
  commit-OrderlyIn clock row (err (http_coded code detail message)) s h all = all
  commit-OrderlyIn clock row (err (integrity_error message)) s h all = (all.1, all.1)
  commit-OrderlyIn clock row (err (type_error m)) s h all = record-OrderlyIn clock row s h all
  commit-OrderlyIn clock row (err (value_error m)) s h all = record-OrderlyIn clock row s h all
  commit-OrderlyIn clock row (err (key_error m)) s h all = record-OrderlyIn clock row s h all
  commit-OrderlyIn clock row (err (compliance_violation m)) s h all =
      record-OrderlyIn clock row s h all
  commit-OrderlyIn clock row (err (operational_error m)) s h all =
      record-OrderlyIn clock row s h all
  commit-OrderlyIn clock row (err (engine_rejected c m w)) s h all =
      record-OrderlyIn clock row s h all
  commit-OrderlyIn clock row (err (exception n m)) s h all = record-OrderlyIn clock row s h all
