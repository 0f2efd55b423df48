-- ===== src/Tests/Billing.antt =====
-- Webhooks of billing at concrete deliveries.
use Prim.Native.String.{String, ◌++◌ as str_append}
use casino_bot.Prelude.{
  ℤ, pos, ◌-ℤ◌, ◌+ℤ◌, ◌*ℤ◌, ◌≡◌, refl, true, false, Option, none, some, [], ◌∷◌, first,
  update_first, ap, ◌∙◌, ◌⊎◌,
}
use casino_bot.Python.{Error, ok, err, http_exception, exception}
use casino_bot.Python.Text.{parse_int, strip, split_at}
use casino_bot.Python.Documents.{
  Value, numeral, string, object, field, end, get_default, get_value, first_item, is_true, lookup,
}
use casino_bot.Settings.{Settings}
use casino_bot.Database.{received, processed, Subscription, audit_log}
use casino_bot.Billing.Events.{
  text_or_none, str_or_empty, to_int, to_dt, of_timestamp, is_date, NormalizedBillingEvent,
  BillingClock,
}
use casino_bot.Billing.Stripe
use casino_bot.Billing.Stripe.{read_event, price_key, plan_or_id, normalize_value, stripe_status}
use casino_bot.Billing.Signatures.{
  verify_stripe_signature, split_commas, signature_parts, header_or_empty, last_value, check_parts,
  check_digest,
}
use casino_bot.Billing.Providers.{provider_adapter, stripe_adapter, parse_and_verify_webhook}
use casino_bot.Billing.Routes.{handled, idempotent, Delivery, billing_webhook, reply_to}
use casino_bot.Billing.Webhooks.Redelivery.{IsEvent, taken_in, webhook-taken_in, redelivery_idem}
use casino_bot.Billing.Webhooks.Failures.{stranded, overflow_strands}
use casino_bot.Billing.Webhooks.Idempotent.{is_taken}
use casino_bot.Billing.Webhooks.{
  create_webhook_event, flushed_or_none, received_event, safe_process_webhook, commit_or_fail,
  process_normalized_event, start_attempt, is_unsupported, sync_event, mark_processed, has_event_id,
  has_external_id,
}
use casino_bot.Billing.Sync.{
  resolve_user, upsert_subscription, save_subscription, matching_subscription, subscription_or_new,
  new_subscription, synced, is_entitlement_active, ends_after, violates_subscription_constraints,
  is_active_status, text_or,
}
use casino_bot.Billing.Operations.{is_retryable, cleanup_old_webhook_events}
use casino_bot.Billing.Lifecycle.{OrderlyIn}
use casino_bot.Billing.Reachable.{reached-OrderlyIn, here, after, delivered, cleaned_up}
use casino_bot.Billing.Authentic.{IsSigned, authentic_or_refused}
use casino_bot.Billing.Upserts.{Stores, upsert-Stores}
use casino_bot.Tests.Data.{user, settings, billing_settings, session}

abbrev metadata : Value
metadata = object (field "user_id" (string "1") end)

abbrev resource : String → ℤ → Value
resource status period_end = object (
    field "id" (string "sub_1") (
      field "customer" (string "cus_1") (
        field "status" (string status)
          (field "metadata" metadata (field "current_period_end" (numeral period_end) end)))))

abbrev payload : String → ℤ → Value
payload status period_end = object (
    field "id" (string "evt_1") (
      field "type" (string "customer.subscription.updated")
        (field "data" (object (field "object" (resource status period_end) end)) end)))

abbrev clock : BillingClock
clock = record {
  created_at = pos 1000000000;
  attempted_at = pos 1000000001;
  entitled_at = pos 1000000002;
  updated_at = pos 1000000003;
  processed_at = pos 1000000004;
  failed_at = pos 1000000005;
  replayed_at = pos 1000000006;
}

abbrev delivery : ℤ → Delivery
delivery period_end = record {
  provider = "stripe";
  headers = ("stripe-signature", "t=1000,v1=whsec:1000.{}") ∷ [];
  body = record { bytes = "{}"; document = some (payload "active" period_end) };
  hmac = λ secret text. str_append secret (str_append ":" text);
  sha256 = λ text. text;
  now = pos 1001;
  clock = clock;
}

abbrev event : ℤ → ℤ → NormalizedBillingEvent
event seconds microseconds = record {
  provider = "stripe";
  external_event_id = "evt_1";
  event_type = "customer.subscription.updated";
  occurred_at = none;
  customer_id = some "cus_1";
  subscription_id = some "sub_1";
  status = some "active";
  plan_code = none;
  current_period_end = some microseconds;
  cancel_at_period_end = false;
  user_hint = some (pos 1);
  raw = payload "active" seconds;
}

-- With a period of grace.
abbrev with_grace : ℤ → Settings
with_grace grace = record settings {
  billing = record billing_settings { entitlement_grace_seconds = grace };
}

delivery-IsEvent :
    (grace n : ℤ)
    → is_date n ≡ true
    → IsEvent (with_grace grace) (delivery n) (event n (n *ℤ pos 1000000))
unfolding provider_adapter parse_and_verify_webhook stripe_adapter verify_stripe_signature
    split_commas signature_parts header_or_empty last_value check_parts check_digest parse_int strip
    split_at Stripe.parse_event read_event price_key plan_or_id normalize_value stripe_status
    get_default get_value first_item is_true lookup text_or_none str_or_empty to_int to_dt
    of_timestamp ◌-ℤ◌
delivery-IsEvent grace n h = record { adapter = stripe_adapter; known = refl; parsed = rw h refl }

abbrev small : ℤ → NormalizedBillingEvent
small n = event n (n *ℤ pos 1000000)

taken_handles :
    (taken_in settings (delivery (pos 2000)) (small (pos 2000)) session).0 ≡ ok (handled processed)
unfolding create_webhook_event flushed_or_none received_event reply_to safe_process_webhook
    commit_or_fail process_normalized_event start_attempt is_unsupported resolve_user sync_event
    mark_processed upsert_subscription save_subscription matching_subscription subscription_or_new
    new_subscription synced is_entitlement_active ends_after violates_subscription_constraints
    audit_log first update_first ◌+ℤ◌ ◌*ℤ◌ is_active_status
taken_handles = refl

first-IsEvent : IsEvent settings (delivery (pos 2000)) (small (pos 2000))
unfolding is_date
first-IsEvent = delivery-IsEvent (pos 0) (pos 2000) refl

second-IsEvent : IsEvent settings (delivery (pos 3000)) (small (pos 3000))
unfolding is_date
second-IsEvent = delivery-IsEvent (pos 0) (pos 3000) refl

webhook_handles :
    (billing_webhook settings (delivery (pos 2000)) session).0 ≡ ok (handled processed)
webhook_handles =
    ap (λ p. p.0)
      (webhook-taken_in settings (delivery (pos 2000)) (small (pos 2000)) session first-IsEvent)
    ∙ taken_handles

redelivery_idem_example :
    let s' = (billing_webhook settings (delivery (pos 2000)) session).1 in
    billing_webhook settings (delivery (pos 3000)) s'
    ≡ (ok idempotent, record s' { in_transaction = false })
redelivery_idem_example =
    redelivery_idem settings (delivery (pos 2000)) (delivery (pos 3000)) (small (pos 2000))
      (small (pos 3000)) session first-IsEvent second-IsEvent refl refl webhook_handles

abbrev last_second : ℤ
last_second = pos 253402300799

late-IsEvent : IsEvent (with_grace (pos 3600)) (delivery last_second) (small last_second)
unfolding is_date
late-IsEvent = delivery-IsEvent (pos 3600) last_second refl

overflows :
    is_entitlement_active
      (with_grace (pos 3600))
      clock.entitled_at
      (text_or "unknown" (some "active"))
      (some (last_second *ℤ pos 1000000))
    ≡ err (exception "OverflowError" "date value out of range")
unfolding is_entitlement_active ends_after is_active_status ◌+ℤ◌ ◌*ℤ◌
overflows = refl

nothing_yet :
    (is_taken (small last_second) session.work ≡ false)
    × (first (has_event_id session.work.next_event_id) session.work.webhook_events ≡ none)
unfolding first
nothing_yet = (refl, refl)

known_user : resolve_user (small last_second) session.work ≡ some (user 1)
unfolding resolve_user first
known_user = refl

overflow_strands_example :
    let s' = billing_webhook (with_grace (pos 3600)) (delivery last_second) session in
    let row =
      stranded
        (with_grace (pos 3600))
        (delivery last_second)
        (small last_second)
        overflows
        session in
    (s'.0 ≡ err (http_exception 500 "Webhook processing failed"))
    × (first (has_external_id "stripe" "evt_1") s'.1.committed.webhook_events ≡ some row)
    × (row.status ≡ received)
    × ((provider : Option String) → is_retryable provider row ≡ false)
overflow_strands_example =
    overflow_strands (with_grace (pos 3600)) (delivery last_second) (small last_second) overflows
      session {user = user 1} late-IsEvent nothing_yet.0 nothing_yet.1 refl refl known_user

session-OrderlyIn : OrderlyIn settings session
session-OrderlyIn = (tt, tt)

reached-OrderlyIn_example :
    let s' = (billing_webhook settings (delivery (pos 2000)) session).1 in
    OrderlyIn settings (cleanup_old_webhook_events settings (pos 5) s').1
reached-OrderlyIn_example =
    let s' = (billing_webhook settings (delivery (pos 2000)) session).1 in
    reached-OrderlyIn settings
      (after (after here (delivered (delivery (pos 2000)) session)) (cleaned_up (pos 5) s'))
      session-OrderlyIn

abbrev stored_sub : Subscription
stored_sub = record {
  id = 1;
  user_id = 1;
  provider = "stripe";
  external_subscription_id = some "sub_1";
  provider_customer_id = some "cus_1";
  provider_subscription_id = some "sub_1";
  status = "active";
  plan_code = "unknown_plan";
  current_period_end = some (pos 2000000000);
  cancel_at_period_end = false;
  entitlement_active = true;
  created_at = pos 1000000000;
  updated_at = pos 1000000003;
}

upserted : (upsert_subscription settings clock (small (pos 2000)) 1 session).0 ≡ ok stored_sub
unfolding upsert_subscription save_subscription matching_subscription subscription_or_new
    new_subscription synced is_entitlement_active ends_after violates_subscription_constraints first
    update_first ◌+ℤ◌ ◌*ℤ◌ is_active_status
upserted = refl

upsert-Stores_example :
    Stores settings clock
      (small (pos 2000))
      1
      (upsert_subscription settings clock (small (pos 2000)) 1 session).1
      stored_sub
upsert-Stores_example = upsert-Stores settings clock (small (pos 2000)) 1 session upserted

authentic_or_refused_example :
    IsSigned settings (delivery (pos 2000))
    ⊎ ((e : Error) × (billing_webhook settings (delivery (pos 2000)) session ≡ (err e, session)))
authentic_or_refused_example = authentic_or_refused settings (delivery (pos 2000)) session refl

body_read : Stripe.parse_event (delivery (pos 2000)).body ≡ ok (small (pos 2000))
unfolding Stripe.parse_event read_event price_key plan_or_id normalize_value stripe_status
    get_default get_value first_item is_true lookup text_or_none str_or_empty to_int to_dt
    of_timestamp parse_int strip is_date ◌*ℤ◌
body_read = refl
