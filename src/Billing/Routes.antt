-- ===== src/Billing/Routes.antt =====
-- The routes of billing (src/casino_bot/billing/api_v1.py and src/casino_bot/billing/deps.py).
use Prim.Native.String.{String}
use casino_bot.Prelude.{ℤ, not, str_eq, Option, none, some, if◌then◌else◌, Bool}
use casino_bot.Python.{Result, ok, err, http_exception, lift, pure, ◌>>=◌}
use casino_bot.Python.Text.{parse_int}
use casino_bot.Settings.{Settings}
use casino_bot.Database.{BillingWebhookEvent, EventStatus, Db}
use casino_bot.Billing.Events.{BillingClock, NormalizedBillingEvent, RawBody}
use casino_bot.Billing.Signatures.{Headers, given}
use casino_bot.Billing.Providers.{Adapter, provider_adapter, parse_and_verify_webhook}
use casino_bot.Billing.Webhooks.{create_webhook_event, safe_process_webhook}

-- The answer of the webhook: `ignored` for an unknown provider, `idempotent`, or the status of the
-- event.
pub data WebhookReply : Type 0 where
  unknown_provider idempotent : WebhookReply
  handled : EventStatus → WebhookReply

-- A delivery: what the request has, the digests, and the clock.
pub record Delivery : Type 0 where
  pub provider : String
  pub headers : Headers
  pub body : RawBody
  pub hmac : String → String → String
  pub sha256 : String → String
  pub now : ℤ
  pub clock : BillingClock

unfoldable pub reply_to :
    Settings → Delivery → NormalizedBillingEvent → Option BillingWebhookEvent → Db WebhookReply
reply_to settings delivery event none = pure idempotent
reply_to settings delivery event (some row) = do
  status ← safe_process_webhook settings delivery.clock row event
  pure (handled status)

unfoldable pub take_delivery : Settings → Delivery → Option Adapter → Db WebhookReply
take_delivery settings delivery none = pure unknown_provider
take_delivery settings delivery (some adapter) = do
  event ← lift (
      parse_and_verify_webhook adapter settings delivery.hmac delivery.now delivery.headers
        delivery.body)
  row ← create_webhook_event delivery.sha256 delivery.clock event delivery.body
  reply_to settings delivery event row

unfoldable pub billing_webhook : Settings → Delivery → Db WebhookReply
billing_webhook settings delivery =
    take_delivery settings delivery (provider_adapter delivery.provider)

unfoldable pub header_user : Option ℤ → Result ℤ
header_user none = err (http_exception 401 "Invalid user identity")
header_user (some n) = ok n

unfoldable pub identified : Option String → Result ℤ
unfolding header_user
identified none = err (http_exception 401 "Missing user identity")
identified (some x_user_id) = header_user (parse_int x_user_id)

unfoldable pub is_same_token : Option String → String → Bool
is_same_token none token = Bool.false
is_same_token (some t) token = str_eq t token

unfoldable pub get_current_user_id : Settings → Option String → Option String → Result ℤ
unfolding identified is_same_token
get_current_user_id settings x_user_id x_internal_token =
    if not (is_same_token x_internal_token settings.billing.user_api_internal_token)
    then err (http_exception 401 "Invalid user token")
    else identified (given x_user_id)
