-- ===== src/Billing/Providers.antt =====
-- The adapters behind their common interface (`BillingProviderAdapter` of
-- src/casino_bot/billing/providers/base.py), and the dictionary of them.
use Prim.Native.String.{String}
use casino_bot.Prelude.{ℕ, ℤ, str_eq, Option, none, some, if◌then◌else◌}
use casino_bot.Python.{Result, ok, err, key_error, bind_result}
use casino_bot.Settings.{Settings}
use casino_bot.Billing.Events.{
  NormalizedBillingEvent, CheckoutSessionResult, PortalSessionResult, ProviderSubscription, RawBody,
}
use casino_bot.Billing.Signatures.{Headers, verify_stripe_signature, verify_paddle_signature}
use casino_bot.Billing.Stripe
use casino_bot.Billing.Paddle
use casino_bot.Billing.Paddle.{not_implemented}

pub record Adapter : Type 0 where
  pub verify_signature :
      Settings
      → (hmac : String → String → String) → (now : ℤ) → Headers
      → String
      → Result (Unit {0})
  pub parse_event : RawBody → Result NormalizedBillingEvent
  pub create_or_get_customer : ℕ → Option String → (token : String) → String
  pub create_checkout_session :
      String → String → ℕ → (token : String) → Result CheckoutSessionResult
  pub create_portal_session : String → String → Result PortalSessionResult
  pub cancel_subscription : String → Result ProviderSubscription
  pub resume_subscription : String → Result ProviderSubscription
  pub normalize_status : String → String

unfoldable pub stripe_adapter : Adapter
stripe_adapter = record {
  verify_signature = verify_stripe_signature;
  parse_event = Stripe.parse_event;
  create_or_get_customer = Stripe.create_or_get_customer;
  create_checkout_session = λ customer_id plan_code user_id token.
      ok (Stripe.create_checkout_session customer_id plan_code user_id token);
  create_portal_session =
      λ customer_id return_url. ok (Stripe.create_portal_session customer_id return_url);
  cancel_subscription = λ id. ok (Stripe.cancel_subscription id);
  resume_subscription = λ id. ok (Stripe.resume_subscription id);
  normalize_status = Stripe.stripe_status;
}

unfoldable pub paddle_adapter : Adapter
paddle_adapter = record {
  verify_signature =
      λ settings hmac now headers bytes. verify_paddle_signature settings hmac headers bytes;
  parse_event = Paddle.parse_event;
  create_or_get_customer = Paddle.create_or_get_customer;
  create_checkout_session = λ customer_id plan_code user_id token.
      err (not_implemented "Paddle checkout session not implemented yet");
  create_portal_session =
      λ customer_id return_url. err (not_implemented "Paddle portal session not implemented yet");
  cancel_subscription =
      λ id. err (not_implemented "Paddle cancel subscription not implemented yet");
  resume_subscription =
      λ id. err (not_implemented "Paddle resume subscription not implemented yet");
  normalize_status = λ status. if str_eq status "" then "unknown" else status;
}

-- `PROVIDER_ADAPTERS.get(provider)`.
unfoldable pub provider_adapter : String → Option Adapter
provider_adapter provider =
    if str_eq provider "stripe"
    then some stripe_adapter
    else if str_eq provider "paddle"
    then some paddle_adapter
    else none

unfoldable pub adapter_or_key_error : String → Option Adapter → Result Adapter
adapter_or_key_error provider none = err (key_error provider)
adapter_or_key_error provider (some adapter) = ok adapter

unfoldable pub get_primary_provider_adapter : Settings → Result Adapter
unfolding adapter_or_key_error provider_adapter
get_primary_provider_adapter settings =
    adapter_or_key_error settings.billing.provider_primary
      (provider_adapter settings.billing.provider_primary)

unfoldable pub parse_and_verify_webhook :
    Adapter
    → Settings
    → (String → String → String)
    → ℤ
    → Headers
    → RawBody
    → Result NormalizedBillingEvent
parse_and_verify_webhook adapter settings hmac now headers body =
    bind_result (adapter.verify_signature settings hmac now headers body.bytes)
      λ _. adapter.parse_event body
