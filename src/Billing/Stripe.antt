-- ===== src/Billing/Stripe.antt =====
-- The adapter of Stripe (src/casino_bot/billing/providers/stripe_adapter.py).
use Prim.Native.String.{String, ◌++◌ as str_append}
use casino_bot.Prelude.{ℕ, true, false, str_eq, Option, none, some, if◌then◌else◌}
use casino_bot.Python.{Result, ok, err, value_error, exception, bind_result, str_ℕ}
use casino_bot.Python.Documents.{
  Value, nothing, numeral, string, boolean, array, object, cons, nil, get_default, get_value,
  first_item, is_true, empty_object,
}
use casino_bot.Billing.Events.{
  NormalizedBillingEvent, CheckoutSessionResult, PortalSessionResult, ProviderSubscription, RawBody,
  text_or_none, str_or_empty, to_int, to_dt,
}

unfoldable pub stripe_status : String → String
stripe_status s =
    if str_eq s "active"
    then "active"
    else if str_eq s "trialing"
    then "trialing"
    else if str_eq s "canceled"
    then "canceled"
    else if str_eq s "past_due"
    then "past_due"
    else if str_eq s "unpaid"
    then "past_due"
    else if str_eq s "incomplete_expired"
    then "canceled"
    else if str_eq s "paused"
    then "paused"
    else "unknown"

-- `_normalize_status` of a value: only what can be hashed is looked up.
unfoldable pub normalize_value : Value → Result String
unfolding stripe_status
normalize_value nothing = ok "unknown"
normalize_value (string s) = ok (stripe_status s)
normalize_value (numeral n) = ok "unknown"
normalize_value (boolean b) = ok "unknown"
normalize_value (array xs) =
    if is_true (array xs)
    then err (exception "TypeError" "unhashable type: 'list'")
    else ok "unknown"
normalize_value (object fs) =
    if is_true (object fs)
    then err (exception "TypeError" "unhashable type: 'dict'")
    else ok "unknown"

-- `data.get("metadata") or {}`.
abbrev pub or_object : Value → Value
or_object v = if is_true v then v else empty_object

abbrev pub one_empty_item : Value
one_empty_item = array (cons empty_object nil)

unfoldable pub price_key : Value → Result Value
price_key resource = bind_result (get_default "items" empty_object resource) λ items.
    bind_result (get_default "data" one_empty_item items) λ list.
      bind_result (first_item list) λ item.
        bind_result (get_default "price" empty_object item) λ price. get_value "lookup_key" price

-- `plan or data.get("plan", {}).get("id")`.
unfoldable pub plan_or_id : Value → Value → Result Value
plan_or_id resource plan =
    if is_true plan
    then ok plan
    else bind_result (get_default "plan" empty_object resource) (get_value "id")

unfoldable pub read_event : Value → Result NormalizedBillingEvent
unfolding price_key plan_or_id
read_event payload = bind_result (get_default "data" empty_object payload) λ outer.
    bind_result (get_default "object" empty_object outer) λ resource.
      bind_result (get_value "metadata" resource) λ meta. bind_result (price_key resource) λ plan.
        bind_result (get_value "current_period_end" resource) λ period_end.
          bind_result (get_value "status" resource) λ status_value.
            bind_result (normalize_value status_value) λ status.
              bind_result (get_value "id" payload) λ event_id.
                bind_result (get_value "type" payload) λ event_type.
                  bind_result (get_value "created" payload) λ created.
                    bind_result (bind_result (get_value "customer" resource) text_or_none)
                      λ customer_id.
                        bind_result (bind_result (get_value "id" resource) text_or_none)
                          λ subscription_id.
                            bind_result (bind_result (plan_or_id resource plan) text_or_none)
                              λ plan_code.
                                bind_result (get_value "cancel_at_period_end" resource) λ cancel.
                                  bind_result (get_value "user_id" (or_object meta)) λ user_id.
                                    ok (record {
                                      provider = "stripe";
                                      external_event_id = str_or_empty event_id;
                                      event_type = str_or_empty event_type;
                                      occurred_at = to_dt created;
                                      customer_id = customer_id;
                                      subscription_id = subscription_id;
                                      status = some status;
                                      plan_code = plan_code;
                                      current_period_end = to_dt period_end;
                                      cancel_at_period_end = is_true cancel;
                                      user_hint = to_int user_id;
                                      raw = payload;
                                    })

unfoldable pub parse_event : RawBody → Result NormalizedBillingEvent
parse_event body = elim body.document [
  | none ↦ err (value_error "body is not JSON")
  | some payload ↦ read_event payload
]

-- `token` is what `secrets.token_hex` returns.
unfoldable pub create_or_get_customer : ℕ → Option String → String → String
create_or_get_customer user_id none token =
    str_append "cus_" (str_append (str_ℕ user_id) (str_append "_" token))
create_or_get_customer user_id (some existing) token =
    if str_eq existing ""
    then str_append "cus_" (str_append (str_ℕ user_id) (str_append "_" token))
    else existing

unfoldable pub create_checkout_session : String → String → ℕ → String → CheckoutSessionResult
create_checkout_session customer_id plan_code user_id token =
    let session_id = str_append "cs_test_" token in
    record {
      provider = "stripe";
      checkout_url = str_append "https://checkout.stripe.test/" (
          str_append session_id
            (str_append "?plan=" (str_append plan_code (str_append "&uid=" (str_ℕ user_id)))));
      session_id = session_id;
      customer_id = customer_id;
    }

unfoldable pub create_portal_session : String → String → PortalSessionResult
create_portal_session customer_id return_url = record {
  provider = "stripe";
  portal_url =
      str_append "https://billing.stripe.test/portal/"
        (str_append customer_id (str_append "?return_url=" return_url));
}

unfoldable pub cancel_subscription : String → ProviderSubscription
cancel_subscription provider_subscription_id = record {
  status = "active";
  cancel_at_period_end = true;
  provider_subscription_id = provider_subscription_id;
}

unfoldable pub resume_subscription : String → ProviderSubscription
resume_subscription provider_subscription_id = record {
  status = "active";
  cancel_at_period_end = false;
  provider_subscription_id = provider_subscription_id;
}
