-- ===== src/Billing/Paddle.antt =====
-- The adapter of Paddle (src/casino_bot/billing/providers/paddle_adapter.py), which reads events and
-- implements none of the other calls.
use Prim.Native.String.{String, ◌++◌ as str_append}
use casino_bot.Prelude.{ℕ, str_eq, Option, none, some, if◌then◌else◌}
use casino_bot.Python.{Result, ok, err, value_error, exception, bind_result, str_ℕ, Error}
use casino_bot.Python.Documents.{Value, get_value, is_true}
use casino_bot.Billing.Events.{NormalizedBillingEvent, RawBody, text_or_none, str_or_empty}

-- `a or b`.
abbrev pub or_value : Value → Value → Value
or_value a b = if is_true a then a else b

unfoldable pub read_event : Value → Result NormalizedBillingEvent
read_event payload = bind_result (get_value "event_id" payload) λ event_id.
    bind_result (get_value "id" payload) λ id.
      bind_result (get_value "event_type" payload) λ event_type.
        bind_result (get_value "type" payload) λ type.
          bind_result (bind_result (get_value "customer_id" payload) text_or_none) λ customer_id.
            bind_result (bind_result (get_value "subscription_id" payload) text_or_none)
              λ subscription_id.
                bind_result (bind_result (get_value "status" payload) text_or_none) λ status.
                  bind_result (bind_result (get_value "plan_code" payload) text_or_none)
                    λ plan_code. bind_result (get_value "cancel_at_period_end" payload) λ cancel.
                      ok (record {
                        provider = "paddle";
                        external_event_id = str_or_empty (or_value event_id id);
                        event_type = str_or_empty (or_value event_type type);
                        occurred_at = none;
                        customer_id = customer_id;
                        subscription_id = subscription_id;
                        status = status;
                        plan_code = plan_code;
                        current_period_end = none;
                        cancel_at_period_end = is_true cancel;
                        user_hint = none;
                        raw = payload;
                      })

unfoldable pub parse_event : RawBody → Result NormalizedBillingEvent
parse_event body = elim body.document [
  | none ↦ err (value_error "body is not JSON")
  | some payload ↦ read_event payload
]

unfoldable pub create_or_get_customer : ℕ → Option String → String → String
create_or_get_customer user_id none token =
    str_append "paddle_cus_" (str_append (str_ℕ user_id) (str_append "_" token))
create_or_get_customer user_id (some existing) token =
    if str_eq existing ""
    then str_append "paddle_cus_" (str_append (str_ℕ user_id) (str_append "_" token))
    else existing

-- `NotImplementedForProvider`.
abbrev pub not_implemented : String → Error
not_implemented message = exception "NotImplementedForProvider" message
