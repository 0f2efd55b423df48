-- ===== src/Billing/Readings.antt =====
-- What the adapter of Stripe reads (src/casino_bot/billing/providers/stripe_adapter.py).
use casino_bot.Prelude.{◌≡◌, false, Option-cases, inl, inr, arith}
use casino_bot.Python.{ok}
use casino_bot.Python.Documents.{Value}
use casino_bot.Billing.Events.{NormalizedBillingEvent, RawBody}
use casino_bot.Billing.Stripe
use casino_bot.Billing.Stripe.{read_event, price_key, plan_or_id, normalize_value}
use casino_bot.Billing.Webhooks.{is_unsupported}

read-supported :
    (payload : Value) (e : NormalizedBillingEvent)
    → read_event payload ≡ ok e
    → is_unsupported e ≡ false
unfolding read_event is_unsupported
read-supported payload e h = ground arith

-- Every event that the adapter of Stripe reads counts as supported, whatever its type is: its status
-- is never missing.
pub stripe_supported :
    (body : RawBody) (event : NormalizedBillingEvent)
    → Stripe.parse_event body ≡ ok event
    → is_unsupported event ≡ false
unfolding Stripe.parse_event
stripe_supported body event h = elim (Option-cases body.document) [
  | inl e ↦ absurd (ground (arith, e, h))
  | inr (payload, e) ↦ read-supported payload event (ground (arith, e, h))
]
