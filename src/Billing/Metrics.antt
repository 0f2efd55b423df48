-- ===== src/Billing/Metrics.antt =====
-- The numbers of subscriptions and failures (`build_metrics` of
-- src/casino_bot/services/billing_service.py).
use Prim.Native.String.{String}
use casino_bot.Prelude.{
  ℕ, ◌+◌, ℤ, leb_ℤ, Bool, true, false, ◌&&◌, str_eq, Option, none, some, List, [], ◌∷◌, length,
  select, if◌then◌else◌,
}
use casino_bot.Database.{Subscription, BillingWebhookEvent, failed_event, Db, query}

pub record BillingMetrics : Type 0 where
  pub active_subscriptions : ℕ
  pub new_subscriptions : ℕ
  pub canceled_subscriptions : ℕ
  pub trialing_count : ℕ
  pub past_due_count : ℕ
  pub webhook_failed_count : ℕ
  pub mrr_estimate : Option ℕ
  pub mrr_reason : Option String

unfoldable pub in_period : Option ℤ → Option ℤ → ℤ → Bool
in_period none none t = true
in_period (some a) none t = leb_ℤ a t
in_period none (some b) t = leb_ℤ t b
in_period (some a) (some b) t = leb_ℤ a t && leb_ℤ t b

unfoldable pub count_status : String → List Subscription → ℕ
count_status status subs = length (select (λ s. str_eq s.status status) subs)

-- `prices.get(plan_code)`.
unfoldable pub price_of : String → Option ℕ
price_of plan_code =
    if str_eq plan_code "pro_monthly"
    then some 29
    else if str_eq plan_code "test_plan"
    then some 0
    else none

abbrev plus : Option ℕ → Option ℕ → Option ℕ
plus (some a) (some b) = some (a + b)
plus _ _ = none

-- The sum of the prices of the entitled subscriptions, where each has one.
unfoldable pub revenue : List Subscription → Option ℕ
unfolding price_of
revenue [] = some 0
revenue (s ∷ subs) =
    let rest = revenue subs in
    if s.entitlement_active then plus (price_of s.plan_code) rest else rest

unfoldable pub revenue_reason : Option ℕ → Option String
revenue_reason none = some "Unknown plan mapping"
revenue_reason (some _) = none

unfoldable pub is_failure : Option ℤ → Option ℤ → BillingWebhookEvent → Bool
is_failure from_ts to_ts row = elim row.status [
  | failed_event ↦ in_period from_ts to_ts row.received_at
  | _ ↦ false
]

unfoldable pub new_count : Option ℤ → List Subscription → ℕ
new_count none subs = length subs
new_count (some from_ts) subs = length (select (λ s. leb_ℤ from_ts s.created_at) subs)

unfoldable pub build_metrics : Option ℤ → Option ℤ → Db BillingMetrics
unfolding in_period count_status is_failure new_count revenue_reason
build_metrics from_ts to_ts = query λ t.
    let subs = select (λ s. in_period from_ts to_ts s.updated_at) t.subscriptions in
    record {
      active_subscriptions = length (select (λ s. s.entitlement_active) subs);
      new_subscriptions = new_count from_ts subs;
      canceled_subscriptions = count_status "canceled" subs;
      trialing_count = count_status "trialing" subs;
      past_due_count = count_status "past_due" subs;
      webhook_failed_count = length (select (is_failure from_ts to_ts) t.webhook_events);
      mrr_estimate = revenue subs;
      mrr_reason = revenue_reason (revenue subs);
    }
