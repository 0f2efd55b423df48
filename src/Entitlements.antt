-- ===== src/Entitlements.antt =====
-- The gate of features that need a subscription (src/casino_bot/services/entitlement.py,
-- src/casino_bot/services/entitlement_policy.py), and the changes that administrators make to
-- subscriptions (src/casino_bot/services/subscription_admin_service.py).
pub mod Gate
use Prim.Native.String.{String}
use casino_bot.Prelude.{
  ℕ, suc, ◌+◌, ℤ, pos, ◌+ℤ◌, ◌*ℤ◌, Bool, true, false, ◌&&◌, ◌||◌, ◌==◌, str_eq, Option, none, some,
  List, [], ◌∷◌, ◌++◌, first, select, length, update_all, if◌then◌else◌,
}
use casino_bot.Python.{
  Result, ok, err, http_coded, integrity_error, Json, number, text, lift, pure, raise_if, ◌>>=◌,
  ◌>>◌,
}
use casino_bot.Settings.{Settings}
use casino_bot.Database.{Subscription, Tables, Session, Db, query, write, audit_log}
use casino_bot.Billing.Operations.{reversed}
use casino_bot.Billing.Sync.{
  ends_after, is_active_status, put_subscription, add_subscription,
  violates_subscription_constraints,
}

abbrev pub is_active_for : ℕ → Subscription → Bool
is_active_for user_id sub = sub.user_id == user_id && str_eq sub.status "active"

unfoldable pub still_active : Settings → ℤ → Option Subscription → Result Bool
still_active settings now none = ok false
still_active settings now (some sub) = elim sub.current_period_end [
  | none ↦ ok true
  | some period_end ↦ ends_after settings now period_end
]

-- At the time `now`.
unfoldable pub user_has_active_subscription : Settings → ℤ → ℕ → Db Bool
unfolding still_active
user_has_active_subscription settings now user_id = do
  sub ← query (λ t. first (is_active_for user_id) t.subscriptions)
  lift (still_active settings now sub)

unfoldable pub entitlement_required : Settings → Bool → Result (Unit {0})
entitlement_required settings active =
    if active
    then ok tt
    else if str_eq settings.billing.entitlement_enforcement_mode "soft"
    then ok tt
    else err (http_coded 402 "ENTITLEMENT_REQUIRED" "Active subscription required")

unfoldable pub require_active_entitlement : Settings → ℤ → ℕ → Db (Unit {0})
require_active_entitlement settings now user_id = do
  active ← user_has_active_subscription settings now user_id
  lift (entitlement_required settings active)

-- `PAYWALL_POLICY.get(operation, False)`.
unfoldable pub is_paywalled : String → Bool
is_paywalled operation = str_eq operation "user.tokens.adjust"

unfoldable pub enforce_if_required : Settings → ℤ → String → ℕ → Db (Unit {0})
unfolding is_paywalled
enforce_if_required settings now operation user_id s =
    let required = require_active_entitlement settings now user_id s in
    if is_paywalled operation then required else (ok tt, s)

abbrev pub is_of_user : ℕ → Subscription → Bool
is_of_user user_id sub = sub.user_id == user_id

unfoldable pub get_subscriptions_for_user : ℕ → Db (List Subscription)
get_subscriptions_for_user user_id =
    query (λ t. reversed (select (is_of_user user_id) t.subscriptions))

abbrev pub day : ℤ
day = pos 86400000000

unfoldable pub internal_subscription : ℤ → ℤ → ℕ → ℕ → String → Subscription
internal_subscription created_at end_at id user_id plan_code = record {
  id = id;
  user_id = user_id;
  provider = "internal";
  external_subscription_id = none;
  provider_customer_id = none;
  provider_subscription_id = none;
  status = "active";
  plan_code = plan_code;
  current_period_end = some end_at;
  cancel_at_period_end = false;
  entitlement_active = true;
  created_at = created_at;
  updated_at = created_at;
}

-- The assignments to a row that is there.
unfoldable pub renewed : ℤ → ℤ → Subscription → Subscription
renewed now end_at sub = record sub {
  provider = "internal";
  status = "active";
  current_period_end = some end_at;
  external_subscription_id = none;
  provider_customer_id = none;
  provider_subscription_id = none;
  cancel_at_period_end = false;
  entitlement_active = true;
  updated_at = now;
}

unfoldable pub renewed_or_new : ℤ → ℤ → ℤ → ℕ → ℕ → String → Option Subscription → Db Subscription
unfolding renewed internal_subscription
renewed_or_new now created_at end_at id user_id plan_code (some sub) =
    write (put_subscription (renewed now end_at sub)) >> pure (renewed now end_at sub)
renewed_or_new now created_at end_at id user_id plan_code none =
    let sub = internal_subscription created_at end_at id user_id plan_code in
    write (add_subscription sub) >> pure sub

-- `created_at` is the clock of the database.
unfoldable pub activate_internal_test_plan :
    ℤ → ℤ → ℕ → String → String → (period_days : ℤ) → Db Subscription
unfolding renewed_or_new
activate_internal_test_plan now created_at user_id plan_code actor_email period_days = do
  let end_at = now +ℤ period_days *ℤ day
  existing ←
      query (λ t. first (λ s. s.user_id == user_id && str_eq s.plan_code plan_code) t.subscriptions)
  id ← query (λ t. t.next_subscription_id)
  sub ← renewed_or_new now created_at end_at id user_id plan_code existing
  audit_log actor_email "subscription_internal_activate" (
      some (
        ("user_id", number (pos user_id))
        ∷ ("plan_code", text plan_code)
        ∷ ("subscription_id", number (pos sub.id))
        ∷ ("period_days", number period_days)
        ∷ []))
  pure sub

unfoldable pub deactivated : ℤ → Subscription → Subscription
deactivated now sub = record sub {
  status = "canceled";
  cancel_at_period_end = true;
  entitlement_active = false;
  current_period_end = some now;
  updated_at = now;
}

unfoldable pub deactivate_internal_test_plan : ℤ → ℕ → String → Db ℕ
unfolding deactivated
deactivate_internal_test_plan now user_id actor_email = do
  rows ← query (λ t. select (is_of_user user_id) t.subscriptions)
  write λ t. record t {
    subscriptions = update_all (is_of_user user_id) (deactivated now) t.subscriptions;
  }
  audit_log actor_email "subscription_internal_deactivate" (
      some (
        ("user_id", number (pos user_id))
        ∷ ("affected_subscriptions", number (pos (length rows)))
        ∷ []))
  pure (length rows)

-- The arguments of a link.
pub record LinkRequest : Type 0 where
  pub user_id : ℕ
  pub provider : String
  pub provider_customer_id : Option String
  pub provider_subscription_id : Option String
  pub plan_code : String
  pub status : String

unfoldable pub linked : ℤ → LinkRequest → Subscription → Subscription
linked now req sub = record sub {
  provider_customer_id = req.provider_customer_id;
  provider_subscription_id = req.provider_subscription_id;
  external_subscription_id = req.provider_subscription_id;
  status = req.status;
  plan_code = req.plan_code;
  cancel_at_period_end = false;
  entitlement_active = is_active_status req.status;
  updated_at = now;
}

unfoldable pub linked_or_new : ℤ → ℤ → ℕ → LinkRequest → Option Subscription → Db Subscription
unfolding linked internal_subscription
linked_or_new now created_at id req (some sub) =
    write (put_subscription (linked now req sub)) >> pure (linked now req sub)
linked_or_new now created_at id req none =
    let blank : Subscription =
      record (internal_subscription created_at created_at id req.user_id req.plan_code) {
        provider = req.provider;
        current_period_end = none;
      } in
    write (add_subscription (linked now req blank)) >> pure (linked now req blank)

unfoldable pub link_test_subscription : ℤ → ℤ → String → LinkRequest → Db Subscription
unfolding linked_or_new
link_test_subscription now created_at actor_email req = do
  found ←
      query (λ t.
        first (λ s. s.user_id == req.user_id && str_eq s.provider req.provider) t.subscriptions)
  id ← query (λ t. t.next_subscription_id)
  row ← linked_or_new now created_at id req found
  violated ← query (violates_subscription_constraints row)
  raise_if violated (integrity_error "subscriptions")
  audit_log actor_email "subscription_link_test" (
      some (
        ("user_id", number (pos req.user_id))
        ∷ ("provider", text req.provider)
        ∷ ("subscription_id", number (pos row.id))
        ∷ []))
  pure row
