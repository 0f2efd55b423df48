-- ===== src/Billing/Requests.antt =====
-- What a user asks of billing (src/casino_bot/services/billing_service.py): checkout, cancellation,
-- resumption and the portal. `host_of` is the host that `urlparse` finds in a URL, in small letters,
-- or the empty text; `token` is what the adapter draws.
use Prim.Native.String.{String, ◌++◌ as str_append}
use casino_bot.Prelude.{
  ℕ, pos, ltb_ℤ, Bool, false, not, ◌||◌, ◌==◌, str_eq, Option, none, some, List, [], ◌∷◌, first,
  update_first, if◌then◌else◌,
}
use casino_bot.Python.{
  Result, ok, err, exception, http_exception, http_coded, number, text, json_of, lift, pure,
  raise_if, ◌>>=◌, ◌>>◌, str_ℕ,
}
use casino_bot.Python.Text.{lower}
use casino_bot.Settings.{Settings}
use casino_bot.Database.{User, Subscription, Tables, Db, query, write, commit, has_user, audit_log}
use casino_bot.Billing.Events.{
  BillingClock, CheckoutSessionResult, PortalSessionResult, ProviderSubscription,
}
use casino_bot.Billing.Providers.{Adapter, get_primary_provider_adapter}
use casino_bot.Billing.Signatures.{given}
use casino_bot.Billing.Sync.{is_entitlement_active, put_subscription}
use casino_bot.Billing.Masking.{mask_token_like}

unfoldable pub is_member : String → List String → Bool
is_member s [] = false
is_member s (x ∷ xs) = str_eq x s || is_member s xs

-- Membership in the set of the hosts in small letters.
unfoldable pub is_allowed_host : String → List String → Bool
is_allowed_host host [] = false
is_allowed_host host (h ∷ hosts) = str_eq (lower h) host || is_allowed_host host hosts

unfoldable pub validate_return_url : Settings → (String → String) → String → Result (Unit {0})
unfolding is_allowed_host
validate_return_url settings host_of url =
    let host = host_of url in
    if str_eq host "" || not (is_allowed_host host settings.billing.allowed_return_hosts)
    then err (http_coded 400 "INVALID_RETURN_URL" "Return URL host is not allowed")
    else ok tt

unfoldable pub validate_plan : Settings → String → Result (Unit {0})
unfolding is_member
validate_plan settings plan_code =
    if not (is_member plan_code settings.billing.allowed_plans)
    then err (http_coded 400 "INVALID_PLAN_CODE" "Unknown or unsupported plan")
    else ok tt

unfoldable pub user_or_404 : String → Option User → Result User
user_or_404 detail none = err (http_exception 404 detail)
user_or_404 detail (some u) = ok u

abbrev pub put_user : User → Tables → Tables
put_user u t = record t { users = update_first (has_user u.id) (λ _. u) t.users }

abbrev pub user_actor : ℕ → String
user_actor user_id = str_append "user:" (str_ℕ user_id)

unfoldable pub create_checkout_session :
    Settings
    → (String → String)
    → (token : String) → ℕ
    → String
    → String
    → String
    → Db CheckoutSessionResult
unfolding validate_return_url validate_plan user_or_404 mask_token_like
create_checkout_session settings host_of token user_id plan_code success_url cancel_url = do
  raise_if (not settings.billing.enable_checkout)
      (http_coded 503 "CHECKOUT_DISABLED" "Checkout is disabled")
  lift (validate_plan settings plan_code)
  lift (validate_return_url settings host_of success_url)
  lift (validate_return_url settings host_of cancel_url)
  found ← query (λ t. first (has_user user_id) t.users)
  user ← lift (user_or_404 "User not found" found)
  adapter ← lift (get_primary_provider_adapter settings)
  let customer_id = adapter.create_or_get_customer user_id user.billing_customer_id token
  write (put_user (record user { billing_customer_id = some customer_id }))
  result ← lift (adapter.create_checkout_session customer_id plan_code user_id token)
  audit_log (user_actor user_id) "checkout_session_created" (
      some (
        ("provider", text result.provider)
        ∷ ("plan_code", text plan_code)
        ∷ ("customer_id", json_of text (mask_token_like customer_id))
        ∷ []))
  commit
  pure result

-- The row that was updated last, the first such in the order of the table.
abbrev newer_of : Subscription → Option Subscription → Option Subscription
newer_of sub none = some sub
newer_of sub (some other) = if ltb_ℤ sub.updated_at other.updated_at then some other else some sub

unfoldable pub latest_of : ℕ → List Subscription → Option Subscription
latest_of user_id [] = none
latest_of user_id (sub ∷ subs) =
    let rest = latest_of user_id subs in if sub.user_id == user_id then newer_of sub rest else rest

unfoldable pub get_user_subscription : ℕ → Db (Option Subscription)
unfolding latest_of
get_user_subscription user_id = query (λ t. latest_of user_id t.subscriptions)

-- The subscription with its identifier at the provider.
unfoldable pub subscription_or_404 : Option Subscription → Result (Subscription × String)
subscription_or_404 none = err (http_exception 404 "Subscription not found")
subscription_or_404 (some sub) = elim (given sub.provider_subscription_id) [
  | none ↦ err (http_exception 404 "Subscription not found")
  | some id ↦ ok (sub, id)
]

-- The translation of `NotImplementedForProvider`.
unfoldable pub or_501 : {A : Type 0} → Result A → Result A
or_501 (err (exception name message)) =
    if str_eq name "NotImplementedForProvider"
    then err (http_coded 501 "PROVIDER_NOT_IMPLEMENTED" message)
    else err (exception name message)
or_501 r = r

abbrev pub now_cancelling : Bool → String → Subscription → Subscription
now_cancelling cancel_at_period_end status sub = record sub {
  cancel_at_period_end = cancel_at_period_end;
  status = status;
}

-- What cancellation and resumption share: `call` is the method of the adapter.
unfoldable pub request_change :
    Settings
    → BillingClock
    → (Adapter → String → Result ProviderSubscription)
    → String
    → ℕ
    → Db Bool
unfolding subscription_or_404
request_change settings clock call action user_id = do
  latest ← get_user_subscription user_id
  found ← lift (subscription_or_404 latest)
  adapter ← lift (get_primary_provider_adapter settings)
  result ← lift (or_501 (call adapter found.1))
  let changed =
      now_cancelling result.cancel_at_period_end (adapter.normalize_status result.status) found.0
  write (put_subscription changed)
  active ←
      lift
        (is_entitlement_active settings clock.entitled_at changed.status changed.current_period_end)
  write (
      put_subscription
        (record changed { entitlement_active = active; updated_at = clock.updated_at }))
  audit_log (user_actor user_id) action (some (("subscription_id", number (pos changed.id)) ∷ []))
  commit
  pure changed.cancel_at_period_end

unfoldable pub request_cancel_subscription : Settings → BillingClock → ℕ → Db Bool
request_cancel_subscription settings clock user_id =
    request_change settings clock (λ adapter. adapter.cancel_subscription)
      "subscription_cancel_requested" user_id

unfoldable pub request_resume_subscription : Settings → BillingClock → ℕ → Db Bool
request_resume_subscription settings clock user_id =
    request_change settings clock (λ adapter. adapter.resume_subscription)
      "subscription_resume_requested" user_id

unfoldable pub customer_or_404 : Option User → Result String
customer_or_404 none = err (http_exception 404 "Billing customer not found")
customer_or_404 (some u) = elim (given u.billing_customer_id) [
  | none ↦ err (http_exception 404 "Billing customer not found")
  | some c ↦ ok c
]

unfoldable pub create_portal_link :
    Settings → (String → String) → ℕ → String → Db PortalSessionResult
unfolding validate_return_url customer_or_404
create_portal_link settings host_of user_id return_url = do
  raise_if (not settings.billing.enable_portal)
      (http_coded 503 "PORTAL_DISABLED" "Customer portal is disabled")
  lift (validate_return_url settings host_of return_url)
  found ← query (λ t. first (has_user user_id) t.users)
  customer_id ← lift (customer_or_404 found)
  adapter ← lift (get_primary_provider_adapter settings)
  result ← lift (or_501 (adapter.create_portal_session customer_id return_url))
  audit_log (user_actor user_id) "portal_link_created"
      (some (("provider", text result.provider) ∷ []))
  commit
  pure result
