-- ===== src/Billing/Sync.antt =====
-- What an event of a provider does to users and subscriptions
-- (src/casino_bot/services/billing_service.py): the user it is about, the subscription it names, and
-- the assignments to it.
use Prim.Native.String.{String}
use casino_bot.Prelude.{
  ℕ, ◌+◌, ℤ, pos, pos_part, ◌+ℤ◌, ◌*ℤ◌, ltb_ℤ, leb_ℤ, Bool, false, not, ◌&&◌, ◌||◌, ◌==◌, str_eq,
  Option, none, some, [], ◌∷◌, ◌++◌, first, update_first, if◌then◌else◌,
}
use casino_bot.Python.{
  Result, ok, err, integrity_error, exception, lift, pure, raise_if, ◌>>=◌, ◌>>◌,
}
use casino_bot.Settings.{Settings}
use casino_bot.Database.{User, Subscription, Tables, Db, query, write, is_found}
use casino_bot.Billing.Events.{BillingClock, NormalizedBillingEvent, max_datetime}
use casino_bot.Billing.Signatures.{given}

-- `ENTITLEMENT_ACTIVE_STATUSES`.
unfoldable pub is_active_status : String → Bool
is_active_status status = str_eq status "active" || str_eq status "trialing"

abbrev pub grace : Settings → ℤ
grace settings = pos (pos_part settings.billing.entitlement_grace_seconds) *ℤ pos 1000000

-- `period_end + grace > now`, where the sum is a `datetime`.
unfoldable pub ends_after : Settings → ℤ → ℤ → Result Bool
ends_after settings now period_end =
    if ltb_ℤ max_datetime (period_end +ℤ grace settings)
    then err (exception "OverflowError" "date value out of range")
    else ok (ltb_ℤ now (period_end +ℤ grace settings))

unfoldable pub is_entitlement_active : Settings → ℤ → String → Option ℤ → Result Bool
unfolding is_active_status
is_entitlement_active settings now status none = ok (is_active_status status)
is_entitlement_active settings now status (some period_end) =
    if not (is_active_status status) then ok false else ends_after settings now period_end

abbrev pub is_user_hint : ℤ → User → Bool
is_user_hint hint u = leb_ℤ (pos u.id) hint && leb_ℤ hint (pos u.id)

abbrev pub is_customer : String → User → Bool
is_customer customer_id u = elim u.billing_customer_id [
  | none ↦ false
  | some c ↦ str_eq c customer_id
]

abbrev pub found_by : {A : Type 0} → Option A → (A → Tables → Option User) → Tables → Option User
found_by none f t = none
found_by (some a) f t = f a t

abbrev pub or_else : {A : Type 0} → Option A → Option A → Option A
or_else (some a) o = some a
or_else none o = o

unfoldable pub resolve_user : NormalizedBillingEvent → Tables → Option User
resolve_user event t =
    or_else (found_by event.user_hint (λ hint t. first (is_user_hint hint) t.users) t)
      (found_by (given event.customer_id) (λ c t. first (is_customer c) t.users) t)

abbrev pub same_text : Option String → Option String → Bool
same_text (some a) (some b) = str_eq a b
same_text _ _ = false

abbrev pub is_subscription : String → String → Subscription → Bool
is_subscription provider subscription_id sub =
    str_eq sub.provider provider && same_text sub.provider_subscription_id (some subscription_id)

abbrev pub is_of_customer : ℕ → String → String → Subscription → Bool
is_of_customer user_id provider customer_id sub =
    sub.user_id == user_id
    && (str_eq sub.provider provider && same_text sub.provider_customer_id (some customer_id))

abbrev pub sub_found_by :
    Option String → (String → Subscription → Bool) → Tables → Option Subscription
sub_found_by none f t = none
sub_found_by (some a) f t = first (f a) t.subscriptions

unfoldable pub matching_subscription : NormalizedBillingEvent → ℕ → Tables → Option Subscription
matching_subscription event user_id t =
    or_else (sub_found_by (given event.subscription_id) (is_subscription event.provider) t)
      (sub_found_by (given event.customer_id) (is_of_customer user_id event.provider) t)

abbrev pub text_or : String → Option String → String
text_or d none = d
text_or d (some s) = if str_eq s "" then d else s

unfoldable pub new_subscription : BillingClock → ℕ → ℕ → NormalizedBillingEvent → Subscription
new_subscription clock id user_id event = record {
  id = id;
  user_id = user_id;
  provider = event.provider;
  external_subscription_id = none;
  provider_customer_id = none;
  provider_subscription_id = none;
  status = text_or "unknown" event.status;
  plan_code = text_or "unknown_plan" event.plan_code;
  current_period_end = none;
  cancel_at_period_end = false;
  entitlement_active = false;
  created_at = clock.created_at;
  updated_at = clock.created_at;
}

abbrev pub has_subscription_id : ℕ → Subscription → Bool
has_subscription_id id sub = sub.id == id

abbrev pub put_subscription : Subscription → Tables → Tables
put_subscription sub t = record t {
  subscriptions = update_first (has_subscription_id sub.id) (λ _. sub) t.subscriptions;
}

abbrev pub add_subscription : Subscription → Tables → Tables
add_subscription sub t = record t {
  subscriptions = t.subscriptions ++ sub ∷ [];
  next_subscription_id = t.next_subscription_id + 1;
}

unfoldable pub subscription_or_new :
    BillingClock → ℕ → NormalizedBillingEvent → ℕ → Option Subscription → Db Subscription
unfolding new_subscription
subscription_or_new clock id event user_id (some sub) = pure sub
subscription_or_new clock id event user_id none =
    let sub = new_subscription clock id user_id event in write (add_subscription sub) >> pure sub

-- The assignments from the event.
unfoldable pub synced : NormalizedBillingEvent → ℕ → Subscription → Subscription
synced event user_id sub = record sub {
  user_id = user_id;
  provider = event.provider;
  provider_customer_id = event.customer_id;
  provider_subscription_id = event.subscription_id;
  external_subscription_id = event.subscription_id;
  status = text_or "unknown" event.status;
  plan_code = text_or sub.plan_code event.plan_code;
  current_period_end = event.current_period_end;
  cancel_at_period_end = event.cancel_at_period_end;
}

-- The unique index of the subscriptions.
unfoldable pub violates_subscription_constraints : Subscription → Tables → Bool
violates_subscription_constraints sub t = is_found (
    first
      (λ other.
        not (other.id == sub.id)
        && (str_eq other.provider sub.provider
            && same_text other.provider_subscription_id sub.provider_subscription_id))
      t.subscriptions)

-- The part of the upsert that has the row.
unfoldable pub save_subscription :
    Settings → BillingClock → NormalizedBillingEvent → ℕ → Subscription → Db Subscription
save_subscription settings clock event user_id sub = do
  let current = synced event user_id sub
  write (put_subscription current)
  active ←
      lift
        (is_entitlement_active settings clock.entitled_at current.status current.current_period_end)
  let saved : Subscription = record current {
    entitlement_active = active;
    updated_at = clock.updated_at;
  }
  write (put_subscription saved)
  violated ← query (violates_subscription_constraints saved)
  raise_if violated (integrity_error "subscriptions")
  pure saved

unfoldable pub upsert_subscription :
    Settings → BillingClock → NormalizedBillingEvent → ℕ → Db Subscription
upsert_subscription settings clock event user_id = do
  found ← query (matching_subscription event user_id)
  id ← query (λ t. t.next_subscription_id)
  sub ← subscription_or_new clock id event user_id found
  save_subscription settings clock event user_id sub
