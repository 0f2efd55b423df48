-- ===== src/Entitlements/Gate.antt =====
-- When the gate of paid operations opens (src/casino_bot/services/entitlement.py), after what
-- administrators do to subscriptions (src/casino_bot/services/subscription_admin_service.py).
use Prim.Native.String.{String}
use casino_bot.Prelude.{
  ℕ, ℤ, ◌+ℤ◌, ◌*ℤ◌, ◌≤ℤ◌, ◌<ℤ◌, ◌≡◌, refl, Bool, if◌then◌else◌, true, false, ◌==◌, str_eq, none,
  some, List, [], ◌∷◌, first, update_first, update_all, first-append_one, first-holds, ◌&&◌, arith,
  Option-cases, inl, inr,
}
use casino_bot.Python.{ok, err, http_coded}
use casino_bot.Settings.{Settings}
use casino_bot.Database.{Subscription, Session, is_found, first-is_found, begin_work, audit_log}
use casino_bot.Billing.Sync.{ends_after, grace, has_subscription_id}
use casino_bot.Billing.Events.{max_datetime}
use casino_bot.Entitlements.{
  is_active_for, is_of_user, still_active, user_has_active_subscription, entitlement_required,
  require_active_entitlement, is_paywalled, enforce_if_required, deactivated,
  deactivate_internal_test_plan, activate_internal_test_plan, renewed, renewed_or_new,
  internal_subscription, day,
}

not_active :
    (now : ℤ) (user_id : ℕ) (x : Subscription) (own : Bool)
    → is_of_user user_id x ≡ own
    → is_active_for user_id (if own then deactivated now x else x) ≡ false
unfolding deactivated
not_active now user_id x true h = ground arith
not_active now user_id x false h = ground (arith, h)

-- No row of the user is active any more.
none_active :
    (now : ℤ) (user_id : ℕ) (xs : List Subscription)
    → first (is_active_for user_id) (update_all (is_of_user user_id) (deactivated now) xs) ≡ none
unfolding first update_all
none_active now user_id [] = refl
none_active now user_id (x ∷ xs) =
    ground (arith, not_active now user_id x (is_of_user user_id x) refl, none_active now user_id xs)

-- Once the plans of a user have been deactivated, the paid operation is refused to the user with
-- status 402 at any time, unless the settings enforce it softly; nothing is written.
pub deactivate_closes :
    (settings : Settings) (now later : ℤ) (user_id : ℕ) (actor_email : String) (s : Session)
    → str_eq settings.billing.entitlement_enforcement_mode "soft" ≡ false
    → (let s' = (deactivate_internal_test_plan now user_id actor_email s).1 in
        enforce_if_required settings later "user.tokens.adjust" user_id s' ≡ (
          err (http_coded 402 "ENTITLEMENT_REQUIRED" "Active subscription required"),
          begin_work s' s'.work,
        ))
unfolding deactivate_internal_test_plan audit_log enforce_if_required is_paywalled
    require_active_entitlement entitlement_required user_has_active_subscription still_active
deactivate_closes settings now later user_id actor_email s hard =
    ground (arith, none_active now user_id s.work.subscriptions, hard)

put-only :
    {A : Type 0} (p q : A → Bool) (y : A) (xs : List A)
    → first p xs ≡ none
    → p y ≡ true
    → is_found (first q xs) ≡ true
    → first p (update_first q (λ _. y) xs) ≡ some y
unfolding first update_first
put-only p q y [] h k there = absurd (ground (arith, there))
put-only p q y (x ∷ xs) h k there = ground (arith, h, k, there, put-only p q y xs)

module _ (settings : Settings) (now created_at : ℤ) (user_id : ℕ) (plan_code actor_email : String)
    (period_days : ℤ) where
  abbrev end_at : ℤ
  end_at = now +ℤ period_days *ℤ day

  abbrev same_plan : Subscription → Bool
  same_plan s = s.user_id == user_id && str_eq s.plan_code plan_code

  activated_row :
      (s : Session)
      → first (is_active_for user_id) s.work.subscriptions ≡ none
      → (sub : Subscription) × (sub.current_period_end ≡ some end_at)
        × (first
              (is_active_for user_id)
              (activate_internal_test_plan now created_at user_id plan_code actor_email period_days
                s).1.work.subscriptions
            ≡ some sub)
  unfolding activate_internal_test_plan audit_log renewed_or_new renewed internal_subscription
  activated_row s closed = elim (Option-cases (first same_plan s.work.subscriptions)) [
    | inl e ↦
        let sub =
          internal_subscription created_at end_at s.work.next_subscription_id user_id plan_code in
        (
          sub,
          refl,
          ground
              (arith, e, closed, first-append_one (is_active_for user_id) s.work.subscriptions sub),
        )
    | inr (old, e) ↦
        let sub = renewed now end_at old in
        let there =
          first-is_found same_plan (has_subscription_id old.id) s.work.subscriptions {x = old} e
            (ground arith) in
        let own : is_active_for user_id sub ≡ true =
          ground (arith, first-holds same_plan s.work.subscriptions old e) in
        (
          sub,
          refl,
          ground (
            arith,
            e,
            put-only (is_active_for user_id) (has_subscription_id old.id) sub s.work.subscriptions
                closed own there,
          ),
        )
  ]

  -- Where no subscription of the user is active, the activation of a plan opens the gate until its
  -- period ends, the grace period added, as long as the sum is a date.
  pub activate_opens :
      (later : ℤ) (s : Session)
      → first (is_active_for user_id) s.work.subscriptions ≡ none
      → end_at +ℤ grace settings ≤ℤ max_datetime
      → later <ℤ end_at +ℤ grace settings
      → (let s' =
            (activate_internal_test_plan now created_at user_id plan_code actor_email period_days
              s).1 in
          (user_has_active_subscription settings later user_id s').0 ≡ ok true)
  unfolding user_has_active_subscription still_active ends_after
  activate_opens later s closed date open_still =
      let row = activated_row s closed in ground (arith, row.2, row.1, date, open_still)
