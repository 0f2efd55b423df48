-- ===== src/Admin/Users.antt =====
-- The routes that change users, their tokens and their subscriptions
-- (src/casino_bot/admin/api_v1/users.py), with the payload that the guard of the route has let
-- through.
use Prim.Native.String.{String}
use casino_bot.Prelude.{ℕ, ℤ, Bool, true, false, not, Option, first}
use casino_bot.Python.{
  Dict, Result, ok, err, value_error, http_exception, pure, raise, raise_if, ◌>>=◌, ◌>>◌,
}
use casino_bot.Settings.{Settings}
use casino_bot.Database.{
  User, TokenAccount, Subscription, Db, query, commit, rollback, has_user, is_found,
}
use casino_bot.Economy.{create_user, adjust_user_tokens}
use casino_bot.Entitlements.{
  enforce_if_required, activate_internal_test_plan, deactivate_internal_test_plan, LinkRequest,
  link_test_subscription,
}
use casino_bot.Admin.Guards.{has_role, actor_or_unknown}
use casino_bot.Admin.Staff.{commit_or_conflict}

unfoldable pub conflict_detail : String
conflict_detail =
    "Unique constraint violated (telegram_user_id, whatsapp_phone_e164, or billing_customer_id)"

unfoldable pub api_create_user :
    Dict → Option String → Option ℤ → Option String → Option String → Db User
unfolding conflict_detail
api_create_user admin internal_note telegram_user_id whatsapp_phone_e164 billing_customer_id s =
    let (r, s') =
      create_user (actor_or_unknown admin) internal_note telegram_user_id whatsapp_phone_e164
        billing_customer_id s in
    commit_or_conflict conflict_detail r s'

-- The `try` around an adjustment: commit, or status 404 for a `ValueError`.
unfoldable pub commit_or_404 : Result TokenAccount → Db TokenAccount
commit_or_404 (ok account) = commit >> pure account
commit_or_404 (err (value_error message)) = rollback >> raise (http_exception 404 message)
commit_or_404 (err e) = raise e

-- Only a superadmin passes the gate of paid operations unasked.
unfoldable pub unless : Bool → Db (Unit {0}) → Db (Unit {0})
unless true m = pure tt
unless false m = m

unfoldable pub gate : Settings → ℤ → Dict → ℕ → Db (Unit {0})
unfolding unless
gate settings now admin user_id =
    unless (has_role "superadmin" admin)
      (enforce_if_required settings now "user.tokens.adjust" user_id)

unfoldable pub adjust_or_404 : Settings → Dict → ℕ → ℤ → String → Db TokenAccount
adjust_or_404 settings admin user_id delta_units reason s =
    let (r, s') =
      adjust_user_tokens settings user_id delta_units reason (actor_or_unknown admin) false false
        s in
    commit_or_404 r s'

unfoldable pub api_adjust_tokens : Settings → ℤ → Dict → ℕ → ℤ → String → Db TokenAccount
api_adjust_tokens settings now admin user_id delta_units reason =
    gate settings now admin user_id >> adjust_or_404 settings admin user_id delta_units reason

unfoldable pub check_user : ℕ → Db (Unit {0})
check_user user_id = do
  user ← query (λ t. first (has_user user_id) t.users)
  raise_if (not (is_found user)) (http_exception 404 "User not found")

unfoldable pub api_activate_test_subscription :
    ℤ → ℤ → Dict → ℕ → String → (period_days : ℤ) → Db Subscription
unfolding check_user
api_activate_test_subscription now created_at admin user_id plan_code period_days = do
  check_user user_id
  sub ←
      activate_internal_test_plan now created_at user_id plan_code (actor_or_unknown admin)
        period_days
  commit
  pure sub

unfoldable pub api_deactivate_test_subscription : ℤ → Dict → ℕ → Db ℕ
unfolding check_user
api_deactivate_test_subscription now admin user_id = do
  check_user user_id
  affected ← deactivate_internal_test_plan now user_id (actor_or_unknown admin)
  commit
  pure affected

unfoldable pub api_link_subscription_test : ℤ → ℤ → Dict → LinkRequest → Db Subscription
unfolding check_user
api_link_subscription_test now created_at admin req = do
  check_user req.user_id
  sub ← link_test_subscription now created_at (actor_or_unknown admin) req
  commit
  pure sub
