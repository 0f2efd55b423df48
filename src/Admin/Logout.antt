-- ===== src/Admin/Logout.antt =====
-- The routes that end sessions (src/casino_bot/admin/api_v1/login.py).
use Prim.Native.String.{String}
use casino_bot.Prelude.{ℕ, Bool, true, false, Option, none, some, first, if◌then◌else◌}
use casino_bot.Python.{Dict, Result, ok, err, http_exception, lift, ◌>>=◌}
use casino_bot.Database.{AdminUser, Db, query}
use casino_bot.Admin.Security.{Crypto}
use casino_bot.Admin.Sessions.{AdminWorld, revoke_refresh_session, revoke_all_sessions}
use casino_bot.Admin.Login.{has_email}
use casino_bot.Admin.Guards.{has_role, actor_or_unknown}

unfoldable pub found_or_404 : Bool → Result (Unit {0})
found_or_404 true = ok tt
found_or_404 false = err (http_exception 404 "Session not found")

unfoldable pub admin_logout_v1 : Crypto → AdminWorld → Option String → Option String → Db (Unit {0})
unfolding found_or_404
admin_logout_v1 crypto world refresh_token session_id =
    revoke_refresh_session crypto world refresh_token session_id >>= λ done.
    lift (found_or_404 done)

unfoldable pub actor_or_401 : Option AdminUser → Result AdminUser
actor_or_401 none = err (http_exception 401 "Invalid token")
actor_or_401 (some u) = ok u

-- Only a superadmin names another administrator.
unfoldable pub target_of : Dict → AdminUser → Option ℕ → Result ℕ
target_of admin actor none = ok actor.id
target_of admin actor (some id) =
    if has_role "superadmin" admin
    then ok id
    else err (http_exception 403 "Superadmin role required")

unfoldable pub admin_logout_all_v1 : AdminWorld → Dict → Option ℕ → Db ℕ
unfolding actor_or_401 target_of
admin_logout_all_v1 world admin admin_user_id = do
  found ← query (λ t. first (has_email (actor_or_unknown admin)) t.admin_users)
  actor ← lift (actor_or_401 found)
  target ← lift (target_of admin actor admin_user_id)
  revoke_all_sessions world target (actor_or_unknown admin)
