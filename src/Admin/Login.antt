-- ===== src/Admin/Login.antt =====
-- The login of administrators (src/casino_bot/admin/security_service.py). `perform_admin_login` is the
-- code for an identity, `login_by_name` that for the user name it is made of.
pub mod Guarded
use Prim.Native.String.{String}
use casino_bot.Prelude.{
  ℕ, ℤ, Bool, true, false, not, ◌||◌, ◌==◌, str_eq, Option, none, some, List, [], ◌∷◌, first,
  if◌then◌else◌,
}
use casino_bot.Python.{Result, ok, err, http_exception, text, pure, raise, lift, ◌>>=◌, ◌>>◌}
use casino_bot.Python.Text.{strip, lower}
use casino_bot.Settings.{Settings}
use casino_bot.Database.{AdminUser, Tables, Session, Db, query, write, commit, audit_log}
use casino_bot.Admin.Security.{Crypto}
use casino_bot.Admin.Sessions.{AdminWorld, IssuedTokens, create_session_and_tokens, issued_tokens}
use casino_bot.Admin.Lockout.{
  assert_not_locked, record_login_failure, clear_login_failures, actor_name,
}

-- The clock at the check of the lock, at a failure, where the database creates a row, at each
-- assignment of the loop that clears rows, and then for the session.
pub record LoginWorld : Type 0 where
  pub checked_at : ℤ
  pub failed_at : ℤ
  pub created_at : ℤ
  pub cleared_at : ℕ → ℤ
  pub session : AdminWorld

abbrev pub has_email : String → AdminUser → Bool
has_email email u = str_eq u.email email

-- `ip_address or "unknown"`.
unfoldable pub safe_ip : Option String → String
safe_ip none = "unknown"
safe_ip (some ip) = if str_eq ip "" then "unknown" else ip

-- The user whose password the request has, if there is one and it is active.
unfoldable pub authenticated : Crypto → String → Option AdminUser → Option AdminUser
authenticated crypto password none = none
authenticated crypto password (some u) =
    if not u.is_active || not (crypto.verify password u.password_hash) then none else some u

unfoldable pub fail_login : Settings → LoginWorld → String → String → Db IssuedTokens
fail_login settings world identity ip = do
  record_login_failure settings identity ip world.failed_at world.created_at
  audit_log (actor_name identity) "login_failed"
      (some (("email", text identity) ∷ ("ip_address", text ip) ∷ []))
  commit
  raise (http_exception 401 "Invalid credentials")

unfoldable pub pass_login :
    Settings
    → Crypto
    → LoginWorld
    → String
    → Option String
    → Option String
    → AdminUser
    → Db IssuedTokens
unfolding safe_ip
pass_login settings crypto world identity ip_address user_agent user = do
  clear_login_failures world.cleared_at identity
  payload ←
      create_session_and_tokens settings crypto world.session 0 user ip_address user_agent none
  audit_log user.email "login_success" (
      some (
        ("role", text user.role)
        ∷ ("ip_address", text (safe_ip ip_address))
        ∷ ("session_id", text payload.session_id)
        ∷ []))
  commit
  pure payload

unfoldable pub fail_or_pass :
    Settings
    → Crypto
    → LoginWorld
    → String
    → Option String
    → Option String
    → Option AdminUser
    → Db IssuedTokens
unfolding safe_ip
fail_or_pass settings crypto world identity ip_address user_agent none =
    fail_login settings world identity (safe_ip ip_address)
fail_or_pass settings crypto world identity ip_address user_agent (some user) =
    pass_login settings crypto world identity ip_address user_agent user

unfoldable pub perform_admin_login :
    Settings
    → Crypto
    → LoginWorld
    → String
    → String
    → Option String
    → Option String
    → Db IssuedTokens
perform_admin_login settings crypto world identity password ip_address user_agent = do
  assert_not_locked identity (some (safe_ip ip_address)) world.checked_at
  found ← query (λ t. first (has_email identity) t.admin_users)
  fail_or_pass settings crypto world identity ip_address user_agent
      (authenticated crypto password found)

unfoldable pub normalize_identity : String → String
normalize_identity raw = lower (strip raw)

unfoldable pub login_by_name :
    Settings
    → Crypto
    → LoginWorld
    → String
    → String
    → Option String
    → Option String
    → Db IssuedTokens
unfolding normalize_identity
login_by_name settings crypto world username password ip_address user_agent =
    perform_admin_login settings crypto world (normalize_identity username) password ip_address
      user_agent
