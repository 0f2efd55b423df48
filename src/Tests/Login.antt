-- ===== src/Tests/Login.antt =====
-- Logins of administrators at concrete inputs.
use casino_bot.Prelude.{pos, ◌≡◌, refl, true, some, none, [], ◌∷◌, first, ◌+ℤ◌, ◌*ℤ◌, arith}
use casino_bot.Python.{ok, err, http_exception, text}
use casino_bot.Database.{AdminUser, AdminLoginLock, Session, is_found, audit_log}
use casino_bot.Admin.Sessions.{
  issued_tokens, create_session_and_tokens, insert_session, violates_session_constraints,
}
use casino_bot.Admin.Lockout.{
  active_lock, fresh_lock, record_login_failure, assert_not_locked, blocked_or_pass,
  clear_login_failures,
}
use casino_bot.Admin.Lockout.Attempts.{failures, enough_failures_lock}
use casino_bot.Admin.Login.{
  LoginWorld, has_email, safe_ip, perform_admin_login, fail_or_pass, pass_login, authenticated,
}
use casino_bot.Admin.Login.Guarded.{Holds, login_locked, login_authenticates}
use casino_bot.Tests.Data.{settings, session, tables, admin}
use casino_bot.Tests.Admin.{crypto, admin_world}

abbrev pub login_world : LoginWorld
login_world = record {
  checked_at = pos 5000000;
  failed_at = pos 5000001;
  created_at = pos 5000001;
  cleared_at = λ i. pos 5000002;
  session = admin_world;
}

-- A lock of the address that ends later.
abbrev lock : AdminLoginLock
lock = record (fresh_lock "root@example.org" "10.0.0.1" (pos 0)) {
  locked_until = some (pos 9000000);
}

abbrev locked_session : Session
locked_session = record session { work = record tables { login_locks = lock ∷ [] } }

lock-Holds :
    Holds settings crypto login_world "root@example.org" "secret"
      (some "10.0.0.1")
      none
      locked_session
      lock
unfolding safe_ip
lock-Holds = record { until = pos 9000000; own = refl; here = refl; locked = refl; later = refl }

login_locked_example :
    let out =
      perform_admin_login settings crypto login_world "root@example.org" "secret"
        (some "10.0.0.1")
        none
        locked_session in
    (out.0 ≡ err (http_exception 429 "Too many login attempts"))
    × (out.1.work ≡ record locked_session.work {
      audit_logs =
          record {
            actor = "root@example.org";
            action = "login_lockout_blocked";
            details = some (
                ("identity", text "root@example.org")
                ∷ ("ip_address", text (safe_ip (some "10.0.0.1")))
                ∷ []);
          }
          ∷ [];
    })
    × (out.1.committed ≡ out.1.work)
login_locked_example =
    login_locked settings crypto login_world "root@example.org" "secret" (some "10.0.0.1") none
      locked_session [] [] lock refl lock-Holds

login_succeeds :
    (perform_admin_login settings crypto login_world "root@example.org" "secret"
      (some "10.0.0.1")
      none
      session).0
    ≡ ok (issued_tokens settings crypto admin_world 0 admin)
unfolding perform_admin_login assert_not_locked active_lock blocked_or_pass fail_or_pass pass_login
    authenticated clear_login_failures create_session_and_tokens insert_session
    violates_session_constraints audit_log first
login_succeeds = refl

login_authenticates_example :
    (u : AdminUser) × (first (has_email "root@example.org") session.work.admin_users ≡ some u)
    × (u.is_active ≡ true)
    × (crypto.verify "secret" u.password_hash ≡ true)
    × (active_lock "root@example.org" (some (safe_ip (some "10.0.0.1"))) (pos 5000000) session.work
        ≡ none)
login_authenticates_example =
    login_authenticates settings crypto login_world "root@example.org" "secret" (some "10.0.0.1")
      none session login_succeeds

-- A row without failures, and two failures, where two lock.
abbrev unfailed : AdminLoginLock
unfailed = fresh_lock "root@example.org" "10.0.0.1" (pos 1000000)

abbrev waiting : Session
waiting = record session { work = record tables { login_locks = unfailed ∷ [] } }

enough_failures_lock_example :
    is_found (
      active_lock "root@example.org"
        (some "10.0.0.1")
        (pos 3000000)
        (record_login_failure settings "root@example.org" "10.0.0.1" (pos 2000000) (pos 2000000) (
          failures settings "root@example.org" "10.0.0.1"
            ((pos 1500000, pos 1500000) ∷ [])
            waiting)).1.work)
    ≡ true
unfolding first ◌+ℤ◌ ◌*ℤ◌
enough_failures_lock_example =
    enough_failures_lock settings "root@example.org" "10.0.0.1" ((pos 1500000, pos 1500000) ∷ [])
      (pos 2000000) (pos 2000000) (pos 3000000) waiting unfailed refl (omega arith, tt)
      (omega arith) (omega arith) (omega arith)
