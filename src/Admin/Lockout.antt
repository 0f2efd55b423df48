-- ===== src/Admin/Lockout.antt =====
-- The lockout of the login (src/casino_bot/admin/security_service.py): failures are counted for each
-- identity and address in a window of time, and enough of them lock the pair. An identity is what
-- `normalize_identity` has made of a user name.
pub mod Attempts
use Prim.Native.String.{String}
use casino_bot.Prelude.{
  ℕ, ◌+◌, ℤ, pos, ◌+ℤ◌, ◌-ℤ◌, ◌*ℤ◌, leb_ℤ, ltb_ℤ, Bool, true, false, not, ◌&&◌, ◌||◌, str_eq,
  Option, none, some, List, [], ◌∷◌, ◌++◌, first, update_first, update_all, if◌then◌else◌,
}
use casino_bot.Python.{
  Result, ok, err, http_exception, Json, text, json_of, pure, raise, ◌>>=◌, ◌>>◌,
}
use casino_bot.Settings.{Settings}
use casino_bot.Database.{AdminLoginLock, Tables, Session, Db, query, write, commit, audit_log}
use casino_bot.Admin.Security.{second}

-- `if ip_address:`.
unfoldable pub concerns_address : Option String → AdminLoginLock → Bool
concerns_address none row = true
concerns_address (some ip_address) row =
    str_eq ip_address "" || (str_eq row.ip_address ip_address || str_eq row.ip_address "*")

unfoldable pub is_locked : ℤ → AdminLoginLock → Bool
is_locked now row = elim row.locked_until [ none ↦ false | some t ↦ ltb_ℤ now t ]

unfoldable pub active_lock : String → Option String → ℤ → Tables → Option AdminLoginLock
unfolding concerns_address is_locked
active_lock identity ip_address now t =
    first
      (λ row.
        str_eq row.identity identity && (concerns_address ip_address row && is_locked now row))
      t.login_locks

-- `identity or "unknown"`.
unfoldable pub actor_name : String → String
actor_name identity = if str_eq identity "" then "unknown" else identity

abbrev pub lock_details : String → Option String → List (String × Json)
lock_details identity ip_address =
    ("identity", text identity) ∷ ("ip_address", json_of text ip_address) ∷ []

unfoldable pub blocked_or_pass : String → Option String → Option AdminLoginLock → Db (Unit {0})
unfolding actor_name
blocked_or_pass identity ip_address none = pure tt
blocked_or_pass identity ip_address (some lock) = do
  audit_log (actor_name identity) "login_lockout_blocked" (some (lock_details identity ip_address))
  commit
  raise (http_exception 429 "Too many login attempts")

unfoldable pub assert_not_locked : String → Option String → ℤ → Db (Unit {0})
assert_not_locked identity ip_address now = do
  lock ← query (active_lock identity ip_address now)
  blocked_or_pass identity ip_address lock

abbrev pub has_pair : String → String → AdminLoginLock → Bool
has_pair identity ip_address row = str_eq row.identity identity && str_eq row.ip_address ip_address

-- The database fills in the count and the times of a new row; `created_at` is its clock.
abbrev pub fresh_lock : String → String → ℤ → AdminLoginLock
fresh_lock identity ip_address created_at = record {
  identity = identity;
  ip_address = ip_address;
  attempts_count = pos 0;
  first_attempt_at = created_at;
  last_attempt_at = created_at;
  locked_until = none;
}

unfoldable pub lock_or_new : String → String → ℤ → Option AdminLoginLock → Db AdminLoginLock
lock_or_new identity ip_address created_at (some row) = pure row
lock_or_new identity ip_address created_at none =
    write (λ t. record t {
      login_locks = t.login_locks ++ fresh_lock identity ip_address created_at ∷ [];
    })
    >> pure (fresh_lock identity ip_address created_at)

-- The count of a row after one more failure, and its lock.
unfoldable pub count_failure : Settings → ℤ → AdminLoginLock → AdminLoginLock
count_failure settings now row =
    let window_start = now -ℤ settings.attempt_window_seconds *ℤ pos second in
    if ltb_ℤ row.first_attempt_at window_start
    then record row { first_attempt_at = now; attempts_count = pos 1; last_attempt_at = now }
    else record row { attempts_count = row.attempts_count +ℤ pos 1; last_attempt_at = now }

unfoldable pub is_over : Settings → AdminLoginLock → Bool
is_over settings row = leb_ℤ settings.max_login_attempts row.attempts_count

unfoldable pub lock_if_over : Settings → ℤ → AdminLoginLock → AdminLoginLock
lock_if_over settings now row =
    if is_over settings row
    then record row { locked_until = some (now +ℤ settings.lockout_seconds *ℤ pos second) }
    else row

-- Assignments to the row of a pair.
abbrev pub put_lock : String → String → AdminLoginLock → Tables → Tables
put_lock identity ip_address row t = record t {
  login_locks = update_first (has_pair identity ip_address) (λ _. row) t.login_locks;
}

unfoldable pub log_lockout : Bool → String → String → Db (Unit {0})
unfolding actor_name
log_lockout true identity ip_address =
    audit_log (actor_name identity) "login_lockout" (some (lock_details identity (some ip_address)))
log_lockout false identity ip_address = pure tt

unfoldable pub record_login_failure : Settings → String → String → ℤ → ℤ → Db (Unit {0})
unfolding lock_or_new
record_login_failure settings identity ip_address now created_at = do
  found ← query (λ t. first (has_pair identity ip_address) t.login_locks)
  row ← lock_or_new identity ip_address created_at found
  let counted = count_failure settings now row
  write (put_lock identity ip_address (lock_if_over settings now counted))
  log_lockout (is_over settings counted) identity ip_address

unfoldable pub clear_row : ℤ → ℤ → AdminLoginLock → AdminLoginLock
clear_row t t' row = record row {
  attempts_count = pos 0;
  first_attempt_at = t;
  last_attempt_at = t';
  locked_until = none;
}

-- The two readings of the clock are those of the loop; it reads it anew for each row.
unfoldable pub clear_rows : (ℕ → ℤ) → ℕ → String → List AdminLoginLock → List AdminLoginLock
unfolding clear_row
clear_rows clock i identity [] = []
clear_rows clock i identity (row ∷ rows) =
    let next = clear_rows clock (i + 2) identity rows in
    let same = clear_rows clock i identity rows in
    if str_eq row.identity identity
    then clear_row (clock i) (clock (i + 1)) row ∷ next
    else row ∷ same

unfoldable pub clear_login_failures : (ℕ → ℤ) → String → Db (Unit {0})
unfolding clear_rows
clear_login_failures clock identity =
    write λ t. record t { login_locks = clear_rows clock 0 identity t.login_locks }
