-- ===== src/Admin/Sessions.antt =====
-- Sessions of administrators (src/casino_bot/admin/security_service.py): creation, rotation of the
-- refresh token, and revocation. What a call reads of the world is an argument: the new identifiers,
-- and the readings of the clock in their order.
pub mod Steps
pub mod Rotation
pub mod Revocation
use Prim.Native.String.{String}
use casino_bot.Prelude.{
  ℕ, ℤ, pos, negsuc, neg, pos_part, ◌+ℤ◌, ◌-ℤ◌, ◌*ℤ◌, ◌+◌, ◌/◌, leb_ℤ, ltb_ℤ, Bool, true, false,
  not, ◌&&◌, ◌||◌, ◌==◌, str_eq, Option, none, some, List, [], ◌∷◌, ◌++◌, length, first, select,
  update_first, update_all, if◌then◌else◌,
}
use casino_bot.Python.{
  Result, ok, err, http_exception, integrity_error, Json, null, number, text, json_of, Dict, get,
  lift, pure, raise_if, ◌>>=◌, ◌>>◌,
}
use casino_bot.Settings.{Settings}
use casino_bot.Database.{
  AdminUser, AdminSession, Tables, Session, Db, query, write, commit, audit_log, is_found,
}
use casino_bot.Admin.Security.{
  Crypto, second, create_access_token, create_refresh_token, decode_token_of_type, claim_text,
}

pub record AdminWorld : Type 0 where
  pub session_id : String
  pub jti : String
  pub decoded_at : ℤ
  pub clock : ℕ → ℤ

pub record IssuedTokens : Type 0 where
  pub access_token : String
  pub token_type : String
  pub expires_in : ℤ
  pub refresh_token : String
  pub refresh_expires_in : ℤ
  pub session_id : String

abbrev pub has_session_id : String → AdminSession → Bool
has_session_id session_id row = str_eq row.id session_id

abbrev pub has_admin_id : ℕ → AdminUser → Bool
has_admin_id id u = u.id == id

-- `int(delta.total_seconds())`, which rounds towards zero.
unfoldable pub whole_seconds : ℤ → ℤ
whole_seconds (pos n) = pos (n / second)
whole_seconds (negsuc n) = neg (pos ((n + 1) / second))

-- The primary key and the unique index of the table.
unfoldable pub violates_session_constraints : AdminSession → Tables → Bool
violates_session_constraints row t = is_found (
    first (λ r. str_eq r.id row.id || str_eq r.refresh_token_hash row.refresh_token_hash)
      t.admin_sessions)

unfoldable pub insert_session : AdminSession → Db (Unit {0})
insert_session row = do
  violated ← query (violates_session_constraints row)
  raise_if violated (integrity_error "admin_sessions")
  write λ t. record t { admin_sessions = t.admin_sessions ++ row ∷ [] }

-- The clock is read from the `i`-th reading on.
module _ (settings : Settings) (crypto : Crypto) (world : AdminWorld) (i : ℕ)
    (user : AdminUser) where
  abbrev new_refresh_token : String × ℤ
  new_refresh_token =
      create_refresh_token settings crypto (world.clock i) user.email world.session_id

  abbrev new_access_token : String × String × ℤ
  new_access_token =
      create_access_token settings crypto world.jti (world.clock (i + 2)) user.email user.role

  unfoldable pub session_row : Option String → Option String → Option String → AdminSession
  session_row ip_address user_agent rotated_from_session_id = record {
    id = world.session_id;
    admin_user_id = user.id;
    refresh_token_hash = crypto.digest new_refresh_token.0;
    user_agent = user_agent;
    ip_address = ip_address;
    expires_at = new_refresh_token.1;
    revoked_at = none;
    last_used_at = some (world.clock (i + 1));
    rotated_from_session_id = rotated_from_session_id;
  }

  unfoldable pub issued_tokens : IssuedTokens
  unfolding whole_seconds
  issued_tokens = record {
    access_token = new_access_token.0;
    token_type = "bearer";
    expires_in = whole_seconds (new_access_token.2 -ℤ world.clock (i + 3));
    refresh_token = new_refresh_token.0;
    refresh_expires_in = whole_seconds (new_refresh_token.1 -ℤ world.clock (i + 4));
    session_id = world.session_id;
  }

  unfoldable pub create_session_and_tokens :
      Option String → Option String → Option String → Db IssuedTokens
  create_session_and_tokens ip_address user_agent rotated_from_session_id = do
    insert_session (session_row ip_address user_agent rotated_from_session_id)
    pure issued_tokens

unfoldable pub actor_of : Option AdminUser → String
actor_of none = "unknown"
actor_of (some u) = u.email

unfoldable pub decoded_or_401 : Option Dict → Result Dict
decoded_or_401 none = err (http_exception 401 "Invalid refresh token")
decoded_or_401 (some payload) = ok payload

unfoldable pub valid_session : String → ℤ → Option AdminSession → Result AdminSession
valid_session refresh_hash now none = err (http_exception 401 "Invalid refresh token")
valid_session refresh_hash now (some row) =
    if not (str_eq row.refresh_token_hash refresh_hash)
    then err (http_exception 401 "Invalid refresh token")
    else if is_found row.revoked_at || leb_ℤ row.expires_at now
    then err (http_exception 401 "Refresh token revoked or expired")
    else ok row

unfoldable pub get_refresh_session : Crypto → AdminWorld → String → Db (Dict × AdminSession)
unfolding decoded_or_401 valid_session claim_text
get_refresh_session crypto world refresh_token = do
  payload ←
      lift (decoded_or_401 (decode_token_of_type crypto world.decoded_at refresh_token "refresh"))
  found ← query (λ t. first (has_session_id (claim_text (get "sid" payload))) t.admin_sessions)
  row ← lift (valid_session (crypto.digest refresh_token) (world.clock 0) found)
  pure (payload, row)

unfoldable pub active_or_401 : Option AdminUser → Result AdminUser
active_or_401 none = err (http_exception 401 "Invalid refresh token")
active_or_401 (some u) =
    if u.is_active then ok u else err (http_exception 401 "Invalid refresh token")

-- The two assignments to a row that is revoked, at the readings `t` and `t'`.
unfoldable pub revoke_row : ℤ → ℤ → AdminSession → AdminSession
revoke_row t t' row = record row { revoked_at = some t; last_used_at = some t' }

unfoldable pub revoke_session : String → ℤ → ℤ → Tables → Tables
unfolding revoke_row
revoke_session session_id t t' tables = record tables {
  admin_sessions = update_first (has_session_id session_id) (revoke_row t t') tables.admin_sessions;
}

unfoldable pub refresh_admin_session :
    Settings → Crypto → AdminWorld → String → Option String → Option String → Db IssuedTokens
unfolding active_or_401
refresh_admin_session settings crypto world refresh_token ip_address user_agent = do
  found ← get_refresh_session crypto world refresh_token
  owner ← query (λ t. first (has_admin_id found.1.admin_user_id) t.admin_users)
  user ← lift (active_or_401 owner)
  write (revoke_session found.1.id (world.clock 1) (world.clock 2))
  issued ←
      create_session_and_tokens settings crypto world 3 user ip_address user_agent (some found.1.id)
  audit_log user.email "refresh" (
      some (
        ("session_id", text found.1.id)
        ∷ ("new_session_id", text issued.session_id)
        ∷ ("sid_claim", json_of (λ j. j) (get "sid" found.0))
        ∷ []))
  commit
  pure issued

-- The end of `revoke_refresh_session`, with a row in hand.
unfoldable pub log_out : AdminWorld → AdminSession → Db Bool
unfolding actor_of
log_out world row = do
  write (revoke_session row.id (world.clock 1) (world.clock 2))
  owner ← query (λ t. first (has_admin_id row.admin_user_id) t.admin_users)
  audit_log (actor_of owner) "logout" (some (("session_id", text row.id) ∷ []))
  commit
  pure true

unfoldable pub log_out_found : AdminWorld → Option AdminSession → Db Bool
log_out_found world none s = (ok false, s)
log_out_found world (some row) s =
    let rest = log_out world row s in
    if is_found row.revoked_at || leb_ℤ row.expires_at (world.clock 0) then (ok false, s) else rest

unfoldable pub is_given : Option String → Bool
is_given none = false
is_given (some s) = not (str_eq s "")

unfoldable pub or_empty : Option String → String
or_empty none = ""
or_empty (some s) = s

unfoldable pub revoke_refresh_session :
    Crypto → AdminWorld → Option String → Option String → Db Bool
unfolding is_given or_empty
revoke_refresh_session crypto world refresh_token session_id s =
    let by_token =
      (get_refresh_session crypto world (or_empty refresh_token) >>= λ found. log_out world found.1)
        s in
    let by_id =
      (query (λ t. first (has_session_id (or_empty session_id)) t.admin_sessions)
          >>= log_out_found world)
        s in
    if is_given refresh_token
    then by_token
    else if is_given session_id
    then by_id
    else (ok false, s)

-- The rows that `revoke_all_sessions` selects.
abbrev pub is_live : ℕ → ℤ → AdminSession → Bool
is_live admin_user_id now row =
    row.admin_user_id == admin_user_id
    && (not (is_found row.revoked_at) && ltb_ℤ now row.expires_at)

unfoldable pub revoke_all_sessions : AdminWorld → ℕ → String → Db ℕ
unfolding revoke_row
revoke_all_sessions world target_admin_user_id actor = do
  let now = world.clock 0
  rows ← query (λ t. select (is_live target_admin_user_id now) t.admin_sessions)
  write λ t. record t {
    admin_sessions =
        update_all (is_live target_admin_user_id now) (revoke_row now now) t.admin_sessions;
  }
  audit_log actor "logout_all" (
      some (
        ("target_admin_user_id", number (pos target_admin_user_id))
        ∷ ("revoked_count", number (pos (length rows)))
        ∷ []))
  commit
  pure (length rows)
