-- ===== src/Admin/Accounts.antt =====
-- The accounts of administrators (src/casino_bot/services/admin_accounts_service.py). `hash` is
-- `hash_password` of src/casino_bot/core/security.py for one password, with its salt.
use Prim.Native.String.{String}
use casino_bot.Prelude.{
  ℕ, pos, Bool, true, not, Option, none, some, List, [], ◌∷◌, ◌++◌, first, update_first,
  if◌then◌else◌,
}
use casino_bot.Python.{number, text, flag, Dict, integrity_error, pure, raise_if, ◌>>=◌, ◌>>◌}
use casino_bot.Database.{AdminUser, Tables, Db, query, write, is_found, audit_log}
use casino_bot.Admin.Security.{Crypto}
use casino_bot.Admin.Sessions.{has_admin_id}
use casino_bot.Admin.Login.{has_email}

abbrev pub put_admin : AdminUser → Tables → Tables
put_admin u t = record t { admin_users = update_first (has_admin_id u.id) (λ _. u) t.admin_users }

-- Rows are added with growing identifiers, so that the order of the table is the one asked for.
unfoldable pub list_admin_users : Db (List AdminUser)
list_admin_users = query (λ t. t.admin_users)

unfoldable pub get_admin_by_email : String → Db (Option AdminUser)
get_admin_by_email email = query (λ t. first (has_email email) t.admin_users)

unfoldable pub get_admin_by_id : ℕ → Db (Option AdminUser)
get_admin_by_id admin_id = query (λ t. first (has_admin_id admin_id) t.admin_users)

-- `id` is the identifier that the database gives; the flush breaks the unique index of the mail
-- addresses.
unfoldable pub create_admin_user :
    (hash : String → String) → ℕ → String → String → String → String → Db AdminUser
unfolding audit_log
create_admin_user hash id email password role actor_email = do
  taken ← query (λ t. is_found (first (has_email email) t.admin_users))
  raise_if taken (integrity_error "admin_users")
  let row : AdminUser = record {
    id = id;
    email = email;
    password_hash = hash password;
    role = role;
    is_active = true;
  }
  write λ t. record t { admin_users = t.admin_users ++ row ∷ [] }
  audit_log actor_email "admin_user_created" (
      some
        (("target_email", text email) ∷ ("role", text role) ∷ ("admin_id", number (pos id)) ∷ []))
  pure row

-- The assignment to a row that is found, and its audit row.
unfoldable pub changed_or_none :
    (AdminUser → AdminUser) → String → String → Dict → Option AdminUser → Db (Option AdminUser)
unfolding audit_log
changed_or_none change actor action details none = pure none
changed_or_none change actor action details (some row) = do
  write (put_admin (change row))
  audit_log actor action (some details)
  pure (some (change row))

unfoldable pub set_admin_active : ℕ → Bool → String → Db (Option AdminUser)
set_admin_active admin_id is_active actor_email = do
  row ← get_admin_by_id admin_id
  changed_or_none (λ u. record u { is_active = is_active }) actor_email "admin_user_active_changed"
      (("admin_id", number (pos admin_id)) ∷ ("is_active", flag is_active) ∷ []) row

unfoldable pub set_admin_role : ℕ → String → String → Db (Option AdminUser)
set_admin_role admin_id role actor_email = do
  row ← get_admin_by_id admin_id
  changed_or_none (λ u. record u { role = role }) actor_email "admin_user_role_changed"
      (("admin_id", number (pos admin_id)) ∷ ("role", text role) ∷ []) row

unfoldable pub reset_admin_password :
    (hash : String → String) → ℕ → String → String → Db (Option AdminUser)
reset_admin_password hash admin_id new_password actor_email = do
  row ← get_admin_by_id admin_id
  changed_or_none (λ u. record u { password_hash = hash new_password }) actor_email
      "admin_password_reset" (("admin_id", number (pos admin_id)) ∷ []) row

-- The row whose password may be changed: an active one, whose password is the current one.
unfoldable pub own_row : Crypto → String → Option AdminUser → Option AdminUser
own_row crypto current_password none = none
own_row crypto current_password (some u) =
    if not u.is_active
    then none
    else if not (crypto.verify current_password u.password_hash)
    then none
    else some u

unfoldable pub change_own_password :
    (hash : String → String) → Crypto → String → String → String → Db (Option AdminUser)
unfolding own_row
change_own_password hash crypto email current_password new_password = do
  row ← get_admin_by_email email
  changed_or_none (λ u. record u { password_hash = hash new_password }) email
      "admin_password_changed_self" [] (own_row crypto current_password row)
