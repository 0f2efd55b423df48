-- ===== src/Admin/Staff.antt =====
-- The routes that manage administrators (src/casino_bot/admin/api_v1/admins.py and
-- src/casino_bot/admin/api_v1/me.py), with the payload that the guard of the route has let through.
use Prim.Native.String.{String}
use casino_bot.Prelude.{ℕ, Bool, not, ◌&&◌, ◌||◌, str_eq, Option, none, some, List}
use casino_bot.Python.{
  Dict, get, Result, ok, err, integrity_error, http_exception, lift, pure, raise, raise_if, ◌>>=◌,
  ◌>>◌,
}
use casino_bot.Database.{AdminUser, Db, commit, rollback, is_found}
use casino_bot.Admin.Security.{Crypto, claim_text}
use casino_bot.Admin.Guards.{actor_or_unknown}
use casino_bot.Admin.Accounts.{
  list_admin_users, get_admin_by_id, create_admin_user, set_admin_active, set_admin_role,
  reset_admin_password, change_own_password,
}

unfoldable pub is_role : String → Bool
is_role role = str_eq role "admin" || str_eq role "superadmin"

unfoldable pub api_list_admins : Db (List AdminUser)
api_list_admins = list_admin_users

-- The `try` of a call: commit, or the conflict that an `IntegrityError` becomes.
unfoldable pub commit_or_conflict : {A : Type 0} → String → Result A → Db A
commit_or_conflict detail (ok a) = commit >> pure a
commit_or_conflict detail (err (integrity_error message)) =
    rollback >> raise (http_exception 409 detail)
commit_or_conflict detail (err e) = raise e

unfoldable pub create_or_conflict :
    (hash : String → String) → (id : ℕ) → String → String → String → String → Db AdminUser
create_or_conflict hash id email password role actor s =
    let (r, s') = create_admin_user hash id email password role actor s in
    commit_or_conflict "Email already registered" r s'

unfoldable pub api_create_admin :
    (hash : String → String) → (id : ℕ) → Dict → String → String → String → Db AdminUser
unfolding is_role
api_create_admin hash id admin email password role = do
  raise_if (not (is_role role)) (http_exception 422 "role must be admin or superadmin")
  create_or_conflict hash id email password role (actor_or_unknown admin)

unfoldable pub admin_or_404 : Option AdminUser → Result AdminUser
admin_or_404 none = err (http_exception 404 "Admin not found")
admin_or_404 (some u) = ok u

-- `if payload.… is not None`.
unfoldable pub active_if_given : ℕ → String → Option Bool → Db (Unit {0})
active_if_given admin_id actor none = pure tt
active_if_given admin_id actor (some is_active) =
    set_admin_active admin_id is_active actor >> pure tt

unfoldable pub role_if_given : ℕ → String → Option String → Db (Unit {0})
role_if_given admin_id actor none = pure tt
role_if_given admin_id actor (some role) = set_admin_role admin_id role actor >> pure tt

abbrev is_role_or_none : Option String → Bool
is_role_or_none none = Bool.true
is_role_or_none (some role) = is_role role

unfoldable pub api_patch_admin : Dict → ℕ → Option String → Option Bool → Db AdminUser
unfolding is_role admin_or_404
api_patch_admin admin admin_id role is_active = do
  raise_if (not (is_found role) && not (is_found is_active))
      (http_exception 422 "Provide role and/or is_active")
  raise_if (not (is_role_or_none role)) (http_exception 422 "role must be admin or superadmin")
  row ← get_admin_by_id admin_id
  lift (admin_or_404 row)
  active_if_given admin_id (actor_or_unknown admin) is_active
  role_if_given admin_id (actor_or_unknown admin) role
  commit
  updated ← get_admin_by_id admin_id
  lift (admin_or_404 updated)

unfoldable pub api_reset_admin_password :
    (hash : String → String) → Dict → ℕ → String → Db (Unit {0})
unfolding admin_or_404
api_reset_admin_password hash admin admin_id new_password = do
  row ← reset_admin_password hash admin_id new_password (actor_or_unknown admin)
  lift (admin_or_404 row)
  commit

unfoldable pub commit_or_401 : Option AdminUser → Db (Unit {0})
commit_or_401 none = rollback >> raise (http_exception 401 "Invalid credentials")
commit_or_401 (some u) = commit

unfoldable pub api_change_own_password :
    (hash : String → String) → Crypto → Dict → String → String → Db (Unit {0})
unfolding commit_or_401
api_change_own_password hash crypto admin current_password new_password = do
  row ← change_own_password hash crypto (claim_text (get "sub" admin)) current_password new_password
  commit_or_401 row
