-- ===== src/Admin/Guards.antt =====
-- Who may call a route of the administration (src/casino_bot/admin/deps.py and
-- src/casino_bot/admin/auth.py).
use Prim.Native.String.{String}
use casino_bot.Prelude.{
  ℤ, Bool, not, ◌&&◌, ◌||◌, str_eq, Option, none, some, [], ◌∷◌, if◌then◌else◌,
}
use casino_bot.Python.{text, Dict, get, Result, ok, err, http_exception}
use casino_bot.Settings.{Settings}
use casino_bot.Admin.Security.{Crypto, decode_token_of_type, is_text, claim_text}

unfoldable pub has_role : String → Dict → Bool
has_role role payload = is_text role (get "role" payload)

unfoldable pub admitted : String → Option Dict → Result Dict
admitted required_role none = err (http_exception 401 "Invalid token")
admitted required_role (some payload) =
    if has_role "superadmin" payload || has_role required_role payload
    then ok payload
    else err (http_exception 403 "Forbidden")

-- The dependency that `admin_guard(required_role)` returns, at the time `now`.
unfoldable pub admin_guard : Crypto → ℤ → String → String → Result Dict
unfolding admitted
admin_guard crypto now required_role token =
    admitted required_role (decode_token_of_type crypto now token "access")

unfoldable pub admitted_superadmin : Option Dict → Result Dict
admitted_superadmin none = err (http_exception 401 "Invalid token")
admitted_superadmin (some payload) =
    if not (has_role "superadmin" payload)
    then err (http_exception 403 "Superadmin role required")
    else ok payload

-- A token of drills, outside production only.
unfoldable pub is_drill : Settings → String → Bool
is_drill settings token =
    not (str_eq settings.environment "production")
    && (not (str_eq settings.drill_superadmin_token "")
        && str_eq token settings.drill_superadmin_token)

unfoldable pub superadmin_guard : Settings → Crypto → ℤ → String → Result Dict
unfolding admitted_superadmin is_drill
superadmin_guard settings crypto now token =
    if is_drill settings token
    then ok (("role", text "superadmin") ∷ ("sub", text "drill") ∷ [])
    else admitted_superadmin (decode_token_of_type crypto now token "access")

unfoldable pub current_admin : Option Dict → Result Dict
current_admin none = err (http_exception 401 "Unauthorized")
current_admin (some payload) =
    if has_role "admin" payload || has_role "superadmin" payload
    then ok payload
    else err (http_exception 403 "Forbidden")

unfoldable pub get_current_admin : Crypto → ℤ → String → Result Dict
unfolding current_admin
get_current_admin crypto now token = current_admin (decode_token_of_type crypto now token "access")

-- `str(admin.get("sub") or "unknown")`.
unfoldable pub actor_or_unknown : Dict → String
actor_or_unknown admin =
    let actor = claim_text (get "sub" admin) in if str_eq actor "" then "unknown" else actor
