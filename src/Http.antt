-- ===== src/Http.antt =====
-- The rate limits of the HTTP routes (src/casino_bot/core/security_middleware.py). Times are readings
-- of the monotonic clock in microseconds. A request has two halves, `admit` and `finish`, between
-- which the application answers; `dispatch` is both in one go.
pub mod Throttle
use Prim.Native.String.{String, ◌++◌ as str_append}
use casino_bot.Prelude.{
  ℕ, ℤ, pos, neg, pos_part, ◌-ℤ◌, ltb_ℤ, leb_ℤ, Bool, true, false, not, ◌&&◌, ◌||◌, ◌==◌, str_eq,
  Option, none, some, List, [], ◌∷◌, ◌++◌, length, if◌then◌else◌,
}
use casino_bot.Python.Text.{strip, starts_with}
use casino_bot.Settings.{Settings}

-- What the middleware reads of a request; `method` is in capitals.
pub record Request : Type 0 where
  pub path : String
  pub method : String
  pub client_host : Option String
  pub authorization : Option String
  pub x_user_id : Option String

-- `"a" "b" "c"` of the keys, between colons.
abbrev pub joined : String → String → String
joined a b = str_append a (str_append ":" b)

abbrev pub or_text : String → Option String → String
or_text d none = d
or_text d (some s) = s

-- `request.headers.get("Authorization", "").strip() or "no-auth"`.
unfoldable pub auth_of : Request → String
auth_of r =
    let auth = strip (or_text "" r.authorization) in if str_eq auth "" then "no-auth" else auth

abbrev pub min_ℤ : ℤ → ℤ → ℤ
min_ℤ a b = if ltb_ℤ b a then b else a

unfoldable pub is_login_path : Request → Bool
is_login_path r = str_eq r.path "/api/v1/admin/login" || str_eq r.path "/admin/login"

unfoldable pub is_refresh_path : Request → Bool
is_refresh_path r = str_eq r.path "/api/v1/admin/refresh" || str_eq r.path "/admin/refresh"

unfoldable pub is_admin_path : Request → Bool
is_admin_path r = starts_with "/api/v1/admin" r.path || starts_with "/admin" r.path

-- The key of a request and its limit; no key is no limit.
unfoldable pub get_limit : Settings → Request → Option String × ℤ
unfolding is_login_path is_refresh_path is_admin_path
get_limit settings r =
    let ip = or_text "unknown" r.client_host in
    if is_login_path r
    then (some (joined "login" ip), settings.login_rate_limit_per_minute)
    else if is_refresh_path r
    then (some (joined "refresh" (joined ip (auth_of r))), settings.refresh_rate_limit_per_minute)
    else if str_eq r.path "/api/v1/billing/checkout/session"
    then (
      some (joined "billing-checkout" (joined ip (or_text "unknown" r.x_user_id))),
      min_ℤ settings.write_rate_limit_per_minute (pos 20),
    )
    else if is_admin_path r
    then (
      some (joined "admin" (joined r.method (joined ip (auth_of r)))),
      (if str_eq r.method "GET"
          then settings.read_rate_limit_per_minute
          else settings.write_rate_limit_per_minute),
    )
    else (none, pos 0)

abbrev pub window : ℤ
window = pos 60000000

-- The dictionary of the queues, where a key that is missing has an empty one.
abbrev pub Hits : Type 0
Hits = String → List ℤ

abbrev pub set_queue : String → List ℤ → Hits → Hits
set_queue key queue hits k = if str_eq key k then queue else hits k

-- The loop that drops what has left the window.
unfoldable pub prune : ℤ → List ℤ → List ℤ
prune now [] = []
prune now (t ∷ queue) =
    let rest = prune now queue in if ltb_ℤ window (now -ℤ t) then rest else t ∷ queue

-- The answer: passed on without a limit, refused with status 429, or the status of the application,
-- with the number of calls that remain.
pub data Answer : Type 0 where
  unlimited : ℕ → Answer
  refused : ℤ → Answer
  passed : ℕ → ℤ → ℤ → Answer

abbrev pub remaining : ℤ → List ℤ → ℤ
remaining limit queue = pos (pos_part (limit -ℤ pos (length queue)))

-- A login counts where the application answers 401, any other call always.
unfoldable pub counted_queue : Request → ℤ → ℕ → List ℤ → List ℤ
unfolding is_login_path
counted_queue r now status queue =
    if not (is_login_path r) || status == 401 then queue ++ now ∷ [] else queue

-- The half before the application: whether it is asked.
unfoldable pub admit : ℤ → String → ℤ → Hits → Bool × Hits
admit now key limit hits =
    let queue = prune now (hits key) in
    (not (leb_ℤ limit (pos (length queue))), set_queue key queue hits)

-- The half after it has answered.
unfoldable pub finish : Request → ℤ → ℕ → String → ℤ → Hits → Answer × Hits
finish r now status key limit hits =
    let counted = counted_queue r now status (hits key) in
    (passed status limit (remaining limit counted), set_queue key counted hits)

unfoldable pub limited : Request → ℤ → ℕ → String → ℤ → Hits → Answer × Hits
limited r now status key limit hits =
    let (admitted, hits') = admit now key limit hits in
    if admitted then finish r now status key limit hits' else (refused limit, hits')

unfoldable pub keyed : Request → ℤ → ℕ → Option String → ℤ → Hits → Answer × Hits
keyed r now status none limit hits = (unlimited status, hits)
keyed r now status (some key) limit hits = limited r now status key limit hits

-- `status` is what the application answers, where it is asked; the keys are never empty.
unfoldable pub dispatch : Settings → Request → ℤ → ℕ → Hits → Answer × Hits
dispatch settings r now status hits =
    let (key, limit) = get_limit settings r in keyed r now status key limit hits
