-- ===== src/Admin/Security.antt =====
-- Tokens of administrators (src/casino_bot/core/security.py). The libraries below it are fields of
-- `Crypto`: the password check of passlib, the encoding and the decoding of jose, and the keyed
-- digest of hmac. Times are microseconds since 1970.
use Prim.Native.String.{String}
use casino_bot.Prelude.{
  ℕ, ℤ, pos, ◌+ℤ◌, ◌*ℤ◌, ◌*◌, leb_ℤ, Bool, false, ◌&&◌, str_eq, Option, none, some, [], ◌∷◌,
  if◌then◌else◌,
}
use casino_bot.Python.{Json, null, number, text, flag, Dict, get, str_ℤ}
use casino_bot.Settings.{Settings}
use casino_bot.Tokens.{floor_div}

pub record Crypto : Type 0 where
  pub verify : String → String → Bool
  pub encode : Dict → String
  -- Nothing is a `JWTError`: the text is no token, or its signature or expiry does not hold.
  pub decode : (now : ℤ) → String → Option Dict
  pub digest : String → String

abbrev pub second : ℕ
second = 1000000

unfoldable pub create_access_token :
    Settings → Crypto → String → ℤ → String → String → String × String × ℤ
create_access_token settings crypto jti now subject role =
    let expire = now +ℤ settings.access_token_expire_minutes *ℤ pos (60 * second) in
    (
      crypto.encode (
          ("sub", text subject)
          ∷ ("role", text role)
          ∷ ("iat", number (floor_div now second))
          ∷ ("exp", number (floor_div expire second))
          ∷ ("jti", text jti)
          ∷ ("type", text "access")
          ∷ []),
      jti,
      expire,
    )

unfoldable pub create_refresh_token : Settings → Crypto → ℤ → String → String → String × ℤ
create_refresh_token settings crypto now subject session_id =
    let expire = now +ℤ settings.refresh_token_expire_days *ℤ pos (86400 * second) in
    (
      crypto.encode (
          ("sub", text subject)
          ∷ ("sid", text session_id)
          ∷ ("iat", number (floor_div now second))
          ∷ ("exp", number (floor_div expire second))
          ∷ ("type", text "refresh")
          ∷ []),
      expire,
    )

unfoldable pub is_text : String → Option Json → Bool
is_text s (some (text t)) = str_eq t s
is_text s _ = false

unfoldable pub of_type : String → Option Dict → Option Dict
of_type expected_type none = none
of_type expected_type (some payload) =
    if is_text expected_type (get "type" payload) then some payload else none

unfoldable pub decode_token_of_type : Crypto → ℤ → String → String → Option Dict
decode_token_of_type crypto now token expected_type =
    of_type expected_type (crypto.decode now token)

-- `str(payload.get("sid") or "")`.
unfoldable pub claim_text : Option Json → String
claim_text none = ""
claim_text (some null) = ""
claim_text (some (text s)) = s
claim_text (some (number n)) = if leb_ℤ n (pos 0) && leb_ℤ (pos 0) n then "" else str_ℤ n
claim_text (some (flag b)) = if b then "True" else ""
