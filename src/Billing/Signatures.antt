-- ===== src/Billing/Signatures.antt =====
-- The signatures of webhooks (`verify_signature` of src/casino_bot/billing/providers/): the header of
-- Stripe taken apart, its age, and the comparison with the keyed digest, which is a parameter.
use Prim.Native.Char.{code}
use Prim.Native.String.{String, ◌∷◌, ◌++◌ as str_append}
use casino_bot.Prelude.{
  ℤ, pos, pos_part, neg_part, ◌+◌, ◌-ℤ◌, ltb_ℤ, not, ◌||◌, ◌==◌, str_eq, Option, none, some, List,
  [], if◌then◌else◌,
}
use mathlib.Core.List.{◌∷◌ as ◌∷ᴸ◌}
use casino_bot.Python.{Result, ok, err, http_exception, value_error}
use casino_bot.Python.Text.{strip, split_at, parse_int}
use casino_bot.Settings.{Settings}

abbrev pub Headers : Type 0
Headers = List (String × String)

-- A key that stands later wins, as in a dictionary that is filled in order.
unfoldable pub last_value : String → Headers → Option String
last_value key [] = none
last_value key ((k, v) ∷ᴸ parts) = elim (last_value key parts) [
  | some w ↦ some w
  | none ↦ if str_eq k key then some v else none
]

unfoldable pub header_or_empty : String → Headers → String
unfolding last_value
header_or_empty key headers = elim (last_value key headers) [ some v ↦ v | none ↦ "" ]

-- `text.split(",")`, as the first item and the rest.
unfoldable pub split_commas : String → String × List String
split_commas String.[] = ("", [])
split_commas (c ∷ s) =
    let (item, items) = split_commas s in
    if code c == 44 then ("", item ∷ᴸ items) else (c ∷ item, items)

-- The dictionary of the items that have a `=`.
unfoldable pub signature_parts : List String → Headers
signature_parts [] = []
signature_parts (item ∷ᴸ items) =
    let rest = signature_parts items in
    elim (split_at 61 item) [ none ↦ rest | some (k, v) ↦ (strip k, strip v) ∷ᴸ rest ]

abbrev pub given : Option String → Option String
given none = none
given (some s) = if str_eq s "" then none else some s

-- `abs(n)`.
abbrev pub abs : ℤ → ℤ
abs n = pos (pos_part n + neg_part n)

abbrev pub invalid_signature : Result (Unit {0})
invalid_signature = err (http_exception 401 "Invalid signature")

-- The checks of age and digest; a time stamp that is no number raises.
unfoldable pub check_digest :
    Settings
    → (String → String → String)
    → ℤ
    → String
    → String
    → String
    → Option ℤ
    → Result (Unit {0})
check_digest settings hmac now ts signature bytes none =
    err (value_error "invalid literal for int() with base 10")
check_digest settings hmac now ts signature bytes (some sent_at) =
    if ltb_ℤ settings.billing.webhook_tolerance_seconds (abs (now -ℤ sent_at))
    then invalid_signature
    else if not (
        str_eq (hmac settings.billing.stripe_webhook_secret (str_append ts (str_append "." bytes)))
          signature)
    then invalid_signature
    else ok tt

unfoldable pub check_parts :
    Settings
    → (String → String → String)
    → ℤ
    → String
    → Option String
    → Option String
    → Result (Unit {0})
unfolding check_digest
check_parts settings hmac now bytes (some ts) (some signature) =
    check_digest settings hmac now ts signature bytes (parse_int ts)
check_parts settings hmac now bytes _ _ = invalid_signature

-- `now` is in whole seconds.
unfoldable pub verify_stripe_signature :
    Settings → (String → String → String) → ℤ → Headers → String → Result (Unit {0})
unfolding split_commas signature_parts header_or_empty
verify_stripe_signature settings hmac now headers bytes =
    let items = split_commas (header_or_empty "stripe-signature" headers) in
    let parts = signature_parts (items.0 ∷ᴸ items.1) in
    if str_eq settings.billing.stripe_webhook_secret ""
    then err (http_exception 503 "Billing temporarily unavailable")
    else check_parts settings hmac now bytes (given (last_value "t" parts))
        (given (last_value "v1" parts))

unfoldable pub verify_paddle_signature :
    Settings → (String → String → String) → Headers → String → Result (Unit {0})
unfolding header_or_empty
verify_paddle_signature settings hmac headers bytes =
    let signature = header_or_empty "paddle-signature" headers in
    if str_eq settings.billing.paddle_webhook_secret ""
    then err (http_exception 503 "Billing temporarily unavailable")
    else if str_eq signature ""
        || not (str_eq (hmac settings.billing.paddle_webhook_secret bytes) signature)
    then invalid_signature
    else ok tt
