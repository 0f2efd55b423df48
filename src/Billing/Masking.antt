-- ===== src/Billing/Masking.antt =====
-- The masking of identifiers and mail addresses in logs and audit rows (src/casino_bot/core/pii.py).
use Prim.Native.String.{String, ◌∷◌, ◌++◌ as str_append, count}
use casino_bot.Prelude.{ℕ, suc, ◌-◌, leb, str_eq, Option, none, some, if◌then◌else◌, ◌≡◌, refl}
use casino_bot.Python.Text.{split_at}

-- `v[:n]` and `v[n:]`, in characters.
unfoldable pub take_text : ℕ → String → String
take_text ℕ.zero s = ""
take_text (suc n) String.[] = ""
take_text (suc n) (c ∷ s) = c ∷ take_text n s

unfoldable pub drop_text : ℕ → String → String
drop_text ℕ.zero s = s
drop_text (suc n) String.[] = ""
drop_text (suc n) (c ∷ s) = drop_text n s

-- `v[-n:]`, where the text has more characters than that.
unfoldable pub last_text : ℕ → String → String
unfolding drop_text
last_text n s = drop_text (count s - n) s

unfoldable pub mask_token_like : String → Option String
unfolding take_text last_text
mask_token_like v =
    if str_eq v ""
    then none
    else if leb (count v) 6
    then some "***"
    else some (str_append (take_text 3 v) (str_append "***" (last_text 3 v)))

unfoldable pub mask_name : String → String → String
unfolding take_text last_text
mask_name name domain =
    if str_eq name ""
    then str_append "***@" domain
    else if leb (count name) 2
    then str_append (take_text 1 name) (str_append "***@" domain)
    else str_append (take_text 1 name)
        (str_append "***" (str_append (last_text 1 name) (str_append "@" domain)))

unfoldable pub mask_email : String → Option String
unfolding mask_name
mask_email v = if str_eq v "" then none else elim (split_at 64 v) [
  | none ↦ mask_token_like v
  | some (name, domain) ↦ some (mask_name name domain)
]

mask_runs : mask_token_like "cus_12345" ≡ some "cus***345"
unfolding mask_token_like
mask_runs = refl

mask_email_runs : mask_email "root@example.org" ≡ some "r***t@example.org"
unfolding mask_email split_at
mask_email_runs = refl
