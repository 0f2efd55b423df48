-- ===== src/TelegramBot/Keys.antt =====
-- The texts that the bot gives to deliveries and buttons, read back
-- (src/casino_bot/telegram_bot/flip_idempotency.py, src/casino_bot/telegram_bot/polling.py).
use Prim.Native.String.{String, ◌∷◌, ◌++◌}
use text.Mathlib.TextLemmas.{nil-append, cons-append}
use casino_bot.Prelude.{ℤ, str_eq, ◌≡◌, refl, sym, ◌∙◌, ap, true, false, Option, none, some}
use casino_bot.Python.{str_ℤ}
use casino_bot.Python.Text.{split_at}
use casino_bot.Python.Text.Numerals.{str_ℤ-injective, split_at-str_ℤ}
use casino_bot.TelegramBot.Users.{command_idempotency_key, callback_idempotency_key}

-- What is delivered to the bot: a command with its user and update, or a button with its user and
-- the identifier of the query.
pub data Delivery : Type 0 where
  by_command : ℤ → ℤ → Delivery
  by_callback : ℤ → String → Delivery

abbrev pub key_of : Delivery → String
key_of (by_command tid update_id) = command_idempotency_key tid update_id
key_of (by_callback tid id) = callback_idempotency_key tid id

-- The texts after and between the first three colons.
abbrev after : Option (String × String) → String
after none = ""
after (some (a, b)) = b

abbrev before : Option (String × String) → String
before none = ""
before (some (a, b)) = a

abbrev tail_of : String → String
tail_of key = after (split_at 58 key)

after_tg : (s : String) → tail_of ("tg:" ++ s) ≡ s
unfolding split_at
after_tg s =
    rw (cons-append "t" "g:" s, cons-append "g" ":" s, cons-append ":" "" s, nil-append s) refl

behind_colon : (s rest : String) → (":" ∷ s) ++ rest ≡ ":" ++ s ++ rest
behind_colon s rest =
    cons-append ":" s rest
    ∙ sym (cons-append ":" "" (s ++ rest) ∙ ap (λ z. ":" ∷ z) (nil-append (s ++ rest)))

kind_cmd : (s : String) → split_at 58 ("cmd:" ++ s) ≡ some ("cmd", s)
unfolding split_at
kind_cmd s =
    rw
      (
        cons-append "c" "md:" s,
        cons-append "m" "d:" s,
        cons-append "d" ":" s,
        cons-append ":" "" s,
        nil-append s,
      )
      refl

kind_cb : (s : String) → split_at 58 ("cb:" ++ s) ≡ some ("cb", s)
unfolding split_at
kind_cb s =
    rw (cons-append "c" "b:" s, cons-append "b" ":" s, cons-append ":" "" s, nil-append s) refl

-- The number in a key, and the kind and the text after it.
abbrev read_key : String → String × Option (String × String)
read_key key = let owned = split_at 58 (tail_of key) in (before owned, split_at 58 (after owned))

owned_by :
    (tid : ℤ) (kind s : String)
    → split_at 58 (tail_of ("tg:" ++ str_ℤ tid ++ (":" ∷ kind) ++ s)) ≡ some (str_ℤ tid, kind ++ s)
owned_by tid kind s =
    ap (split_at 58)
      (after_tg (str_ℤ tid ++ (":" ∷ kind) ++ s) ∙ ap (λ z. str_ℤ tid ++ z) (behind_colon kind s))
    ∙ split_at-str_ℤ tid (kind ++ s)

read_command :
    (tid n : ℤ) → read_key (command_idempotency_key tid n) ≡ (str_ℤ tid, some ("cmd", str_ℤ n))
unfolding command_idempotency_key
read_command tid n = rw (owned_by tid "cmd:" (str_ℤ n), kind_cmd (str_ℤ n)) refl

read_callback :
    (tid : ℤ) (id : String)
    → read_key (callback_idempotency_key tid id) ≡ (str_ℤ tid, some ("cb", id))
unfolding callback_idempotency_key
read_callback tid id = rw (owned_by tid "cb:" id, kind_cb id) refl

-- Two deliveries with the same idempotency key are the same: commands of one user and update, or
-- buttons of one user and query.
pub key_of-injective : (d e : Delivery) → key_of d ≡ key_of e → d ≡ e
key_of-injective (by_command t n) (by_command u m) h =
    let both = sym (read_command t n) ∙ ap read_key h ∙ read_command u m in
    ap (λ x. by_command x n) (str_ℤ-injective t u (ap (λ r. r.0) both))
    ∙ ap (by_command u) (str_ℤ-injective n m (ap (λ r. after r.1) both))
key_of-injective (by_command t n) (by_callback u id) h =
    let both = sym (read_command t n) ∙ ap read_key h ∙ read_callback u id in
    let same : true ≡ false = ap (λ r. str_eq (before r.1) "cmd") both in absurd cc
key_of-injective (by_callback t id) (by_command u n) h =
    let both = sym (read_callback t id) ∙ ap read_key h ∙ read_command u n in
    let same : false ≡ true = ap (λ r. str_eq (before r.1) "cmd") both in absurd cc
key_of-injective (by_callback t id) (by_callback u other) h =
    let both = sym (read_callback t id) ∙ ap read_key h ∙ read_callback u other in
    ap (λ x. by_callback x id) (str_ℤ-injective t u (ap (λ r. r.0) both))
    ∙ ap (λ r. by_callback u (after r.1)) both
