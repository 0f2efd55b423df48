-- ===== src/TelegramBot/Users.antt =====
-- The users of the bot (src/casino_bot/telegram_bot/user_ops.py) and the idempotency keys of their
-- commands and callbacks (src/casino_bot/telegram_bot/flip_idempotency.py).
use Prim.Native.String.{String, ◌++◌ as str_append}
use casino_bot.Prelude.{
  ℕ, ℤ, leb_ℤ, ◌≡◌, refl, Bool, true, Option, none, some, first, first-append_one, arith,
  Option-cases, Bool-cases, inl, inr,
}
use casino_bot.Python.{Result, ok, int, lift, str_ℤ, pure, ◌>>=◌}
use casino_bot.Settings.{Settings}
use casino_bot.Tokens.Format.{format_balance_message_units}
use casino_bot.TelegramBot.Texts.{balance_unavailable}
use casino_bot.Database.{
  TokenAccount, has_account, User, Session, Db, query, begin_work, is_found, audit_log,
}
use casino_bot.Economy.{same_ℤ, create_user, shares_identity, add_account}

-- `update_id` and the identifier of a callback come from Telegram.
unfoldable pub command_idempotency_key : ℤ → ℤ → String
command_idempotency_key telegram_user_id update_id =
    str_append "tg:" (str_append (str_ℤ telegram_user_id) (str_append ":cmd:" (str_ℤ update_id)))

unfoldable pub callback_idempotency_key : ℤ → String → String
callback_idempotency_key telegram_user_id callback_query_id =
    str_append "tg:" (str_append (str_ℤ telegram_user_id) (str_append ":cb:" callback_query_id))

abbrev pub has_telegram_id : ℤ → User → Bool
has_telegram_id telegram_user_id u = same_ℤ (some telegram_user_id) u.telegram_user_id

unfoldable pub get_user_by_telegram_id : ℤ → Db (Option User)
get_user_by_telegram_id telegram_user_id =
    query (λ t. first (has_telegram_id telegram_user_id) t.users)

unfoldable pub user_or_new : ℤ → Option User → Db User
user_or_new telegram_user_id (some user) = pure user
user_or_new telegram_user_id none =
    create_user "telegram_bot" none (some telegram_user_id) none none

unfoldable pub ensure_telegram_user : ℤ → Db User
unfolding get_user_by_telegram_id user_or_new
ensure_telegram_user telegram_user_id = do
  user ← get_user_by_telegram_id telegram_user_id
  user_or_new telegram_user_id user

unfoldable pub balance_text : Settings → Option TokenAccount → Result String
balance_text settings none = ok balance_unavailable
balance_text settings (some acc) =
    format_balance_message_units (int acc.balance_units) (int settings.token_unit_scale)

unfoldable pub resolve_balance_reply : Settings → ℕ → Db String
unfolding balance_text
resolve_balance_reply settings user_id = do
  line ← query (λ t. balance_text settings (first (has_account user_id) t.accounts))
  lift line

same_own : (n : ℤ) → leb_ℤ n n ≡ true
same_own n = ground arith

new_found :
    (id : ℤ) (s : Session) {u : User}
    → first (has_telegram_id id) s.work.users ≡ none
    → (create_user "telegram_bot" none (some id) none none s).0 ≡ ok u
    → first
        (has_telegram_id id)
        (create_user "telegram_bot" none (some id) none none s).1.work.users
      ≡ some u
unfolding create_user add_account audit_log
new_found id s {u} absent h =
    elim (Bool-cases (is_found (first (shares_identity (some id) none) s.work.users))) [
      | inl t ↦ absurd (ground (arith, t, h))
      | inr f ↦
          ground
            (arith, f, h, absent, same_own id, first-append_one (has_telegram_id id) s.work.users u)
    ]

pub ensure_finds :
    (id : ℤ) (s : Session) {u : User}
    → (ensure_telegram_user id s).0 ≡ ok u
    → first (has_telegram_id id) (ensure_telegram_user id s).1.work.users ≡ some u
unfolding ensure_telegram_user get_user_by_telegram_id user_or_new
ensure_finds id s {u} h = elim (Option-cases (first (has_telegram_id id) s.work.users)) [
  | inl e ↦ ground (arith, e, h, new_found id (begin_work s s.work) {u = u} e)
  | inr (x, e) ↦ ground (arith, e, h)
]

pub ensure_known :
    (id : ℤ) (s : Session) {u : User}
    → first (has_telegram_id id) s.work.users ≡ some u
    → ensure_telegram_user id s ≡ (ok u, begin_work s s.work)
unfolding ensure_telegram_user get_user_by_telegram_id user_or_new
ensure_known id s known = rw known refl

-- The user that a first call has found or created for an account of Telegram is the one that a later
-- call in the state that it left returns, and that call changes no table.
pub ensure_idem :
    (id : ℤ) (s : Session) {u : User}
    → (ensure_telegram_user id s).0 ≡ ok u
    → (let s' = (ensure_telegram_user id s).1 in
        ensure_telegram_user id s' ≡ (ok u, begin_work s' s'.work))
ensure_idem id s {u} h = ensure_known id (ensure_telegram_user id s).1 (ensure_finds id s h)
