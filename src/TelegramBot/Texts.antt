-- ===== src/TelegramBot/Texts.antt =====
-- The other texts of the bot (src/casino_bot/telegram_bot/texts.py).
use Prim.Native.String.{String, ◌++◌}
use casino_bot.Prelude.{ℕ, ℤ, Bool, str_eq, Option, none, some, if◌then◌else◌}
use casino_bot.Python.{str_ℕ, str_ℤ}
use casino_bot.Python.Text.{strip}
use casino_bot.Settings.{Settings}
use casino_bot.Games.Registry.{is_enabled}
use casino_bot.Games.BonusWheel.{bonus_wheel_game_id}
use casino_bot.TelegramBot.GameTexts.{
  games_help_line, flip_help_line, wheel_help_line, rounds_help_line,
}

abbrev pub balance_unavailable : String
balance_unavailable = "Balance unavailable — your token account is not initialized yet."

abbrev pub not_linked_balance : String
not_linked_balance = "Balance unavailable — send /start to link your account first."

abbrev pub not_linked_profile : String
not_linked_profile = "Profile unavailable — send /start to link your account first."

abbrev pub generic_support_line : String
generic_support_line =
    "For help, contact your operator through the support channel configured for your deployment."

unfoldable pub welcome_message : ℕ → String
welcome_message internal_user_id =
    "Welcome! Your Telegram account is linked to this bot.\n\nInternal user id: "
    ++ str_ℕ internal_user_id
    ++ ".\n\nUse /help for available commands."

unfoldable pub help_message : Settings → String
help_message settings =
    "Available commands:\n/start — Register or reconnect (links your Telegram account)\n/help — Show this message\n/me — Show your Telegram id and linked internal user id\n/balance — Show your token balance (if initialized)\n"
    ++ games_help_line
    ++ "\n"
    ++ flip_help_line
    ++ "\n"
    ++ (if is_enabled bonus_wheel_game_id settings.games_enabled
        then wheel_help_line ++ "\n"
        else "")
    ++ rounds_help_line
    ++ "\n/status — Liveness vs database readiness (high level)\n/profile — Your linked account summary (non-sensitive fields)\n/admin — Where admin tools live (not in Telegram)\n/support — How to get help for this deployment"

unfoldable pub me_message : ℤ → Option ℕ → String
me_message telegram_user_id none =
    "Telegram user id: "
    ++ str_ℤ telegram_user_id
    ++ "\n\nInternal user id: not linked yet. Send /start to link your account."
me_message telegram_user_id (some internal_user_id) =
    "Telegram user id: "
    ++ str_ℤ telegram_user_id
    ++ "\nInternal user id: "
    ++ str_ℕ internal_user_id

unfoldable pub status_summary_text : Bool → String
status_summary_text database_ready =
    "Liveness: ok\nDatabase readiness: " ++ (if database_ready then "ok" else "unavailable")

unfoldable pub profile_message : ℕ → ℤ → Bool → String → String
profile_message internal_user_id telegram_user_id is_active created_at_iso =
    "User id: "
    ++ str_ℕ internal_user_id
    ++ "\nTelegram user id: "
    ++ str_ℤ telegram_user_id
    ++ "\nAccount: "
    ++ (if is_active then "active" else "inactive")
    ++ "\nCreated: "
    ++ created_at_iso

abbrev pub admin_message : String
admin_message =
    "Admin actions are not available via Telegram.\n\nUse the HTTP Admin API under /api/v1/admin/ (see the project README). Sign in via POST /api/v1/admin/login from a trusted client — do not send credentials or tokens in this chat."

unfoldable pub support_reply : String → String → String
support_reply support_text contact_url =
    let st = strip support_text in
    let cu = strip contact_url in
    if str_eq cu ""
    then (if str_eq st "" then generic_support_line else st)
    else (if str_eq st "" then "" else st ++ "\n\n") ++ "Contact link: " ++ cu
