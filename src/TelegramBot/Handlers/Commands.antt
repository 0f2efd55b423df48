-- ===== src/TelegramBot/Handlers/Commands.antt =====
-- The commands that play no game (src/casino_bot/telegram_bot/handlers.py).
use Prim.Native.String.{String}
use casino_bot.Prelude.{
  ℕ, ℤ, Bool, true, false, not, ◌&&◌, str_eq, Option, none, some, if◌then◌else◌,
}
use casino_bot.Python.{Result, ok, err, pure, ◌>>=◌, ◌>>◌}
use casino_bot.Settings.{Settings}
use casino_bot.Database.{User, Db, commit}
use casino_bot.Games.Registry.{Games, list_enabled_games}
use casino_bot.TelegramBot.GameTexts.{games_catalog_message, flip_unexpected_error_message}
use casino_bot.TelegramBot.Texts.{
  welcome_message, help_message, me_message, status_summary_text, admin_message, support_reply,
  not_linked_balance, not_linked_profile, profile_message,
}
use casino_bot.TelegramBot.Users.{
  ensure_telegram_user, get_user_by_telegram_id, resolve_balance_reply,
}
use casino_bot.TelegramBot.Chat.{Bot, Turn, reply, attempt, in_session, rolled_back}
use casino_bot.TelegramBot.Handlers.Work.{Command, with_user, id_of, lookup_user_id_for_log}
use casino_bot.TelegramBot.Handlers.History.{rounds_history_work}

-- The reading of a user for the log, where the update has one.
abbrev pub log_user : Turn → Option ℤ → Bot (Unit {0})
log_user turn none = pure tt
log_user turn (some tid) = lookup_user_id_for_log turn tid >> pure tt

-- `if msg is None: return`, and the reading of a user for the log.
abbrev pub with_message : Turn → Bool → Option ℤ → Bot (Unit {0}) → Bot (Unit {0})
with_message turn false telegram_user_id m = pure tt
with_message turn true telegram_user_id m = log_user turn telegram_user_id >> m

unfoldable pub database_ready_for_status : Settings → Turn → Bool
database_ready_for_status settings turn =
    if not (str_eq settings.environment "production") && settings.drill_force_db_not_ready
    then false
    else turn.database_answers

unfoldable pub start_work : ℤ → Db ℕ
start_work tid = rolled_back (ensure_telegram_user tid >>= λ user. commit >> pure user.id)

unfoldable pub start_reply : Result ℕ → Bot (Unit {0})
start_reply (ok internal_id) = reply (welcome_message internal_id)
start_reply (err e) = reply "Sorry, something went wrong. Please try again later."

unfoldable pub cmd_start : Command → Bot (Unit {0})
unfolding start_work start_reply
cmd_start c =
    with_user c.has_message c.telegram_user_id
      λ tid. attempt (in_session (start_work tid)) >>= start_reply

unfoldable pub cmd_help : Settings → Turn → Command → Bot (Unit {0})
cmd_help settings turn c =
    with_message turn c.has_message c.telegram_user_id (reply (help_message settings))

unfoldable pub me_lookup : ℤ → Db (Option ℕ)
me_lookup tid = get_user_by_telegram_id tid >>= λ user. pure (id_of user)

unfoldable pub cmd_me : Command → Bot (Unit {0})
unfolding me_lookup
cmd_me c =
    with_user c.has_message c.telegram_user_id
      λ tid. in_session (me_lookup tid) >>= λ internal_id. reply (me_message tid internal_id)

unfoldable pub cmd_status : Settings → Turn → Command → Bot (Unit {0})
unfolding database_ready_for_status
cmd_status settings turn c =
    with_message turn c.has_message c.telegram_user_id
      (reply (status_summary_text (database_ready_for_status settings turn)))

abbrev pub format_user_created_at : Option String → String
format_user_created_at none = "unknown"
format_user_created_at (some iso) = iso

unfoldable pub profile_of : Turn → ℤ → Option User → String
profile_of turn tid none = not_linked_profile
profile_of turn tid (some user) =
    profile_message user.id tid user.is_active (format_user_created_at (turn.created_at user.id))

unfoldable pub cmd_profile : Turn → Command → Bot (Unit {0})
unfolding profile_of
cmd_profile turn c =
    with_user c.has_message c.telegram_user_id
      λ tid. in_session (get_user_by_telegram_id tid) >>= λ user. reply (profile_of turn tid user)

unfoldable pub cmd_admin : Turn → Command → Bot (Unit {0})
cmd_admin turn c = with_message turn c.has_message c.telegram_user_id (reply admin_message)

unfoldable pub cmd_support : Settings → Turn → Command → Bot (Unit {0})
cmd_support settings turn c =
    with_message turn c.has_message c.telegram_user_id
      (reply (support_reply settings.telegram.support_text settings.telegram.support_contact_url))

unfoldable pub cmd_games : Settings → Games → Turn → Command → Bot (Unit {0})
cmd_games settings games turn c =
    with_message turn c.has_message c.telegram_user_id
      (reply (games_catalog_message (list_enabled_games settings games)))

unfoldable pub rounds_reply : Result String → Bot (Unit {0})
rounds_reply (ok body) = reply body
rounds_reply (err e) = reply flip_unexpected_error_message

unfoldable pub cmd_rounds : Settings → Command → Bot (Unit {0})
unfolding rounds_reply
cmd_rounds settings c =
    with_user c.has_message c.telegram_user_id
      λ tid. attempt (in_session (rounds_history_work settings tid)) >>= rounds_reply

unfoldable pub balance_of_user : Settings → Option User → Db String
balance_of_user settings none = pure not_linked_balance
balance_of_user settings (some user) = resolve_balance_reply settings user.id

unfoldable pub balance_work : Settings → ℤ → Db String
unfolding balance_of_user
balance_work settings tid = get_user_by_telegram_id tid >>= balance_of_user settings

unfoldable pub cmd_balance : Settings → Command → Bot (Unit {0})
unfolding balance_work
cmd_balance settings c =
    with_user c.has_message c.telegram_user_id
      λ tid. in_session (balance_work settings tid) >>= reply
