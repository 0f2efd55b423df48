-- ===== src/TelegramBot/Handlers/Wheel.antt =====
-- The command and the buttons of the bonus wheel (src/casino_bot/telegram_bot/handlers.py).
use Prim.Native.String.{String}
use casino_bot.Prelude.{ℤ, Bool, ◌&&◌, Option, none, some, List, [], ◌∷◌, if◌then◌else◌}
use casino_bot.Python.{lift, pure, ◌>>=◌, ◌>>◌}
use casino_bot.Python.Text.{parse_int, starts_with, split_at}
use casino_bot.Settings.{Settings}
use casino_bot.Games.BonusWheel.{bonus_wheel_game_id}
use casino_bot.Games.Registry.{Games, is_enabled}
use casino_bot.TelegramBot.GameTexts.{
  wheel_not_enabled_message, wheel_keyboard_caption, wheel_no_quick_stakes_message,
  wheel_usage_hint,
}
use casino_bot.TelegramBot.Users.{command_idempotency_key, callback_idempotency_key}
use casino_bot.TelegramBot.Chat.{Bot, Turn, answered, send, reply, edit_or_reply}
use casino_bot.TelegramBot.Delivery.{
  deliver_wheel_committed_command, deliver_wheel_committed_callback,
}
use casino_bot.TelegramBot.Handlers.Work.{
  Command, Callback, with_user, Snapshot, prompt_allowed, prompt_or_limited, action_allowed,
  bet_or_limited,
}
use casino_bot.TelegramBot.Handlers.Replies.{
  outcome_of, is_wheel_outcome, is_committed, net_change, telegram_game_reply_from_snapshot,
}
use casino_bot.TelegramBot.Handlers.Flip.{parsed_stake, button_data}

abbrev pub shows_wheel : Snapshot → Bool
shows_wheel snap = is_committed snap.status && is_wheel_outcome (outcome_of snap.details)

abbrev pub is_wheel_enabled : Settings → Bool
is_wheel_enabled settings = is_enabled bonus_wheel_game_id settings.games_enabled

-- A spin that can be shown, with the text of what it has moved.
unfoldable pub wheel_shown_command : Settings → Turn → Snapshot → Bot (Unit {0})
wheel_shown_command settings turn snap = do
  net_s ← lift (net_change settings snap.details)
  deliver_wheel_committed_command turn snap.bet_amount (outcome_of snap.details) net_s
      snap.balance_line snap.idempotent_replay

unfoldable pub deliver_wheel_command : Settings → Turn → Snapshot → Bot (Unit {0})
unfolding wheel_shown_command
deliver_wheel_command settings turn snap = do
  body ← lift (telegram_game_reply_from_snapshot settings snap)
  if shows_wheel snap then wheel_shown_command settings turn snap else reply body

unfoldable pub wheel_shown_callback : Settings → Turn → Snapshot → Bot (Unit {0})
wheel_shown_callback settings turn snap = do
  net_s ← lift (net_change settings snap.details)
  deliver_wheel_committed_callback turn snap.bet_amount (outcome_of snap.details) net_s
      snap.balance_line snap.idempotent_replay

unfoldable pub deliver_wheel_callback : Settings → Turn → Snapshot → Bot (Unit {0})
unfolding wheel_shown_callback
deliver_wheel_callback settings turn snap = do
  body ← lift (telegram_game_reply_from_snapshot settings snap)
  if shows_wheel snap then wheel_shown_callback settings turn snap else edit_or_reply turn body

unfoldable pub wheel_prompt : Settings → Turn → ℤ → Bot (Unit {0})
wheel_prompt settings turn tid =
    prompt_allowed settings turn tid
    >>= prompt_or_limited settings tid bonus_wheel_game_id "wheel:" wheel_keyboard_caption
        wheel_no_quick_stakes_message

unfoldable pub wheel_bet : Settings → Games → Turn → ℤ → ℤ → Option ℤ → Bot (Unit {0})
wheel_bet settings games turn update_id tid none = reply wheel_usage_hint
wheel_bet settings games turn update_id tid (some bet_amount) =
    action_allowed settings turn tid
    >>= bet_or_limited settings games turn reply (deliver_wheel_command settings turn) tid
        bet_amount (command_idempotency_key tid update_id) bonus_wheel_game_id

unfoldable pub wheel_args : Settings → Games → Turn → ℤ → List String → ℤ → Bot (Unit {0})
unfolding wheel_prompt wheel_bet
wheel_args settings games turn update_id [] tid = wheel_prompt settings turn tid
wheel_args settings games turn update_id (arg ∷ args) tid =
    wheel_bet settings games turn update_id tid (parse_int arg)

unfoldable pub cmd_wheel : Settings → Games → Turn → Command → Bot (Unit {0})
unfolding wheel_args
cmd_wheel settings games turn c = with_user c.has_message c.telegram_user_id λ tid.
    if is_wheel_enabled settings
    then wheel_args settings games turn c.update_id c.args tid
    else reply wheel_not_enabled_message

unfoldable pub enabled_wheel_button : Settings → Games → Turn → String → ℤ → ℤ → Bot (Unit {0})
enabled_wheel_button settings games turn id tid bet_amount =
    action_allowed settings turn tid
    >>= bet_or_limited settings games turn (edit_or_reply turn)
        (deliver_wheel_callback settings turn) tid bet_amount (callback_idempotency_key tid id)
        bonus_wheel_game_id

unfoldable pub wheel_button : Settings → Games → Turn → String → ℤ → Option ℤ → Bot (Unit {0})
unfolding enabled_wheel_button
wheel_button settings games turn id tid none = send answered
wheel_button settings games turn id tid (some bet_amount) =
    send answered
    >> (if is_wheel_enabled settings
        then enabled_wheel_button settings games turn id tid bet_amount
        else edit_or_reply turn wheel_not_enabled_message)

unfoldable pub callback_wheel : Settings → Games → Turn → Callback → Bot (Unit {0})
unfolding wheel_button
callback_wheel settings games turn q = with_user q.has_message q.telegram_user_id λ tid.
    let pressed = button_data q.callback_data in
    if starts_with "wheel:" pressed
    then wheel_button settings games turn q.id tid (parsed_stake (split_at 58 pressed))
    else pure tt
