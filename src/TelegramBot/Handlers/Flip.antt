-- ===== src/TelegramBot/Handlers/Flip.antt =====
-- The command and the buttons of the coin flip (src/casino_bot/telegram_bot/handlers.py).
use Prim.Native.String.{String}
use casino_bot.Prelude.{ℤ, Bool, ◌&&◌, Option, none, some, List, [], ◌∷◌, if◌then◌else◌}
use casino_bot.Python.{lift, pure, ◌>>=◌, ◌>>◌}
use casino_bot.Python.Text.{parse_int, starts_with, split_at, strip}
use casino_bot.Settings.{Settings}
use casino_bot.Games.Registry.{Games}
use casino_bot.TelegramBot.GameTexts.{
  flip_keyboard_caption, flip_no_quick_stakes_message, flip_usage_hint,
}
use casino_bot.TelegramBot.Users.{command_idempotency_key, callback_idempotency_key}
use casino_bot.TelegramBot.Chat.{Bot, Turn, answered, send, reply, edit_or_reply}
use casino_bot.TelegramBot.Delivery.{
  deliver_flip_committed_command, deliver_flip_committed_callback,
}
use casino_bot.TelegramBot.Handlers.Work.{
  Command, Callback, with_user, Snapshot, prompt_allowed, prompt_or_limited, action_allowed,
  bet_or_limited,
}
use casino_bot.TelegramBot.Handlers.Replies.{
  outcome_of, is_flip_outcome, is_committed, telegram_game_reply_from_snapshot,
}

abbrev pub shows_flip : Snapshot → Bool
shows_flip snap = is_committed snap.status && is_flip_outcome (outcome_of snap.details)

unfoldable pub deliver_flip_command : Settings → Snapshot → Bot (Unit {0})
deliver_flip_command settings snap = do
  body ← lift (telegram_game_reply_from_snapshot settings snap)
  if shows_flip snap
      then deliver_flip_committed_command snap.bet_amount (outcome_of snap.details)
          snap.balance_line snap.idempotent_replay
      else reply body

unfoldable pub deliver_flip_callback : Settings → Turn → Snapshot → Bot (Unit {0})
deliver_flip_callback settings turn snap = do
  body ← lift (telegram_game_reply_from_snapshot settings snap)
  if shows_flip snap
      then deliver_flip_committed_callback turn snap.bet_amount (outcome_of snap.details)
          snap.balance_line snap.idempotent_replay
      else edit_or_reply turn body

-- The prompt of the command without an argument.
unfoldable pub flip_prompt : Settings → Turn → ℤ → Bot (Unit {0})
flip_prompt settings turn tid =
    prompt_allowed settings turn tid
    >>= prompt_or_limited settings tid "coin_flip" "flip:" flip_keyboard_caption
        flip_no_quick_stakes_message

-- `int(context.args[0])`, and the bet.
unfoldable pub flip_bet : Settings → Games → Turn → ℤ → ℤ → Option ℤ → Bot (Unit {0})
flip_bet settings games turn update_id tid none = reply flip_usage_hint
flip_bet settings games turn update_id tid (some bet_amount) =
    action_allowed settings turn tid
    >>= bet_or_limited settings games turn reply (deliver_flip_command settings) tid bet_amount
        (command_idempotency_key tid update_id) "coin_flip"

unfoldable pub flip_args : Settings → Games → Turn → ℤ → List String → ℤ → Bot (Unit {0})
unfolding flip_prompt flip_bet
flip_args settings games turn update_id [] tid = flip_prompt settings turn tid
flip_args settings games turn update_id (arg ∷ args) tid =
    flip_bet settings games turn update_id tid (parse_int arg)

unfoldable pub cmd_flip : Settings → Games → Turn → Command → Bot (Unit {0})
unfolding flip_args
cmd_flip settings games turn c =
    with_user c.has_message c.telegram_user_id (flip_args settings games turn c.update_id c.args)

-- `int(data.split(":", 1)[1])` of the data of a button; nothing is an exception of the code.
abbrev pub parsed_stake : Option (String × String) → Option ℤ
parsed_stake none = none
parsed_stake (some (prefix, stake)) = parse_int stake

abbrev pub button_data : Option String → String
button_data none = ""
button_data (some s) = strip s

unfoldable pub flip_button : Settings → Games → Turn → String → ℤ → Option ℤ → Bot (Unit {0})
flip_button settings games turn id tid none = send answered
flip_button settings games turn id tid (some bet_amount) =
    send answered
    >> action_allowed settings turn tid
    >>= bet_or_limited settings games turn (edit_or_reply turn)
        (deliver_flip_callback settings turn) tid bet_amount (callback_idempotency_key tid id)
        "coin_flip"

unfoldable pub callback_flip : Settings → Games → Turn → Callback → Bot (Unit {0})
unfolding flip_button
callback_flip settings games turn q = with_user q.has_message q.telegram_user_id λ tid.
    let pressed = button_data q.callback_data in
    if starts_with "flip:" pressed
    then flip_button settings games turn q.id tid (parsed_stake (split_at 58 pressed))
    else pure tt
