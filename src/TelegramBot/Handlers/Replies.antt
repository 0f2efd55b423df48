-- ===== src/TelegramBot/Handlers/Replies.antt =====
-- The replies to a round (src/casino_bot/telegram_bot/handlers.py).
use Prim.Native.String.{String, ◌++◌}
use casino_bot.Prelude.{
  ℤ, pos, Bool, true, false, ◌||◌, str_eq, Option, none, some, [], if◌then◌else◌,
}
use casino_bot.Python.{
  Result, ok, err, type_error, value_error, int, Dict, Json, null, number, text, flag, get,
  bind_result,
}
use casino_bot.Python.Text.{parse_int}
use casino_bot.Settings.{Settings}
use casino_bot.Tokens.Format.{format_signed_token_amount}
use casino_bot.Database.{RoundStatus, committed, rejected, failed}
use casino_bot.Games.BonusWheel.{bonus_wheel_game_id}
use casino_bot.TelegramBot.GameTexts.{
  flip_rejected_round_user_message, flip_unexpected_error_message, flip_result_compact,
  wheel_result_compact, duplicate_notice,
}
use casino_bot.TelegramBot.Handlers.Work.{Snapshot}

abbrev pub details_of : Option Dict → Dict
details_of none = []
details_of (some d) = d

-- `details.get("outcome")`, where it is a text.
outcome_text : Option Json → String
outcome_text none = ""
outcome_text (some null) = ""
outcome_text (some (number n)) = ""
outcome_text (some (text s)) = s
outcome_text (some (flag b)) = ""

unfoldable pub outcome_of : Option Dict → String
unfolding outcome_text
outcome_of details = outcome_text (get "outcome" (details_of details))

unfoldable pub is_flip_outcome : String → Bool
is_flip_outcome outcome = str_eq outcome "win" || str_eq outcome "lose"

unfoldable pub is_wheel_outcome : String → Bool
is_wheel_outcome outcome =
    str_eq outcome "bust"
    || str_eq outcome "bronze"
    || str_eq outcome "silver"
    || str_eq outcome "gold"

int_or_error : Option ℤ → Result ℤ
int_or_error none = err (value_error "invalid literal for int()")
int_or_error (some n) = ok n

-- `int(details.get("payout_delta_units", 0))`.
int_of : Option Json → Result ℤ
unfolding int_or_error
int_of none = ok (pos 0)
int_of (some null) = err (type_error "int() argument must be a string or a number")
int_of (some (number n)) = ok n
int_of (some (text s)) = int_or_error (parse_int s)
int_of (some (flag b)) = ok (if b then pos 1 else pos 0)

-- The text of what a spin has moved.
unfoldable pub net_change : Settings → Option Dict → Result String
unfolding int_of
net_change settings details =
    bind_result (int_of (get "payout_delta_units" (details_of details)))
      λ pu. format_signed_token_amount (int pu) (int settings.token_unit_scale)

abbrev pub is_committed : RoundStatus → Bool
is_committed committed = true
is_committed rejected = false
is_committed failed = false

-- The text of a rejected round, of either game.
abbrev pub rejected_reply : Snapshot → String
rejected_reply snap =
    flip_rejected_round_user_message snap.details ++ duplicate_notice snap.idempotent_replay

unfoldable pub flip_reply : Snapshot → RoundStatus → String
flip_reply snap rejected = rejected_reply snap
flip_reply snap failed = flip_unexpected_error_message
flip_reply snap committed =
    if is_flip_outcome (outcome_of snap.details)
    then flip_result_compact snap.bet_amount (outcome_of snap.details) snap.balance_line
        snap.idempotent_replay
    else flip_unexpected_error_message

unfoldable pub wheel_reply : Settings → Snapshot → RoundStatus → Result String
wheel_reply settings snap rejected = ok (rejected_reply snap)
wheel_reply settings snap failed = ok flip_unexpected_error_message
wheel_reply settings snap committed =
    if is_wheel_outcome (outcome_of snap.details)
    then bind_result (net_change settings snap.details) (λ net_s. ok (
        wheel_result_compact snap.bet_amount (outcome_of snap.details) net_s snap.balance_line
          snap.idempotent_replay))
    else ok flip_unexpected_error_message

unfoldable pub telegram_game_reply_from_snapshot : Settings → Snapshot → Result String
unfolding flip_reply wheel_reply
telegram_game_reply_from_snapshot settings snap =
    if str_eq snap.game_id "coin_flip"
    then ok (flip_reply snap snap.status)
    else if str_eq snap.game_id bonus_wheel_game_id
    then wheel_reply settings snap snap.status
    else ok flip_unexpected_error_message
