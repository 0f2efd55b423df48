-- ===== src/TelegramBot/GameTexts.antt =====
-- The texts of the games (src/casino_bot/telegram_bot/game_texts.py).
use Prim.Native.String.{String, ◌++◌, [] as empty, ◌∷◌ as str_cons}
use casino_bot.Prelude.{
  ℤ, pos, leb_ℤ, Bool, ◌||◌, str_eq, Option, none, some, List, [], ◌∷◌, if◌then◌else◌,
}
use casino_bot.Python.{str_ℤ, Dict, get}
use casino_bot.Python.Text.{lower, starts_with, rstrip}
use casino_bot.Settings.{Settings}
use casino_bot.Admin.Security.{claim_text}
use casino_bot.Games.Types.{GameMeta}

abbrev pub flip_help_line : String
flip_help_line =
    "/flip — Coin flip (quick-stake buttons only show amounts you can afford, or /flip <amount> with a whole number)"

abbrev pub rounds_help_line : String
rounds_help_line = "/rounds — Recent committed rounds for enabled games (UTC, capped)"

abbrev pub games_help_line : String
games_help_line = "/games — List enabled games and stake limits"

abbrev pub wheel_help_line : String
wheel_help_line = "/wheel — Bonus wheel (weighted tiers; quick buttons or /wheel <whole number>)"

abbrev pub wheel_not_enabled_message : String
wheel_not_enabled_message =
    "Bonus wheel is turned off on this bot. The operator must add \"bonus_wheel\" to the GAMES_ENABLED setting (JSON list, e.g. [\"coin_flip\",\"bonus_wheel\"]) and restart the bot process."

abbrev pub audio_stub_line : String
audio_stub_line = "Audio prize delivery in Telegram is not wired yet — text only."

unfoldable pub access_tokens_required_user_message : ℤ → String
access_tokens_required_user_message min_access_tokens =
    if leb_ℤ min_access_tokens (pos 1)
    then "You need tokens to play games. Your balance was not changed."
    else "You need at least "
      ++ str_ℤ min_access_tokens
      ++ " token(s) to play games. Your balance was not changed."

abbrev pub wheel_audio_sequence_fallback_notice : String
wheel_audio_sequence_fallback_notice = "(Voice cue unavailable — continuing with text only.)"

-- How a game is played, where the catalogue knows it.
play_line : String → String
play_line game_id =
    if str_eq game_id "coin_flip"
    then "  Play: /flip\n"
    else if str_eq game_id "bonus_wheel"
    then "  Play: /wheel\n"
    else ""

-- The lines of each game, each with the break that follows it.
catalog_lines : List GameMeta → String
unfolding play_line
catalog_lines [] = ""
catalog_lines (m ∷ metas) =
    "• "
    ++ m.title
    ++ " — "
    ++ m.description
    ++ "\n  Stake: "
    ++ str_ℤ m.min_bet
    ++ "–"
    ++ str_ℤ m.max_bet
    ++ " tokens.\n"
    ++ play_line m.game_id
    ++ "\n"
    ++ catalog_lines metas

unfoldable pub games_catalog_message : List GameMeta → String
unfolding catalog_lines
games_catalog_message [] = "No games are enabled on this bot deployment."
games_catalog_message (m ∷ metas) = rstrip (
    "Games you can play (also see /help):\n\n"
    ++ catalog_lines (m ∷ metas)
    ++ "Use /rounds for your recent committed rounds.")

abbrev pub flip_keyboard_caption : String
flip_keyboard_caption =
    "Coin flip (even money): tap a quick stake (buttons show only amounts you can afford).\nEach tap is one round. Win credits your stake; lose debits your stake.\nOr send /flip <whole number> between min and max (server settings).\n"
    ++ audio_stub_line

abbrev pub flip_no_quick_stakes_message : String
flip_no_quick_stakes_message =
    "You do not have enough tokens for any of the quick stakes (1 / 5 / 10). Try /balance, or /flip <amount> once you have enough for that stake."

abbrev pub telegram_rate_limited_message : String
telegram_rate_limited_message = "Too many requests. Please slow down and try again shortly."

-- `GAME_ENGINE_REJECT_USER_MESSAGES.get(code, …)`.
unfoldable pub engine_reject_message : String → String
engine_reject_message code =
    if str_eq code "bet_below_min"
    then "That stake is below the minimum allowed for this game."
    else if str_eq code "bet_above_max"
    then "That stake is above the maximum allowed for this game."
    else if str_eq code "game_disabled" || str_eq code "unknown_game"
    then "This game is not available right now."
    else if str_eq code "insufficient_balance"
    then "Not enough tokens for that stake. Check /balance or use a smaller amount."
    else "This action cannot be completed. Try a different stake or try again later."

-- The message of any rejection but an active cooldown with its seconds.
plain_rejection : Settings → String → String
plain_rejection settings code =
    if str_eq code "access_tokens_required"
    then access_tokens_required_user_message settings.game_access_min_tokens
    else engine_reject_message code

unfoldable pub game_engine_rejected_user_message : Settings → String → Option ℤ → String
unfolding plain_rejection
game_engine_rejected_user_message settings code none = plain_rejection settings code
game_engine_rejected_user_message settings code (some seconds) =
    if str_eq code "cooldown_active"
    then "Cooldown active — try again in about " ++ str_ℤ seconds ++ " second(s)."
    else plain_rejection settings code

abbrev pub flip_usage_hint : String
flip_usage_hint =
    "Usage: /flip <whole number> (tokens), or use the buttons below.\nExample: /flip 10"

abbrev pub duplicate_notice : Bool → String
duplicate_notice idempotent_replay =
    if idempotent_replay then "\n\n(Already processed — duplicate tap.)" else ""

unfoldable pub flip_result_compact : ℤ → String → String → Bool → String
flip_result_compact stake_tokens outcome balance_line idempotent_replay =
    let is_win = str_eq outcome "win" in
    "Coin flip\nStake: "
    ++ str_ℤ stake_tokens
    ++ " tokens\nResult: "
    ++ (if is_win then "Win" else "Lose")
    ++ "\n"
    ++ balance_line
    ++ (if is_win then "\n\n" ++ audio_stub_line else "")
    ++ duplicate_notice idempotent_replay

-- `part in whole`.
contains_text : String → String → Bool
contains_text part empty = str_eq part empty
contains_text part (str_cons c s) = starts_with part (str_cons c s) || contains_text part s

unfoldable pub flip_rejected_round_user_message : Option Dict → String
unfolding contains_text
flip_rejected_round_user_message none =
    "This round could not be completed. Check your balance and try again."
flip_rejected_round_user_message (some []) =
    "This round could not be completed. Check your balance and try again."
flip_rejected_round_user_message (some (entry ∷ details)) =
    if contains_text "negative balance"
      (lower (claim_text (get "rejection_reason" (entry ∷ details))))
    then "Not enough tokens for that stake. Try a smaller amount or /balance."
    else "This round could not be completed. Try again later."

abbrev pub flip_unexpected_error_message : String
flip_unexpected_error_message = "Something went wrong. Please try again later."

unfoldable pub rounds_history_header : ℤ → String
rounds_history_header limit = "Last " ++ str_ℤ limit ++ " committed round(s), UTC (newest first):"

abbrev pub wheel_keyboard_caption : String
wheel_keyboard_caption =
    "Bonus wheel: one spin, weighted tiers (bust / bronze / silver / gold).\nTap a quick stake or send /wheel <whole number> within server min/max.\n"
    ++ audio_stub_line

abbrev pub wheel_no_quick_stakes_message : String
wheel_no_quick_stakes_message =
    "You do not have enough tokens for any of the quick stakes (1 / 5 / 10). Try /balance, or /wheel <amount> once you have enough for that stake."

abbrev pub wheel_usage_hint : String
wheel_usage_hint =
    "Usage: /wheel <whole number> (tokens), or use the quick buttons.\nExample: /wheel 10"

-- `_WHEEL_TIER_LABELS.get(outcome, outcome)`.
unfoldable pub wheel_tier_label : String → String
wheel_tier_label outcome =
    if str_eq outcome "bust"
    then "Bust (lost stake)"
    else if str_eq outcome "bronze"
    then "Bronze (+0.5× stake)"
    else if str_eq outcome "silver"
    then "Silver (+1× stake)"
    else if str_eq outcome "gold"
    then "Gold (+2.5× stake)"
    else outcome

unfoldable pub wheel_result_compact : ℤ → String → String → String → Bool → String
unfolding wheel_tier_label
wheel_result_compact stake_tokens outcome net_change_tokens balance_line idempotent_replay =
    "Bonus wheel\nStake: "
    ++ str_ℤ stake_tokens
    ++ " tokens\nTier: "
    ++ wheel_tier_label outcome
    ++ "\nNet change: "
    ++ net_change_tokens
    ++ " tokens\n"
    ++ balance_line
    ++ duplicate_notice idempotent_replay

abbrev pub rounds_empty_message : String
rounds_empty_message = "No committed rounds yet for enabled games. Try /games, /flip, or /wheel."
