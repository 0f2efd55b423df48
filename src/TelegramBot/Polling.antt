-- ===== src/TelegramBot/Polling.antt =====
-- Which handler answers an update (src/casino_bot/telegram_bot/polling.py), and whether the bot may
-- start (src/casino_bot/telegram_bot/preflight.py).
use Prim.Native.Char.{Char, code}
use Prim.Native.String.{String, ◌++◌, [] as empty, ◌∷◌ as str_cons}
use casino_bot.Prelude.{
  ℕ, ◌+◌, leb, Bool, true, false, not, ◌&&◌, ◌||◌, ◌==◌, str_eq, Option, none, some, List, [], ◌∷◌,
  if◌then◌else◌,
}
use casino_bot.Python.{pure}
use casino_bot.Python.Text.{is_digit, strip, split_at}
use casino_bot.Settings.{Settings}
use casino_bot.Games.Registry.{Games, is_enabled}
use casino_bot.TelegramBot.Chat.{Chat, Bot, Turn}
use casino_bot.TelegramBot.Handlers.Work.{Command, Callback}
use casino_bot.TelegramBot.Handlers.Flip.{cmd_flip, callback_flip}
use casino_bot.TelegramBot.Handlers.Wheel.{cmd_wheel, callback_wheel}
use casino_bot.TelegramBot.Handlers.Commands.{
  cmd_start, cmd_help, cmd_me, cmd_status, cmd_profile, cmd_admin, cmd_support, cmd_games,
  cmd_rounds, cmd_balance,
}

-- `\d+$`: digits, and perhaps a break at the end.
unfoldable pub digits_to_end : Bool → String → Bool
digits_to_end seen empty = seen
digits_to_end seen (str_cons c s) =
    (is_digit c && digits_to_end true s) || (seen && code c == 10 && str_eq s "")

-- A pattern `^prefix\d+$` at the start of a text.
unfoldable pub matches_stake : (prefix : String) → String → Bool
unfolding digits_to_end
matches_stake empty s = digits_to_end false s
matches_stake (str_cons c p) empty = false
matches_stake (str_cons c p) (str_cons d s) = code c == code d && matches_stake p s

-- An update, as the library hands it on: a command with its name, or a button.
pub data Update : Type 0 where
  command : String → Command → Update
  pressed : Callback → Update

unfoldable pub run_command : Settings → Games → Turn → String → Command → Bot (Unit {0})
run_command settings games turn name c =
    if str_eq name "start"
    then cmd_start c
    else if str_eq name "help"
    then cmd_help settings turn c
    else if str_eq name "me"
    then cmd_me c
    else if str_eq name "balance"
    then cmd_balance settings c
    else if str_eq name "flip"
    then cmd_flip settings games turn c
    else if str_eq name "wheel"
    then cmd_wheel settings games turn c
    else if str_eq name "games"
    then cmd_games settings games turn c
    else if str_eq name "rounds"
    then cmd_rounds settings c
    else if str_eq name "status"
    then cmd_status settings turn c
    else if str_eq name "profile"
    then cmd_profile turn c
    else if str_eq name "admin"
    then cmd_admin turn c
    else if str_eq name "support"
    then cmd_support settings turn c
    else pure tt

abbrev pub data_matches : String → Option String → Bool
data_matches prefix none = false
data_matches prefix (some s) = matches_stake prefix s

unfoldable pub run_button : Settings → Games → Turn → Callback → Bot (Unit {0})
run_button settings games turn q =
    if data_matches "flip:" q.callback_data
    then callback_flip settings games turn q
    else if data_matches "wheel:" q.callback_data
    then callback_wheel settings games turn q
    else pure tt

-- The handlers that `build_application` adds.
unfoldable pub handle : Settings → Games → Turn → Update → Bot (Unit {0})
unfolding run_command run_button
handle settings games turn (command name c) = run_command settings games turn name c
handle settings games turn (pressed q) = run_button settings games turn q

-- `[0-9]{n,}`.
count_digits : String → ℕ → Option ℕ
count_digits empty n = some n
count_digits (str_cons c s) n =
    let more = count_digits s (n + 1) in if is_digit c then more else none

is_secret_char : Char → Bool
is_secret_char c =
    is_digit c
    || (leb 65 (code c) && leb (code c) 90)
    || (leb 97 (code c) && leb (code c) 122)
    || code c == 95
    || code c == 45

count_secret : String → ℕ → Option ℕ
unfolding is_secret_char
count_secret empty n = some n
count_secret (str_cons c s) n =
    let more = count_secret s (n + 1) in if is_secret_char c then more else none

abbrev at_least : ℕ → Option ℕ → Bool
at_least n none = false
at_least n (some m) = leb n m

token_parts : Option (String × String) → Bool
unfolding count_digits count_secret
token_parts none = false
token_parts (some (bot_id, secret)) =
    at_least 6 (count_digits bot_id 0) && at_least 30 (count_secret secret 0)

unfoldable pub telegram_bot_token_shape_valid : String → Bool
unfolding token_parts
telegram_bot_token_shape_valid token = token_parts (split_at 58 (strip token))

-- `repr` of a text without quotes and escapes, and of a list of such texts.
repr : String → String
repr s = "'" ++ s ++ "'"

repr_rest : List String → String
unfolding repr
repr_rest [] = "]"
repr_rest (s ∷ texts) = ", " ++ repr s ++ repr_rest texts

repr_list : List String → String
unfolding repr_rest
repr_list [] = "[]"
repr_list (s ∷ texts) = "[" ++ repr s ++ repr_rest texts

unfoldable pub telegram_polling_startup_error : Settings → Option String
unfolding repr_list repr
telegram_polling_startup_error cfg =
    let token = strip cfg.telegram.bot_token in
    if str_eq token ""
    then some
        "TELEGRAM_BOT_TOKEN is not set. Add your bot token to the environment (see docs/telegram-local-run.md)."
    else if not (telegram_bot_token_shape_valid token)
    then some
        "TELEGRAM_BOT_TOKEN does not look like a real BotFather API token (expected digits, colon, then a long secret, e.g. `123456789:AAH…`). Replace documentation placeholders such as `TOKEN_FROM_BOTFATHER` with the value from @BotFather (/token)."
    else if not cfg.telegram.bot_enabled
    then some
        "TELEGRAM_BOT_ENABLED is false. Set TELEGRAM_BOT_ENABLED=true to start the polling runner. Keep it false in environments where Telegram must not run unless you intend to."
    else if not (is_enabled cfg.environment cfg.telegram.polling_allowed_environments)
    then some (
        "Telegram polling is not allowed for ENVIRONMENT="
        ++ repr cfg.environment
        ++ ". Allowed: "
        ++ repr_list cfg.telegram.polling_allowed_environments
        ++ ". Adjust TELEGRAM_POLLING_ALLOWED_ENVIRONMENTS only if you explicitly accept polling in this environment.")
    else none

-- `run_polling`: one update after the other. The library logs what a handler raises and goes on.
unfoldable pub run_updates : Settings → Games → List (Turn × Update) → Chat → Chat
run_updates settings games [] c = c
run_updates settings games ((turn, update) ∷ updates) c =
    run_updates settings games updates (handle settings games turn update c).1
