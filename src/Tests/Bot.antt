-- ===== src/Tests/Bot.antt =====
-- The bot at concrete inputs.
use Prim.Native.String.{String}
use mathlib.Core.List.{Perm}
use casino_bot.Prelude.{
  ℕ, pos, ◌≡◌, refl, true, false, Option, some, none, List, [], ◌∷◌, select, length, ◌++◌, first,
  update_first, ◌*ℤ◌, ◌+ℤ◌, arith,
}
use casino_bot.Python.{ok, ratio}
use casino_bot.Database.{in_block, insert_round, User, Tables, GameRound, committed}
use casino_bot.Economy.Balances.{balance_in, ledger_sum}
use casino_bot.Economy.Conservation.{IsConserved}
use casino_bot.Games.Registry.{
  bootstrap, is_enabled, compute_outcome as registry_compute_outcome, get as registry_get,
}
use casino_bot.TelegramBot.Chat.{Chat, Turn, open_session}
use casino_bot.TelegramBot.Handlers.Work.{Command, Callback, Snapshot, telegram_game_work}
use casino_bot.TelegramBot.Handlers.Flip.{cmd_flip}
use casino_bot.TelegramBot.Handlers.History.{history_rows}
use casino_bot.TelegramBot.Polling.{command, pressed, run_updates}
use casino_bot.TelegramBot.Updates.Sequences.{updates-IsConserved}
use casino_bot.TelegramBot.Answered.{Ends, flip-Ends}
use casino_bot.TelegramBot.Listing.{IsNewestFirst, is_wanted, smaller, history_rows_lem}
use casino_bot.TelegramBot.Users.{
  ensure_telegram_user, resolve_balance_reply, has_telegram_id, ensure_finds,
  get_user_by_telegram_id, user_or_new,
}
use casino_bot.Tokens.Format.{format_signed_token_amount, format_balance_message_units}
use casino_bot.Tokens.{tokens_whole_to_units, units_to_storage_float}
use casino_bot.Economy.{get_or_create_account, post_delta, check_delta, adjust_user_tokens}
use casino_bot.Rounds.{
  commit_round, settle, round_body, recover, play_round, round_or_new, execute_game_round, amounts,
}
use casino_bot.Games.Engine.{
  check_bounds, units_or_zero, last_committed_at, check_cooldown, check_access, check_balance,
  check_policy, find_game, play_new, replay_or_new, run_game_detailed_inner,
}
use casino_bot.Games.CoinFlip.{compute_outcome as flip_outcome}
use casino_bot.Games.Policy.{game_has_stake_policy, min_max_bet, effective_cooldown_seconds}
use casino_bot.Compliance.{forbid_negative_balance}
use casino_bot.Settings.{effective_coin_flip_cooldown_seconds}
use casino_bot.TelegramBot.Redelivery.{redelivered_bet_idem}
use casino_bot.TelegramBot.Keys.{by_command, key_of-injective}
use casino_bot.TelegramBot.Buttons.{press_each, tables_of_bet, button_plays}
use casino_bot.TelegramBot.Handlers.Wheel.{is_wheel_enabled}
use casino_bot.TelegramBot.Handlers.Work.{stake_buttons}
use casino_bot.Tests.Data.{settings, user, tables, tables-IsConserved, world, engine_world}

-- The first user has an account of Telegram.
abbrev linked : Tables
linked = record tables {
  users = record (user 1) { telegram_user_id = some (pos 77) } ∷ user 2 ∷ [];
}

linked-IsConserved : IsConserved linked
unfolding balance_in ledger_sum
linked-IsConserved = record { sums = tables-IsConserved.sums; nonneg = tables-IsConserved.nonneg }

abbrev chat : Chat
chat = record { tables = linked; prompt_buckets = λ id. []; action_buckets = λ id. []; sent = [] }

abbrev turn : Turn
turn = record {
  clock = pos 1000000;
  edit_fails = false;
  voice = λ asset. true;
  database_answers = true;
  created_at = λ id. none;
  log_lookup_raises = none;
  engine = record engine_world { round = record world { seen = λ i. linked } };
}

abbrev stake : Command
stake = record {
  update_id = pos 5;
  has_message = true;
  telegram_user_id = some (pos 77);
  args = "5" ∷ [];
}

abbrev press : Callback
press = record {
  id = "q1";
  has_message = true;
  telegram_user_id = some (pos 77);
  callback_data = some "flip:5";
}

updates-IsConserved_example :
    IsConserved
      (run_updates settings bootstrap
        ((turn, command "wheel" stake)
          ∷ (turn, pressed press)
          ∷ (turn, command "balance" stake)
          ∷ [])
        chat).tables
updates-IsConserved_example =
    updates-IsConserved settings bootstrap (omega arith)
      ((turn, command "wheel" stake) ∷ (turn, pressed press) ∷ (turn, command "balance" stake) ∷ [])
      chat (λ i. linked-IsConserved, (λ i. linked-IsConserved, (λ i. linked-IsConserved, tt)))
      linked-IsConserved

flip-Ends_example :
    Ends settings bootstrap turn
      (pos 5)
      (pos 77)
      ("5" ∷ [])
      chat
      (cmd_flip settings bootstrap turn stake chat)
flip-Ends_example = flip-Ends settings bootstrap turn (pos 5) (pos 77) ("5" ∷ []) chat

abbrev old_round : String → Option ℕ → GameRound
old_round id at = record {
  round_id = id;
  user_id = 1;
  game_id = "coin_flip";
  idempotency_key = id;
  bet_amount = ratio (pos 5) (pos 1);
  bet_units = pos 5000;
  payout_delta = ratio (pos 5000) (pos 1000);
  payout_units = pos 5000;
  status = committed;
  details_json = none;
  committed_at = at;
}

abbrev old_rounds : List GameRound
old_rounds = old_round "a" (some 1) ∷ old_round "b" (some 2) ∷ old_round "c" none ∷ []

history_rows_lem_example :
    let rows = history_rows settings 1 old_rounds in
    let wanted = select (is_wanted settings.games_enabled 1) old_rounds in
    (others : List GameRound) × Perm (rows ++ others) wanted
    × IsNewestFirst (rows ++ others)
    × (length rows ≡ smaller 15 (length wanted))
history_rows_lem_example = history_rows_lem settings 1 old_rounds

abbrev first_key : String
first_key = "tg:77:cmd:5"

-- The first delivery plays a round.
first_bet :
    (snap : Snapshot) × ((telegram_game_work settings bootstrap turn.engine
        (pos 77)
        (pos 5)
        first_key
        "coin_flip"
        (open_session linked)).0
      ≡ ok snap)
unfolding telegram_game_work ensure_telegram_user resolve_balance_reply format_signed_token_amount
    format_balance_message_units tokens_whole_to_units units_to_storage_float insert_round in_block
    get_or_create_account post_delta check_delta adjust_user_tokens commit_round settle round_body
    recover play_round round_or_new execute_game_round check_bounds units_or_zero last_committed_at
    check_cooldown check_access check_balance check_policy find_game play_new replay_or_new
    run_game_detailed_inner flip_outcome registry_compute_outcome registry_get bootstrap
    game_has_stake_policy min_max_bet effective_cooldown_seconds forbid_negative_balance
    effective_coin_flip_cooldown_seconds amounts is_enabled update_first first ◌*ℤ◌ ◌+ℤ◌
first_bet = (_, refl)

linked_finds :
    (u : User)
    → (ensure_telegram_user (pos 77) (open_session linked)).0 ≡ ok u
    → ℕ
    → first (has_telegram_id (pos 77)) linked.users ≡ some u
unfolding ensure_telegram_user get_user_by_telegram_id user_or_new first
linked_finds u e i = ensure_finds (pos 77) (open_session linked) e

redelivered_bet_idem_example :
    let t =
      (telegram_game_work settings bootstrap turn.engine
        (pos 77)
        (pos 5)
        first_key
        "coin_flip"
        (open_session linked)).1.committed in
    telegram_game_work settings bootstrap engine_world
      (pos 77)
      (pos 5)
      first_key
      "coin_flip"
      (open_session t)
    ≡ (ok (record first_bet.0 { idempotent_replay = true }), open_session t)
redelivered_bet_idem_example =
    redelivered_bet_idem settings bootstrap (pos 77) (pos 5) first_key "coin_flip" (omega arith)
      turn.engine engine_world (open_session linked) linked_finds first_bet.1

key_of-injective_example : by_command (pos 77) (pos 5) ≡ by_command (pos 77) (pos 5)
key_of-injective_example =
    key_of-injective (by_command (pos 77) (pos 5)) (by_command (pos 77) (pos 5)) refl

wheel_enabled : is_wheel_enabled settings ≡ true
unfolding is_enabled
wheel_enabled = refl

button_plays_example :
    (press_each settings bootstrap turn "q1"
        (pos 77)
        chat
        (stake_buttons "flip:" (pos 1 ∷ pos 10 ∷ []))
      ≡ tables_of_bet settings bootstrap turn "q1" (pos 77) "coin_flip" (pos 1) chat
        ∷ tables_of_bet settings bootstrap turn "q1" (pos 77) "coin_flip" (pos 10) chat
        ∷ [])
    × (press_each settings bootstrap turn "q1"
          (pos 77)
          chat
          (stake_buttons "wheel:" (pos 1 ∷ pos 10 ∷ []))
        ≡ tables_of_bet settings bootstrap turn "q1" (pos 77) "bonus_wheel" (pos 1) chat
          ∷ tables_of_bet settings bootstrap turn "q1" (pos 77) "bonus_wheel" (pos 10) chat
          ∷ [])
button_plays_example =
    button_plays settings bootstrap turn "q1" (pos 77) chat (1 ∷ 10 ∷ []) wheel_enabled
