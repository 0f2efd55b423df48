-- ===== src/TelegramBot/Handlers/Work.antt =====
-- What the handlers do in the database (src/casino_bot/telegram_bot/handlers.py), and the steps that
-- they share.
use Prim.Native.String.{String, ◌++◌}
use casino_bot.Prelude.{ℕ, ℤ, Bool, true, false, Option, none, some, List, [], ◌∷◌, first, map}
use casino_bot.Python.{
  Error, Result, ok, err, raise, engine_rejected, Dict, str_ℤ, pure, ◌>>=◌, ◌>>◌,
}
use casino_bot.Settings.{Settings}
use casino_bot.Database.{User, GameRound, RoundStatus, Db, query, commit, has_account}
use casino_bot.Games.Registry.{Games}
use casino_bot.Games.Engine.{Play, EngineWorld, units_or_zero, run_game_detailed_inner}
use casino_bot.TelegramBot.GameTexts.{
  telegram_rate_limited_message, game_engine_rejected_user_message, flip_unexpected_error_message,
}
use casino_bot.TelegramBot.RateLimit.{allow_flip_prompt, allow_flip_action}
use casino_bot.TelegramBot.Users.{
  get_user_by_telegram_id, ensure_telegram_user, resolve_balance_reply,
}
use casino_bot.TelegramBot.Stakes.{quick_stake_amounts}
use casino_bot.TelegramBot.Chat.{
  Bot, Turn, Button, reply_text, send, reply, attempt, in_session, rolled_back,
}

-- What a handler of a command reads of an update.
pub record Command : Type 0 where
  pub update_id : ℤ
  pub has_message : Bool
  pub telegram_user_id : Option ℤ
  pub args : List String

-- What a handler of a button reads of it; `has_message` is for `query.message`.
pub record Callback : Type 0 where
  pub id : String
  pub has_message : Bool
  pub telegram_user_id : Option ℤ
  pub callback_data : Option String

-- `if msg is None or tid is None: return`.
abbrev pub with_user : Bool → Option ℤ → (ℤ → Bot (Unit {0})) → Bot (Unit {0})
with_user false tid m = pure tt
with_user true none m = pure tt
with_user true (some tid) m = m tid

pub record Snapshot : Type 0 where
  pub game_id : String
  pub status : RoundStatus
  pub details : Option Dict
  pub balance_line : String
  pub user_id : ℕ
  pub bet_amount : ℤ
  pub idempotent_replay : Bool

-- The arguments of a game that the bot plays.
abbrev pub telegram_play : ℕ → ℤ → String → String → Play
telegram_play user_id bet_amount key game_id = record {
  user_id = user_id;
  game_id = game_id;
  bet_amount = bet_amount;
  idempotency_key = key;
  actor = "telegram_bot";
}

abbrev pub snapshot_of : Play → GameRound → Bool → String → Snapshot
snapshot_of play gr idempotent_replay balance_line = record {
  game_id = play.game_id;
  status = gr.status;
  details = gr.details_json;
  balance_line = balance_line;
  user_id = play.user_id;
  bet_amount = play.bet_amount;
  idempotent_replay = idempotent_replay;
}

-- The round of a user that is known, and the snapshot after the commit.
unfoldable pub play_and_commit : Settings → Games → EngineWorld → Play → Db Snapshot
play_and_commit settings games world play = do
  played ← run_game_detailed_inner settings games play world
  balance_line ← resolve_balance_reply settings play.user_id
  commit
  pure (snapshot_of play played.0 played.1 balance_line)

unfoldable pub telegram_game_work :
    Settings → Games → EngineWorld → ℤ → ℤ → String → String → Db Snapshot
unfolding play_and_commit
telegram_game_work settings games world telegram_user_id bet_amount key game_id = rolled_back (
    ensure_telegram_user telegram_user_id >>= λ user.
    play_and_commit settings games world (telegram_play user.id bet_amount key game_id))

unfoldable pub amounts_and_line : Settings → String → ℕ → Db (List ℤ × String)
amounts_and_line settings game_id user_id = do
  bal_units ← query (λ t. units_or_zero (first (has_account user_id) t.accounts))
  commit
  line ← resolve_balance_reply settings user_id
  pure (quick_stake_amounts settings game_id bal_units, line)

unfoldable pub game_keyboard_prompt_work : Settings → ℤ → String → Db (List ℤ × String)
unfolding amounts_and_line
game_keyboard_prompt_work settings telegram_user_id game_id =
    rolled_back
      (ensure_telegram_user telegram_user_id >>= λ user. amounts_and_line settings game_id user.id)

unfoldable pub prompt_allowed : Settings → Turn → ℤ → Bot Bool
prompt_allowed settings turn tid c =
    let (allowed, buckets) = allow_flip_prompt settings tid turn.clock c.prompt_buckets in
    (ok allowed, record c { prompt_buckets = buckets })

unfoldable pub action_allowed : Settings → Turn → ℤ → Bot Bool
action_allowed settings turn tid c =
    let (allowed, buckets) = allow_flip_action settings tid turn.clock c.action_buckets in
    (ok allowed, record c { action_buckets = buckets })

-- The buttons of a keyboard: each carries a prefix and its stake.
abbrev pub stake_buttons : String → List ℤ → List Button
stake_buttons prefix = map (λ a. record { label = str_ℤ a; callback_data = prefix ++ str_ℤ a })

-- A keyboard, or why there is none.
unfoldable pub show_prompt : String → String → String → Result (List ℤ × String) → Bot (Unit {0})
show_prompt prefix caption no_stakes (err e) = reply flip_unexpected_error_message
show_prompt prefix caption no_stakes (ok ([], line)) =
    reply (caption ++ "\n\n" ++ no_stakes ++ "\n\n" ++ line)
show_prompt prefix caption no_stakes (ok (a ∷ amounts, line)) =
    send (reply_text (caption ++ "\n\n" ++ line) (stake_buttons prefix (a ∷ amounts)))

unfoldable pub prompt_or_limited :
    Settings → ℤ → String → String → String → String → Bool → Bot (Unit {0})
unfolding show_prompt
prompt_or_limited settings tid game_id prefix caption no_stakes false =
    reply telegram_rate_limited_message
prompt_or_limited settings tid game_id prefix caption no_stakes true =
    attempt (in_session (game_keyboard_prompt_work settings tid game_id))
    >>= show_prompt prefix caption no_stakes

abbrev pub id_of : Option User → Option ℕ
id_of none = none
id_of (some user) = some user.id

-- `_lookup_user_id_for_log`, which nothing guards: what the database raises in it ends the handler.
abbrev pub lookup_or_raise : Option Error → ℤ → Bot (Option ℕ)
lookup_or_raise none tid = in_session (get_user_by_telegram_id tid >>= λ user. pure (id_of user))
lookup_or_raise (some e) tid = raise e

unfoldable pub lookup_user_id_for_log : Turn → ℤ → Bot (Option ℕ)
lookup_user_id_for_log turn tid = lookup_or_raise turn.log_lookup_raises tid

-- The `except` branches around a game: a rejection of the engine, and any other exception.
unfoldable pub finish_bet :
    Settings
    → Turn
    → ℤ
    → (String → Bot (Unit {0}))
    → (Snapshot → Bot (Unit {0}))
    → Result Snapshot
    → Bot (Unit {0})
finish_bet settings turn tid say deliver (ok snap) = deliver snap
finish_bet settings turn tid say deliver (err (engine_rejected code message seconds)) =
    lookup_user_id_for_log turn tid >> say (game_engine_rejected_user_message settings code seconds)
finish_bet settings turn tid say deliver (err e) = say flip_unexpected_error_message

-- A stake that has been read: the rate limit, and the game.
unfoldable pub bet_or_limited :
    Settings
    → Games
    → Turn
    → (String → Bot (Unit {0}))
    → (Snapshot → Bot (Unit {0}))
    → ℤ
    → ℤ
    → String
    → String
    → Bool
    → Bot (Unit {0})
unfolding finish_bet
bet_or_limited settings games turn say deliver tid bet_amount key game_id false =
    say telegram_rate_limited_message
bet_or_limited settings games turn say deliver tid bet_amount key game_id true =
    attempt (in_session (telegram_game_work settings games turn.engine tid bet_amount key game_id))
    >>= finish_bet settings turn tid say deliver
