-- ===== src/Games/Engine.antt =====
-- The entry point of the game engine (src/casino_bot/games/service.py): the checks before a round,
-- the game, and the round.
pub mod Admitted
pub mod Replay
pub mod Users
use Prim.Native.String.{◌++◌ as str_append}
use casino_bot.Prelude.{
  ℕ, ◌+◌, ◌*◌, ◌/◌, ℤ, pos, pos_part, ◌*ℤ◌, ◌-ℤ◌, sub_ℕ, ltb_ℤ, Bool, true, false, not, ◌&&◌, ltb,
  ◌==◌, String, str_eq, Option, none, some, List, [], ◌∷◌, first, if◌then◌else◌,
}
use casino_bot.Python.{
  Error, engine_rejected, Result, ok, err, int, bind_result, lift, pure, raise, raise_if, ◌>>=◌,
  ◌>>◌, str_ℤ, Dict,
}
use casino_bot.Settings.{Settings}
use casino_bot.Tokens.{tokens_whole_to_units}
use casino_bot.Database.{
  GameRound, RoundStatus, committed, rejected, failed, TokenAccount, Tables, Session, Db, query,
  has_key, has_account,
}
use casino_bot.Rounds.{RoundRequest, World, execute_game_round}
use casino_bot.Games.Types.{GameInput, GameResult}
use casino_bot.Games.Policy.{game_has_stake_policy, min_max_bet, effective_cooldown_seconds}
use casino_bot.Games.Registry
use casino_bot.Games.Registry.{Game, Games, is_enabled, compute_outcome}

-- The arguments of a call.
pub record Play : Type 0 where
  pub user_id : ℕ
  pub game_id : String
  pub bet_amount : ℤ
  pub idempotency_key : String
  pub actor : String

-- What it reads of the world: the clock when the cooldown is checked, the draw of `random()`, and
-- what the round reads.
pub record EngineWorld : Type 0 where
  pub now : ℕ
  pub draw : ℕ
  pub round : World

-- `repr` of a text without quotes and escapes.
repr : String → String
repr s = str_append "'" (str_append s "'")

abbrev pub simple_rejection : String → String → Error
simple_rejection code message = engine_rejected code message none

-- The bounds of the stake.
unfoldable pub check_bounds : Settings → Play → Result (Unit {0})
check_bounds settings play =
    if game_has_stake_policy play.game_id
    then bind_result (min_max_bet play.game_id settings) (λ bounds.
      if ltb_ℤ play.bet_amount bounds.0
      then err (
          simple_rejection "bet_below_min" (
            str_append "Bet "
              (str_append (str_ℤ play.bet_amount) (str_append " below minimum " (str_ℤ bounds.0)))))
      else if ltb_ℤ bounds.1 play.bet_amount
      then err (
          simple_rejection "bet_above_max" (
            str_append "Bet "
              (str_append (str_ℤ play.bet_amount) (str_append " above maximum " (str_ℤ bounds.1)))))
      else ok tt)
    else ok tt

unfoldable pub units_or_zero : Option TokenAccount → ℤ
units_or_zero none = pos 0
units_or_zero (some acc) = acc.balance_units

abbrev is_committed : RoundStatus → Bool
is_committed committed = true
is_committed rejected = false
is_committed failed = false

-- The later of two times, where there are any.
unfoldable pub later_time : Option ℕ → Option ℕ → Option ℕ
later_time none o = o
later_time (some a) none = some a
later_time (some a) (some b) = if ltb a b then some b else some a

-- The time of the newest committed round of the user and the game.
unfoldable pub last_committed_at : ℕ → String → List GameRound → Option ℕ
unfolding later_time
last_committed_at user_id game_id [] = none
last_committed_at user_id game_id (r ∷ rounds) =
    later_time
      (if r.user_id == user_id && (str_eq r.game_id game_id && is_committed r.status)
        then r.committed_at
        else none)
      (last_committed_at user_id game_id rounds)

abbrev pub second : ℕ
second = 1000000

-- `max(1, ceil(remaining))` where the cooldown has not elapsed.
unfoldable pub cooldown_remaining : ℤ → ℕ → ℕ → Option ℤ
cooldown_remaining cooldown_sec now committed_at =
    let elapsed = sub_ℕ now committed_at in
    let remaining = cooldown_sec *ℤ pos second -ℤ elapsed in
    let secs = (pos_part remaining + 999999) / second in
    if ltb_ℤ elapsed (cooldown_sec *ℤ pos second)
    then some (if ltb secs 1 then pos 1 else pos secs)
    else none

unfoldable pub check_cooldown : ℤ → ℕ → Option ℕ → Result (Unit {0})
unfolding cooldown_remaining
check_cooldown cooldown_sec now none = ok tt
check_cooldown cooldown_sec now (some committed_at) =
    elim (cooldown_remaining cooldown_sec now committed_at) [
      | none ↦ ok tt
      | some secs ↦ err (engine_rejected "cooldown_active" "Game cooldown not elapsed" (some secs))
    ]

unfoldable pub check_access : Settings → ℤ → Result (Unit {0})
check_access settings bal_units =
    let min_access_units = settings.game_access_min_tokens *ℤ settings.token_unit_scale in
    if ltb_ℤ bal_units min_access_units
    then err (
        simple_rejection "access_tokens_required" (
          str_append "Balance units " (
            str_append (str_ℤ bal_units) (
              str_append " is below GAME_ACCESS_MIN_TOKENS * TOKEN_UNIT_SCALE ("
                (str_append (str_ℤ min_access_units) ")")))))
    else ok tt

unfoldable pub check_balance : ℤ → ℤ → ℤ → Result (Unit {0})
check_balance bet_amount bal_units stake_units =
    if ltb_ℤ bal_units stake_units
    then err (
        simple_rejection "insufficient_balance" (
          str_append "Balance units " (
            str_append (str_ℤ bal_units) (
              str_append " is below required stake units " (
                str_append (str_ℤ stake_units)
                  (str_append " (bet " (str_append (str_ℤ bet_amount) " tokens)")))))))
    else ok tt

-- The checks of a game with a stake that need the account and the earlier rounds.
unfoldable pub check_policy : Settings → Play → ℕ → Tables → Result (Unit {0})
check_policy settings play now t =
    let bal_units = units_or_zero (first (has_account play.user_id) t.accounts) in
    let cooldown_sec = effective_cooldown_seconds play.game_id settings in
    bind_result (check_access settings bal_units) λ _.
      bind_result
        (if ltb_ℤ (pos 0) cooldown_sec
          then check_cooldown cooldown_sec now
              (last_committed_at play.user_id play.game_id t.rounds)
          else ok tt)
        λ _.
          bind_result (tokens_whole_to_units (int play.bet_amount) (int settings.token_unit_scale))
            λ stake_units. check_balance play.bet_amount bal_units stake_units

unfoldable pub find_game : String → Games → Result Game
unfolding repr
find_game game_id games = elim (Registry.get game_id games) [
  | ok g ↦ ok g
  | err e ↦
      err (simple_rejection "unknown_game" (str_append "Game not registered: " (repr game_id)))
]

abbrev pub game_input : Play → GameInput
game_input play = record {
  user_id = play.user_id;
  bet_amount = play.bet_amount;
  idempotency_key = play.idempotency_key;
  client_context = none;
}

-- The request of the round that a result asks for.
abbrev pub round_request : Play → GameResult → RoundRequest
round_request play result = record {
  user_id = play.user_id;
  game_id = play.game_id;
  idempotency_key = play.idempotency_key;
  bet_amount = int play.bet_amount;
  actor = play.actor;
  details = some result.details;
  payout_delta_units = some (int result.payout_delta_units);
}

-- A round of a key that is new.
unfoldable pub play_new : Settings → Games → Play → EngineWorld → Db (GameRound × Bool)
play_new settings games play world = do
  checked ← query λ t.
      if game_has_stake_policy play.game_id then check_policy settings play world.now t else ok tt
  lift checked
  game ← lift (find_game play.game_id games)
  result ← lift (compute_outcome game settings (game_input play) world.draw)
  gr ← execute_game_round settings (round_request play result) world.round
  pure (gr, false)

unfoldable pub replay_or_new :
    Settings → Games → Play → EngineWorld → Option GameRound → Db (GameRound × Bool)
replay_or_new settings games play world (some existing) = pure (existing, true)
replay_or_new settings games play world none = play_new settings games play world

unfoldable pub run_game_detailed_inner :
    Settings → Games → Play → EngineWorld → Db (GameRound × Bool)
unfolding repr
run_game_detailed_inner settings games play world = do
  raise_if (not (is_enabled play.game_id settings.games_enabled))
      (simple_rejection "game_disabled" (str_append "Game not enabled: " (repr play.game_id)))
  lift (check_bounds settings play)
  existing ← query (λ t. first (has_key play.user_id play.game_id play.idempotency_key) t.rounds)
  replay_or_new settings games play world existing
