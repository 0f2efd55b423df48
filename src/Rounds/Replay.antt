-- ===== src/Rounds/Replay.antt =====
-- Repeated calls of src/casino_bot/services/game_round_service.py.
use casino_bot.Prelude.{pos, ◌≡◌, ◌≤ℤ◌}
use casino_bot.Python.{ok}
use casino_bot.Settings.{Settings}
use casino_bot.Database.{GameRound, Session, begin_work}
use casino_bot.Rounds.{RoundRequest, World, execute_game_round, round_or_new}
use casino_bot.Rounds.Found.{Finds, execute-Finds}

-- A taken key: the stored round is returned, whatever the stake, the details and the payout of the
-- request are, and no table changes.
pub execute_replays :
    (settings : Settings) (req : RoundRequest) (world : World) (s : Session) {gr : GameRound}
    → Finds req gr s.work
    → execute_game_round settings req world s ≡ (ok gr, begin_work s s.work)
unfolding execute_game_round round_or_new
execute_replays settings req world s {gr} there = rw there

-- For a scale of at least one, two calls with one user, game and key: when the first has returned a
-- round, a later call in the state that it left returns the same round and changes no table,
-- whatever else the second request asks for.
pub execute_idem :
    (settings : Settings) (req again : RoundRequest) (world later : World) (s : Session)
    {gr : GameRound}
    → pos 1 ≤ℤ settings.token_unit_scale
    → again.user_id ≡ req.user_id
    → again.game_id ≡ req.game_id
    → again.idempotency_key ≡ req.idempotency_key
    → (execute_game_round settings req world s).0 ≡ ok gr
    → (let s' = (execute_game_round settings req world s).1 in
        execute_game_round settings again later s' ≡ (ok gr, begin_work s' s'.work))
execute_idem settings req again world later s {gr} scale eu eg ek done =
    let s' = (execute_game_round settings req world s).1 in
    execute_replays settings again later s'
      (rw (eu, eg, ek) (execute-Finds settings req world s scale done))
