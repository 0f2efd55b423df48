-- ===== src/Games/Engine/Admitted.antt =====
-- Calls of the engine (src/casino_bot/games/service.py) that pass its checks.
use casino_bot.Prelude.{
  ℕ, ◌^◌, ◌<◌, ◌≡◌, refl, sym, subst, ap, ℤ, pos, neg, ◌+ℤ◌, ◌≤ℤ◌, arith, Bool, true, false, some,
  List, [], ◌∷◌, first,
}
use casino_bot.Python.{Result, ok, int, ratio}
use casino_bot.Settings.{Settings}
use casino_bot.Tokens.{tokens_whole_to_units, validate_units, units_to_storage_float}
use casino_bot.Compliance.{validate_operation}
use casino_bot.Database.{
  GameRound, committed, TokenAccount, Tables, Session, User, has_user, has_account, begin_work,
}
use casino_bot.Economy.{check_delta}
use casino_bot.Economy.Balances.{balance_in, balance_of}
use casino_bot.Rounds.{Amounts, amounts, max_bet_amount, execute_game_round}
use casino_bot.Rounds.Steps.{IsFresh}
use casino_bot.Rounds.Outcomes.{Moved, execute_commits}
use casino_bot.Games.Types.{GameResult}
use casino_bot.Games.Registry.{Game, Games, is_enabled, compute_outcome}
use casino_bot.Games.Policy.{game_has_stake_policy}
use casino_bot.Games.Outcomes.{outcome_bounded}
use casino_bot.Games.Engine.{
  Play, EngineWorld, units_or_zero, check_policy, check_bounds, check_access, check_balance,
  find_game, game_input, round_request, play_new, replay_or_new, run_game_detailed_inner,
}

-- The balance that the engine reads is the balance of the ledger.
units_or_zero-eq-balance_in :
    (u : ℕ) (accounts : List TokenAccount)
    → units_or_zero (first (has_account u) accounts) ≡ balance_in u accounts
unfolding units_or_zero first balance_in
units_or_zero-eq-balance_in u [] = refl
units_or_zero-eq-balance_in u (a ∷ accounts) =
    ground (arith, units_or_zero-eq-balance_in u accounts)

-- A delta that leaves the balance non-negative passes, while no request is pending.
pub check_delta_passes :
    (balance delta : ℤ) → pos 0 ≤ℤ balance +ℤ delta → check_delta balance delta false false ≡ ok tt
unfolding check_delta validate_operation
check_delta_passes balance delta h = ground arith

-- The checks of the engine end with that of the stake against the balance.
check_policy_covers :
    (settings : Settings) (play : Play) (now : ℕ) (t : Tables) (stake : ℤ)
    → tokens_whole_to_units (int play.bet_amount) (int settings.token_unit_scale) ≡ ok stake
    → check_policy settings play now t ≡ ok tt
    → stake ≤ℤ balance_of play.user_id t
unfolding check_policy check_access check_balance
check_policy_covers settings play now t stake parsed passed =
    ground (arith, parsed, passed, units_or_zero-eq-balance_in play.user_id t.accounts)

covered_payout :
    (stake : ℕ) (balance payout : ℤ)
    → pos stake ≤ℤ balance
    → neg (pos stake) ≤ℤ payout
    → pos 0 ≤ℤ balance +ℤ payout
unfolding ◌+ℤ◌
covered_payout stake balance payout h k = ground arith

-- The amounts of the round that a result asks for.
abbrev pub amounts_of : Settings → Play → ℤ → GameResult → Amounts
amounts_of settings play stake r = record {
  bet_amount = play.bet_amount;
  bet_units = stake;
  attempted_delta_units = r.payout_delta_units;
  attempted_delta_float = ratio r.payout_delta_units settings.token_unit_scale;
  bet_float = ratio stake settings.token_unit_scale;
}

amounts-round_request :
    (settings : Settings) (play : Play) (stake : ℤ) (r : GameResult)
    → pos 1 ≤ℤ settings.token_unit_scale
    → pos 1 ≤ℤ play.bet_amount
    → play.bet_amount ≤ℤ max_bet_amount
    → tokens_whole_to_units (int play.bet_amount) (int settings.token_unit_scale) ≡ ok stake
    → amounts settings (round_request play r) ≡ ok (amounts_of settings play stake r)
unfolding amounts units_to_storage_float validate_units
amounts-round_request settings play stake r scale low high parsed = ground (arith, parsed)

module _ (settings : Settings) (games : Games) (play : Play) (world : EngineWorld) (s : Session)
    {x : User} {g : Game} {stake : ℕ} (scale : pos 1 ≤ℤ settings.token_unit_scale)
    (low : pos 1 ≤ℤ play.bet_amount) (high : play.bet_amount ≤ℤ max_bet_amount)
    (drawn : world.draw < 2 ^ 53)
    (parsed : tokens_whole_to_units (int play.bet_amount) (int settings.token_unit_scale)
      ≡ ok (pos stake))
    (enabled : is_enabled play.game_id settings.games_enabled ≡ true)
    (bounded : check_bounds settings play ≡ ok tt)
    (staked : game_has_stake_policy play.game_id ≡ true)
    (registered : find_game play.game_id games ≡ ok g)
    (admitted : check_policy settings play world.now s.work ≡ ok tt)
    (known : first (has_user play.user_id) s.work.users ≡ some x)
    (fresh : (r : GameResult)
      → IsFresh settings
          (round_request play r)
          world.round
          (amounts_of settings play (pos stake) r)
          s.work) where
  -- For a scale of at least one, a bet from 1 to the maximum of a round, and a draw below 2^53:
  -- once the engine's checks have passed for an enabled, registered game with a stake, a known
  -- user, a new key and a new round identifier, and the database neither reports a conflict nor
  -- fails, the call returns a new round, committed, with the payout of the game, which takes at
  -- most the stake; the user's balance and ledger have moved by that payout, and nobody else's has.
  pub run_game_commits :
      (r : GameResult) × (gr : GameRound) × (compute_outcome g settings (game_input play) world.draw
        ≡ ok r)
      × ((run_game_detailed_inner settings games play world s).0 ≡ ok (gr, false))
      × (gr.status ≡ committed)
      × (gr.payout_units ≡ r.payout_delta_units)
      × (neg (pos stake) ≤ℤ gr.payout_units)
      × Moved play.user_id r.payout_delta_units s.work
          (run_game_detailed_inner settings games play world s).1.work
  unfolding run_game_detailed_inner replay_or_new play_new
  run_game_commits =
      let (r, out, bound) =
        outcome_bounded g settings (game_input play) world.draw stake drawn parsed in
      let s0 : Session = begin_work s s.work in
      let cover = check_policy_covers settings play world.now s.work (pos stake) parsed admitted in
      let passed =
        check_delta_passes (balance_of play.user_id s.work) r.payout_delta_units (
          covered_payout stake (balance_of play.user_id s.work) r.payout_delta_units cover bound) in
      let (gr, done, status, payout, bet, found, moved) =
        execute_commits settings (round_request play r) world.round
          (amounts_of settings play (pos stake) r) s0 scale
          (amounts-round_request settings play (pos stake) r scale low high parsed) (fresh r) known
          passed in
      let call : run_game_detailed_inner settings games play world s ≡ (
        ok (gr, false),
        (execute_game_round settings (round_request play r) world.round s0).1,
      ) =
        ground
          (arith, enabled, bounded, (fresh r).new_key, staked, admitted, registered, out, done) in
      (
        r,
        gr,
        out,
        ap (λ c. c.0) call,
        status,
        payout,
        rw payout bound,
        subst
            (λ (c : Result (GameRound × Bool) × Session).
              Moved play.user_id r.payout_delta_units s.work c.1.work)
            (sym call) moved,
      )
