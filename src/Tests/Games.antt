-- ===== src/Tests/Games.antt =====
-- Games at concrete inputs.
use casino_bot.Prelude.{
  pos, neg, ◌*ℤ◌, ◌≤ℤ◌, ◌≡◌, refl, true, false, first, arith, if◌then◌else◌, ltb,
}
use casino_bot.Python.{ok, int}
use casino_bot.Tokens.{tokens_whole_to_units}
use casino_bot.Database.{GameRound, committed, begin_work}
use casino_bot.Rounds.Steps.{IsFresh}
use casino_bot.Rounds.Outcomes.{Moved}
use casino_bot.Games.Types.{GameResult}
use casino_bot.Games.Registry
use casino_bot.Games.Registry.{bootstrap, bonus_wheel_game, is_enabled}
use casino_bot.Games.Policy.{game_has_stake_policy, min_max_bet, effective_cooldown_seconds}
use casino_bot.Games.BonusWheel.{spun_tier}
use casino_bot.Games.BonusWheel
use casino_bot.Games.BonusWheel.Odds.{
  spun_tier_lem, bust, bronze, silver, gold, after_bust, after_bronze, after_silver,
}
use casino_bot.Games.Outcomes.{wheel_pays, wheel_payout}
use casino_bot.Settings.{effective_bonus_wheel_cooldown_seconds}
use casino_bot.Games.Engine.Replay.{run_game_idem}
use casino_bot.Games.Engine.{
  Play, run_game_detailed_inner, check_bounds, check_policy, check_access, check_balance,
  check_cooldown, units_or_zero, last_committed_at, find_game, game_input, round_request,
}
use casino_bot.Games.Engine.Admitted.{run_game_commits, amounts_of}
use casino_bot.Tests.Data.{settings, session, play, engine_world}

spun_tier_lem_example : spun_tier 5000000000000000 ≡ (
    if ltb 5000000000000000 after_bust
    then bust
    else if ltb 5000000000000000 after_bronze
    then bronze
    else if ltb 5000000000000000 after_silver
    then silver
    else gold)
spun_tier_lem_example = spun_tier_lem 5000000000000000 (omega arith)

staked_units : tokens_whole_to_units (int (pos 5)) (int (pos 1000)) ≡ ok (pos 5000)
unfolding tokens_whole_to_units ◌*ℤ◌
staked_units = refl

wheel_pays_example :
    (r : GameResult) × (BonusWheel.compute_outcome settings (game_input play) 5000000000000000
      ≡ ok r)
    × (r.payout_delta_units ≡ wheel_payout 5000000000000000 5000)
wheel_pays_example =
    wheel_pays settings (game_input play) 5000000000000000 5000 (omega arith) staked_units

bounds_pass : check_bounds settings play ≡ ok tt
unfolding check_bounds game_has_stake_policy min_max_bet
bounds_pass = refl

policy_passes : check_policy settings play engine_world.now session.work ≡ ok tt
unfolding check_policy check_access check_balance check_cooldown units_or_zero last_committed_at
    first tokens_whole_to_units effective_cooldown_seconds effective_bonus_wheel_cooldown_seconds
    ◌*ℤ◌
policy_passes = refl

wheel_is_found : find_game "bonus_wheel" bootstrap ≡ ok bonus_wheel_game
unfolding find_game Registry.get bootstrap
wheel_is_found = refl

play-IsFresh :
    (r : GameResult)
    → IsFresh settings
        (round_request play r)
        engine_world.round
        (amounts_of settings play (pos 5000) r)
        session.work
unfolding first
play-IsFresh r = record { new_key = refl; new_id = refl; alone = refl; healthy = refl }

run_game_commits_example :
    let out = run_game_detailed_inner settings bootstrap play engine_world session in
    (r : GameResult) × (gr : GameRound) × (Registry.compute_outcome bonus_wheel_game settings
        (game_input play)
        5000000000000000
      ≡ ok r)
    × (out.0 ≡ ok (gr, false))
    × (gr.status ≡ committed)
    × (gr.payout_units ≡ r.payout_delta_units)
    × (neg (pos 5000) ≤ℤ gr.payout_units)
    × Moved 1 r.payout_delta_units session.work out.1.work
unfolding is_enabled game_has_stake_policy first
run_game_commits_example =
    run_game_commits settings bootstrap play engine_world session (omega arith) (omega arith)
      (omega arith) (omega arith) staked_units refl bounds_pass refl wheel_is_found policy_passes
      refl play-IsFresh

first_play :
    (gr : GameRound) × ((run_game_detailed_inner settings bootstrap play engine_world session).0
      ≡ ok (gr, false))
unfolding is_enabled game_has_stake_policy first
first_play =
    let (r, gr, out, returned, status, payout, bound, moved) =
      run_game_commits settings bootstrap play engine_world session (omega arith) (omega arith)
        (omega arith) (omega arith) staked_units refl bounds_pass refl wheel_is_found policy_passes
        refl play-IsFresh in
    (gr, returned)

abbrev again : Play
again = record play { bet_amount = pos 7; actor = "telegram_bot" }

again_in_bounds : check_bounds settings again ≡ ok tt
unfolding check_bounds game_has_stake_policy min_max_bet
again_in_bounds = refl

run_game_idem_example :
    let s' = (run_game_detailed_inner settings bootstrap play engine_world session).1 in
    run_game_detailed_inner settings bootstrap again engine_world s'
    ≡ (ok (first_play.0, true), begin_work s' s'.work)
run_game_idem_example =
    run_game_idem settings bootstrap play again engine_world engine_world session (omega arith) refl
      refl refl again_in_bounds first_play.1
