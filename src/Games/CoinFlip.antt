-- ===== src/Games/CoinFlip.antt =====
-- The coin flip (src/casino_bot/games/coin_flip.py).
use casino_bot.Prelude.{ℕ, ℤ, pos, neg, ltb, String, [], ◌∷◌, if◌then◌else◌}
use casino_bot.Python.{Result, ok, int, bind_result, number, text}
use casino_bot.Settings.{Settings}
use casino_bot.Tokens.{tokens_whole_to_units}
use casino_bot.Games.Types.{GameMeta, GameInput, GameResult, rng_version}
use casino_bot.Games.Doubles.{random, one_half}

abbrev pub coin_flip_game_id : String
coin_flip_game_id = "coin_flip"

unfoldable pub catalog_meta : Settings → GameMeta
catalog_meta settings = record {
  game_id = coin_flip_game_id;
  title = "Coin flip";
  description = "Fair 50/50 even money — win adds your stake, lose removes it.";
  min_bet = settings.coin_flip_min_bet;
  max_bet = settings.coin_flip_max_bet;
}

-- The result, once the stake is known and the coin has fallen.
unfoldable pub flip_result : String → ℤ → ℤ → GameResult
flip_result outcome payout_delta_units prize = record {
  outcome = outcome;
  payout_delta_units = payout_delta_units;
  prize = prize;
  details =
      ("game", text coin_flip_game_id)
      ∷ ("outcome", text outcome)
      ∷ ("payout_delta_units", number payout_delta_units)
      ∷ ("prize", number prize)
      ∷ ("rng_version", text rng_version)
      ∷ [];
}

unfoldable pub compute_outcome : Settings → GameInput → ℕ → Result GameResult
unfolding flip_result
compute_outcome settings inp draw =
    bind_result (tokens_whole_to_units (int inp.bet_amount) (int settings.token_unit_scale))
      λ stake_units.
        if ltb (random draw) one_half
        then ok (flip_result "win" stake_units (pos 10))
        else ok (flip_result "lose" (neg stake_units) (pos 0))
