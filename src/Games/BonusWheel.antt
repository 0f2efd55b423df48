-- ===== src/Games/BonusWheel.antt =====
-- The bonus wheel (src/casino_bot/games/bonus_wheel.py): one draw against the cumulative weights of
-- four tiers.
pub mod Odds
use casino_bot.Prelude.{
  ℕ, ◌+◌, ℤ, pos, neg, pos_part, ◌*ℤ◌, ltb, String, str_eq, List, [], ◌∷◌, if◌then◌else◌,
}
use casino_bot.Python.{Result, ok, err, value_error, int, bind_result, number, text}
use casino_bot.Settings.{Settings}
use casino_bot.Tokens.{tokens_whole_to_units, floor_div}
use casino_bot.Games.Types.{GameMeta, GameInput, GameResult, rng_version}
use casino_bot.Games.Doubles.{random, double_div, double_add}
use Prim.Native.String.{◌++◌ as str_append}

abbrev pub bonus_wheel_game_id : String
bonus_wheel_game_id = "bonus_wheel"

pub record Tier : Type 0 where
  pub name : String
  pub kind : String
  pub weight : ℕ

unfoldable pub tiers : List Tier
tiers =
    record { name = "bust"; kind = "bust"; weight = 55 }
    ∷ record { name = "bronze"; kind = "half"; weight = 25 }
    ∷ record { name = "silver"; kind = "equal"; weight = 12 }
    ∷ record { name = "gold"; kind = "two_and_half"; weight = 8 }
    ∷ []

-- `_TIERS[-1]`, which the code falls back on.
unfoldable pub last_tier : Tier
last_tier = record { name = "gold"; kind = "two_and_half"; weight = 8 }

unfoldable pub payout_units_for_tier : String → ℤ → Result ℤ
payout_units_for_tier kind stake_units =
    if str_eq kind "bust"
    then ok (neg stake_units)
    else if str_eq kind "half"
    then ok (floor_div stake_units 2)
    else if str_eq kind "equal"
    then ok stake_units
    else if str_eq kind "two_and_half"
    then ok (floor_div (stake_units *ℤ pos 5) 2)
    else err (value_error (str_append "unknown tier kind " kind))

unfoldable pub total_weight : List Tier → ℕ
total_weight [] = 0
total_weight (t ∷ ts) = t.weight + total_weight ts

-- The loop over the tiers: the first whose cumulative weight is above the draw.
unfoldable pub choose_tier : ℕ → ℕ → ℕ → List Tier → Tier
choose_tier u total_w cumulative [] = last_tier
choose_tier u total_w cumulative (t ∷ ts) =
    let cumulative' = double_add cumulative (double_div t.weight total_w) in
    let rest = choose_tier u total_w cumulative' ts in if ltb u cumulative' then t else rest

unfoldable pub catalog_meta : Settings → GameMeta
catalog_meta settings = record {
  game_id = bonus_wheel_game_id;
  title = "Bonus wheel";
  description =
      "One spin — weighted tiers (bust / bronze / silver / gold). Payouts are multiples of your stake (not 50/50).";
  min_bet = settings.bonus_wheel_min_bet;
  max_bet = settings.bonus_wheel_max_bet;
}

-- `max(0, payout_delta_units) // scale`.
unfoldable pub wheel_prize : ℤ → ℤ → ℤ
wheel_prize payout_delta_units scale =
    floor_div (pos (pos_part payout_delta_units)) (pos_part scale)

unfoldable pub wheel_result : Tier → ℤ → ℤ → GameResult
unfolding wheel_prize
wheel_result tier payout_delta_units scale = record {
  outcome = tier.name;
  payout_delta_units = payout_delta_units;
  prize = wheel_prize payout_delta_units scale;
  details =
      ("game", text bonus_wheel_game_id)
      ∷ ("outcome", text tier.name)
      ∷ ("payout_delta_units", number payout_delta_units)
      ∷ ("prize", number (wheel_prize payout_delta_units scale))
      ∷ ("tier_kind", text tier.kind)
      ∷ ("rng_version", text rng_version)
      ∷ [];
}

unfoldable pub spun_tier : ℕ → Tier
unfolding choose_tier tiers total_weight last_tier
spun_tier draw = choose_tier (random draw) (total_weight tiers) 0 tiers

unfoldable pub compute_outcome : Settings → GameInput → ℕ → Result GameResult
compute_outcome settings inp draw =
    let scale = settings.token_unit_scale in
    bind_result (tokens_whole_to_units (int inp.bet_amount) (int scale)) λ stake_units.
      let tier = spun_tier draw in
      bind_result (payout_units_for_tier tier.kind stake_units)
        λ payout_delta_units. ok (wheel_result tier payout_delta_units scale)
