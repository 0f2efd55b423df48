-- ===== src/Games/Outcomes.antt =====
-- What a game can do to a stake: both games return a result for every draw, and lose at most it.
use casino_bot.Prelude.{
  ℕ, ◌*◌, ◌^◌, ◌/◌, ◌<◌, ◌≡◌, refl, ℤ, pos, neg, ◌≤ℤ◌, ltb, arith, if◌then◌else◌, inl, inr,
  Bool-cases,
}
use casino_bot.Prelude.Int.{pos-*ℤ-pos}
use casino_bot.Python.{ok, int}
use casino_bot.Settings.{Settings}
use casino_bot.Tokens.{tokens_whole_to_units}
use casino_bot.Games.Types.{GameInput, GameResult}
use casino_bot.Games.Doubles.{random, one_half}
use casino_bot.Games.CoinFlip
use casino_bot.Games.Registry
use casino_bot.Games.Registry.{Game, coin_flip_game, bonus_wheel_game}
use casino_bot.Games.BonusWheel
use casino_bot.Games.BonusWheel.{spun_tier, payout_units_for_tier, wheel_result, Tier}
use casino_bot.Games.BonusWheel.Odds.{spun_tier_lem, after_bust, after_bronze, after_silver}

-- What the wheel pays for each draw.
unfoldable pub wheel_payout : ℕ → ℕ → ℤ
wheel_payout draw stake =
    if ltb draw after_bust
    then neg (pos stake)
    else if ltb draw after_bronze
    then pos (stake / 2)
    else if ltb draw after_silver
    then pos stake
    else pos (stake * 5 / 2)

-- For each draw below 2^53 and a stake that converts to units: the bonus wheel returns a result,
-- and its payout is the one that `wheel_payout` reads off the interval of the draw.
pub wheel_pays :
    (settings : Settings) (inp : GameInput) (draw stake : ℕ)
    → draw < 2 ^ 53
    → tokens_whole_to_units (int inp.bet_amount) (int settings.token_unit_scale) ≡ ok (pos stake)
    → (r : GameResult) × (BonusWheel.compute_outcome settings inp draw ≡ ok r)
      × (r.payout_delta_units ≡ wheel_payout draw stake)
unfolding BonusWheel.compute_outcome wheel_payout payout_units_for_tier wheel_result
wheel_pays settings inp draw stake h parsed = elim (Bool-cases (ltb draw after_bust)) [
  | inl b ↦ rw (parsed, spun_tier_lem draw h, b) (_, refl, refl)
  | inr b ↦ elim (Bool-cases (ltb draw after_bronze)) [
    | inl c ↦ rw (parsed, spun_tier_lem draw h, b, c) (_, refl, refl)
    | inr c ↦ elim (Bool-cases (ltb draw after_silver)) [
      | inl d ↦ rw (parsed, spun_tier_lem draw h, b, c, d) (_, refl, refl)
      | inr d ↦ rw (parsed, spun_tier_lem draw h, b, c, d, pos-*ℤ-pos) (_, refl, refl)
    ]
  ]
]

pub flip_pays :
    (settings : Settings) (inp : GameInput) (draw : ℕ) (stake : ℕ)
    → tokens_whole_to_units (int inp.bet_amount) (int settings.token_unit_scale) ≡ ok (pos stake)
    → (r : GameResult) × (CoinFlip.compute_outcome settings inp draw ≡ ok r)
      × (r.payout_delta_units ≡ (if ltb draw (2 ^ 52) then pos stake else neg (pos stake)))
unfolding CoinFlip.compute_outcome
flip_pays settings inp draw stake parsed = elim (Bool-cases (ltb (random draw) one_half)) [
  | inl w ↦ rw (parsed, w) (_, refl, ground arith)
  | inr l ↦ rw (parsed, l) (_, refl, ground arith)
]

-- For each draw below 2^53 and a stake that converts to units: every registered game returns a
-- result, which takes at most the stake.
pub outcome_bounded :
    (g : Game) (settings : Settings) (inp : GameInput) (draw stake : ℕ)
    → draw < 2 ^ 53
    → tokens_whole_to_units (int inp.bet_amount) (int settings.token_unit_scale) ≡ ok (pos stake)
    → (r : GameResult) × (Registry.compute_outcome g settings inp draw ≡ ok r)
      × (neg (pos stake) ≤ℤ r.payout_delta_units)
unfolding Registry.compute_outcome wheel_payout
outcome_bounded coin_flip_game settings inp draw stake h parsed =
    let (r, e, p) = flip_pays settings inp draw stake parsed in (r, e, rw p (ground arith))
outcome_bounded bonus_wheel_game settings inp draw stake h parsed =
    let (r, e, p) = wheel_pays settings inp draw stake h parsed in (r, e, rw p (ground arith))
