-- ===== src/Games/Policy.antt =====
-- The stakes and cooldowns of the games (src/casino_bot/games/policy.py).
use casino_bot.Prelude.{ℤ, pos, Bool, ◌||◌, String, str_eq, if◌then◌else◌}
use casino_bot.Python.{Result, ok, err, key_error}
use casino_bot.Settings.{
  Settings, effective_coin_flip_cooldown_seconds, effective_bonus_wheel_cooldown_seconds,
}

unfoldable pub game_has_stake_policy : String → Bool
game_has_stake_policy game_id = str_eq game_id "coin_flip" || str_eq game_id "bonus_wheel"

unfoldable pub min_max_bet : String → Settings → Result (ℤ × ℤ)
min_max_bet game_id settings =
    if str_eq game_id "coin_flip"
    then ok (settings.coin_flip_min_bet, settings.coin_flip_max_bet)
    else if str_eq game_id "bonus_wheel"
    then ok (settings.bonus_wheel_min_bet, settings.bonus_wheel_max_bet)
    else err (key_error game_id)

unfoldable pub effective_cooldown_seconds : String → Settings → ℤ
effective_cooldown_seconds game_id settings =
    if str_eq game_id "coin_flip"
    then effective_coin_flip_cooldown_seconds settings
    else if str_eq game_id "bonus_wheel"
    then effective_bonus_wheel_cooldown_seconds settings
    else pos 0
