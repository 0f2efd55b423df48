-- ===== src/Settings.antt =====
-- The settings that the modelled code reads (src/casino_bot/settings.py), under its field names in
-- small letters, with the two methods that compute a setting.
use casino_bot.Prelude.{ℤ, pos, Bool, String, str_eq, List, ◌≤ℤ◌, ltb_ℤ, not, if◌then◌else◌}

-- The fields that the billing code reads.
pub record BillingSettings : Type 0 where
  pub provider_primary : String
  pub enable_checkout : Bool
  pub enable_portal : Bool
  pub allowed_plans : List String
  pub allowed_return_hosts : List String
  pub dead_letter_attempts : ℤ
  pub webhook_retention_days : ℤ
  pub webhook_tolerance_seconds : ℤ
  pub stripe_webhook_secret : String
  pub paddle_webhook_secret : String
  pub entitlement_grace_seconds : ℤ
  pub entitlement_enforcement_mode : String
  pub user_api_internal_token : String

pub record TelegramSettings : Type 0 where
  pub bot_token : String
  pub bot_enabled : Bool
  pub polling_allowed_environments : List String
  pub support_text : String
  pub support_contact_url : String
  pub rounds_history_limit : ℤ

pub record Settings : Type 0 where
  pub environment : String
  pub games_enabled : List String
  pub coin_flip_min_bet : ℤ
  pub coin_flip_max_bet : ℤ
  pub coin_flip_cooldown_seconds : ℤ
  pub coin_flip_allow_zero_cooldown_in_production : Bool
  pub bonus_wheel_min_bet : ℤ
  pub bonus_wheel_max_bet : ℤ
  pub bonus_wheel_cooldown_seconds : ℤ
  pub bonus_wheel_allow_zero_cooldown_in_production : Bool
  pub game_access_min_tokens : ℤ
  pub token_unit_scale : ℤ
  pub telegram_flip_prompt_rate_limit_per_minute : ℤ
  pub telegram_flip_action_rate_limit_per_minute : ℤ
  pub access_token_expire_minutes : ℤ
  pub refresh_token_expire_days : ℤ
  pub max_login_attempts : ℤ
  pub attempt_window_seconds : ℤ
  pub lockout_seconds : ℤ
  pub login_rate_limit_per_minute : ℤ
  pub refresh_rate_limit_per_minute : ℤ
  pub read_rate_limit_per_minute : ℤ
  pub write_rate_limit_per_minute : ℤ
  pub drill_superadmin_token : String
  pub drill_force_db_not_ready : Bool
  pub billing : BillingSettings
  pub telegram : TelegramSettings

-- What the validators of the settings enforce at start-up, as far as the proofs use it.
pub record IsValidated (settings : Settings) : Type 0 where
  pub coin_flip_min_positive : pos 1 ≤ℤ settings.coin_flip_min_bet
  pub bonus_wheel_min_positive : pos 1 ≤ℤ settings.bonus_wheel_min_bet
  pub access_min_positive : pos 1 ≤ℤ settings.game_access_min_tokens
  pub scale_positive : pos 1 ≤ℤ settings.token_unit_scale

unfoldable pub effective_coin_flip_cooldown_seconds : Settings → ℤ
effective_coin_flip_cooldown_seconds settings =
    let raw = settings.coin_flip_cooldown_seconds in
    if not (str_eq settings.environment "production")
    then raw
    else if ltb_ℤ (pos 0) raw
    then raw
    else if settings.coin_flip_allow_zero_cooldown_in_production
    then pos 0
    else pos 3

unfoldable pub effective_bonus_wheel_cooldown_seconds : Settings → ℤ
effective_bonus_wheel_cooldown_seconds settings =
    let raw = settings.bonus_wheel_cooldown_seconds in
    if not (str_eq settings.environment "production")
    then raw
    else if ltb_ℤ (pos 0) raw
    then raw
    else if settings.bonus_wheel_allow_zero_cooldown_in_production
    then pos 0
    else pos 3
