-- ===== src/Tests/Data.antt =====
-- A small casino: two users, the first with fifty tokens of a thousand units each.
use casino_bot.Prelude.{ℕ, pos, negsuc, ◌+ℤ◌, true, false, none, some, [], ◌∷◌, arith}
use casino_bot.Python.{int, ratio}
use casino_bot.Settings.{Settings, BillingSettings, TelegramSettings}
use casino_bot.Database.{User, AdminUser, Tables, Session}
use casino_bot.Economy.Balances.{balance_in, ledger_sum}
use casino_bot.Economy.Conservation.{IsConserved}
use casino_bot.Rounds.{RoundRequest, World}
use casino_bot.Rounds.Solvency.{IsSound}
use casino_bot.Games.Engine.{Play, EngineWorld}

abbrev pub billing_settings : BillingSettings
billing_settings = record {
  provider_primary = "stripe";
  enable_checkout = true;
  enable_portal = true;
  allowed_plans = "test_plan" ∷ "pro_monthly" ∷ [];
  allowed_return_hosts = "localhost" ∷ [];
  dead_letter_attempts = pos 2;
  webhook_retention_days = pos 90;
  webhook_tolerance_seconds = pos 300;
  stripe_webhook_secret = "whsec";
  paddle_webhook_secret = "";
  entitlement_grace_seconds = pos 0;
  entitlement_enforcement_mode = "hard";
  user_api_internal_token = "token";
}

abbrev pub telegram_settings : TelegramSettings
telegram_settings = record {
  bot_token = "123:abc";
  bot_enabled = true;
  polling_allowed_environments = "development" ∷ "staging" ∷ [];
  support_text = "";
  support_contact_url = "";
  rounds_history_limit = pos 15;
}

abbrev pub settings : Settings
settings = record {
  environment = "production";
  games_enabled = "coin_flip" ∷ "bonus_wheel" ∷ [];
  coin_flip_min_bet = pos 1;
  coin_flip_max_bet = pos 100;
  coin_flip_cooldown_seconds = pos 0;
  coin_flip_allow_zero_cooldown_in_production = false;
  bonus_wheel_min_bet = pos 1;
  bonus_wheel_max_bet = pos 100;
  bonus_wheel_cooldown_seconds = pos 5;
  bonus_wheel_allow_zero_cooldown_in_production = false;
  game_access_min_tokens = pos 1;
  token_unit_scale = pos 1000;
  telegram_flip_prompt_rate_limit_per_minute = pos 30;
  telegram_flip_action_rate_limit_per_minute = pos 2;
  access_token_expire_minutes = pos 15;
  refresh_token_expire_days = pos 14;
  max_login_attempts = pos 2;
  attempt_window_seconds = pos 300;
  lockout_seconds = pos 900;
  login_rate_limit_per_minute = pos 5;
  refresh_rate_limit_per_minute = pos 30;
  read_rate_limit_per_minute = pos 120;
  write_rate_limit_per_minute = pos 30;
  drill_superadmin_token = "drill";
  drill_force_db_not_ready = false;
  billing = billing_settings;
  telegram = telegram_settings;
}

abbrev pub user : ℕ → User
user n = record {
  id = n;
  is_active = true;
  internal_note = none;
  telegram_user_id = none;
  whatsapp_phone_e164 = none;
  billing_customer_id = none;
}

abbrev pub admin : AdminUser
admin = record {
  id = 1;
  email = "root@example.org";
  password_hash = "#secret";
  role = "superadmin";
  is_active = true;
}

abbrev pub tables : Tables
tables = record {
  users = user 1 ∷ user 2 ∷ [];
  accounts =
      record { user_id = 1; balance = ratio (pos 50000) (pos 1000); balance_units = pos 50000 }
      ∷ [];
  ledger =
      record {
        user_id = 1;
        delta = ratio (pos 50000) (pos 1000);
        delta_units = pos 50000;
        reason = "seed";
      }
      ∷ [];
  rounds = [];
  audit_logs = [];
  next_user_id = 3;
  admin_users = admin ∷ [];
  admin_sessions = [];
  login_locks = [];
  subscriptions = [];
  webhook_events = [];
  next_subscription_id = 1;
  next_event_id = 1;
}

abbrev pub session : Session
session = record { work = tables; committed = tables; in_transaction = false }

pub tables-IsConserved : IsConserved tables
unfolding balance_in ledger_sum ◌+ℤ◌
tables-IsConserved = record { sums = λ v. ground arith; nonneg = λ v. ground arith }

pub session-IsSound : IsSound session
session-IsSound = record { working = tables-IsConserved; stored = tables-IsConserved }

abbrev pub request : RoundRequest
request = record {
  user_id = 1;
  game_id = "coin_flip";
  idempotency_key = "tg:7:cmd:1";
  bet_amount = int (pos 5);
  actor = "game_engine";
  details = none;
  payout_delta_units = some (int (negsuc 4999));
}

abbrev pub world : World
world = record {
  round_id = "r1";
  failed_id = "f1";
  now = 9000000;
  conflict = false;
  fault = none;
  seen = λ i. tables;
  lag = λ i. 1;
}

abbrev pub play : Play
play = record {
  user_id = 1;
  game_id = "bonus_wheel";
  bet_amount = pos 5;
  idempotency_key = "tg:7:cmd:2";
  actor = "game_engine";
}

abbrev pub engine_world : EngineWorld
engine_world = record { now = 8000000; draw = 5000000000000000; round = world }
