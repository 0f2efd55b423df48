-- ===== src/Games/Types.antt =====
-- What a game takes and gives (src/casino_bot/games/types.py).
use casino_bot.Prelude.{ℕ, ℤ, String, Option}
use casino_bot.Python.{Dict}

pub record GameMeta : Type 0 where
  pub game_id : String
  pub title : String
  pub description : String
  pub min_bet : ℤ
  pub max_bet : ℤ

pub record GameInput : Type 0 where
  pub user_id : ℕ
  pub bet_amount : ℤ
  pub idempotency_key : String
  pub client_context : Option Dict

pub record GameResult : Type 0 where
  pub outcome : String
  pub payout_delta_units : ℤ
  pub prize : ℤ
  pub details : Dict

-- `RNG_VERSION` of src/casino_bot/games/rng.py.
abbrev pub rng_version : String
rng_version = "v1"
