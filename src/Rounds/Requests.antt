-- ===== src/Rounds/Requests.antt =====
-- What a round is asked for, and the checks and amounts that come before its transaction
-- (src/casino_bot/services/game_round_service.py).
use casino_bot.Prelude.{ℕ, ℤ, pos, neg, ltb_ℤ, leb_ℤ, String, Option, none, some, if◌then◌else◌}
use casino_bot.Python.{value_error, Result, ok, err, PyValue, int, bind_result, StorageFloat, Dict}
use casino_bot.Settings.{Settings}
use casino_bot.Tokens.{validate_units, tokens_whole_to_units, units_to_storage_float}

abbrev pub max_bet_amount : ℤ
max_bet_amount = pos 10000

pub record RoundRequest : Type 0 where
  pub user_id : ℕ
  pub game_id : String
  pub idempotency_key : String
  pub bet_amount : PyValue
  pub actor : String
  pub details : Option Dict
  pub payout_delta_units : Option PyValue

-- The amounts of a round, once the arguments have been checked.
pub record Amounts : Type 0 where
  pub bet_amount : ℤ
  pub bet_units : ℤ
  pub attempted_delta_units : ℤ
  pub attempted_delta_float : StorageFloat
  pub bet_float : StorageFloat

-- The checks of the stake.
unfoldable pub check_bet : PyValue → Result ℤ
check_bet (int n) =
    if leb_ℤ n (pos 0)
    then err (value_error "bet_amount must be > 0")
    else if ltb_ℤ max_bet_amount n
    then err (value_error "bet_amount exceeds Phase 1 maximum")
    else ok n
check_bet _ = err (value_error "bet_amount must be an int (whole visible tokens)")

unfoldable pub attempted_delta : ℤ → Option PyValue → Result ℤ
attempted_delta bet_units none = ok (neg bet_units)
attempted_delta bet_units (some value) = validate_units value "payout_delta_units"

unfoldable pub amounts : Settings → RoundRequest → Result Amounts
unfolding check_bet attempted_delta
amounts settings req =
    let scale = int settings.token_unit_scale in
    bind_result (check_bet req.bet_amount) λ bet.
      bind_result (tokens_whole_to_units (int bet) scale) λ bet_units.
        bind_result (attempted_delta bet_units req.payout_delta_units) λ delta.
          bind_result (units_to_storage_float (int delta) scale) λ delta_float.
            bind_result (units_to_storage_float (int bet_units) scale) λ bet_float. ok (record {
              bet_amount = bet;
              bet_units = bet_units;
              attempted_delta_units = delta;
              attempted_delta_float = delta_float;
              bet_float = bet_float;
            })
