-- ===== src/Tests/Tokens.antt =====
-- Token units and compliance at concrete inputs.
use casino_bot.Prelude.{pos, negsuc, ◌+ℤ◌, ◌≤ℤ◌, ◌≡◌, ◌↔◌, ◌⊎◌, false}
use casino_bot.Python.{ok}
use casino_bot.Compliance.{ComplianceContext, token_debit, validate_operation}
use casino_bot.Compliance.Checks.{debit_admitted_iff}

abbrev debit : ComplianceContext
debit = record {
  balance_units = pos 10;
  delta_units = negsuc 9;
  pending_transfer = false;
  pending_cash_out = false;
}

debit_admitted_iff_example :
    (validate_operation token_debit debit ≡ ok tt)
    ↔ ((pos 0 ≤ℤ pos 10 +ℤ negsuc 9) × ((pos 0 ≤ℤ negsuc 9) ⊎ ((false ≡ false) × (false ≡ false))))
debit_admitted_iff_example = debit_admitted_iff debit
