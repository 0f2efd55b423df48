-- ===== src/Compliance/Checks.antt =====
-- What the registered checks admit, operation by operation.
use casino_bot.Prelude.{pos, ◌+ℤ◌, ◌≤ℤ◌, ◌≡◌, ◌↔◌, ◌⊎◌, false, arith}
use casino_bot.Python.{ok}
use casino_bot.Compliance.{ComplianceContext, token_debit, validate_operation}

-- A debit passes exactly if the balance after it is not negative and, where it really takes
-- something, no request is pending.
pub debit_admitted_iff :
    (ctx : ComplianceContext)
    → (validate_operation token_debit ctx ≡ ok tt) ↔ (
        (pos 0 ≤ℤ ctx.balance_units +ℤ ctx.delta_units)
        × ((pos 0 ≤ℤ ctx.delta_units)
            ⊎ ((ctx.pending_cash_out ≡ false) × (ctx.pending_transfer ≡ false))))
unfolding validate_operation
debit_admitted_iff ctx = (λ h. ground arith, λ h. ground arith)
