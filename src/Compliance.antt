-- ===== src/Compliance.antt =====
-- The compliance rules (src/casino_bot/compliance/): operations, their ordered checks, and the
-- older assertion helpers.
pub mod Checks
use casino_bot.Prelude.{
  ℤ, pos, ◌+ℤ◌, ltb_ℤ, leb_ℤ, Bool, true, false, ◌&&◌, List, [], ◌∷◌, if◌then◌else◌,
}
use casino_bot.Python.{Result, ok, err, compliance_violation, bind_result}

pub record ComplianceContext : Type 0 where
  pub balance_units : ℤ
  pub delta_units : ℤ
  pub pending_transfer : Bool
  pub pending_cash_out : Bool

pub data Operation : Type 0 where
  token_credit token_debit transfer cash_out : Operation

abbrev pub OperationCheck : Type 0
OperationCheck = ComplianceContext → Result (Unit {0})

unfoldable pub negative_balance : OperationCheck
negative_balance ctx =
    if ltb_ℤ (ctx.balance_units +ℤ ctx.delta_units) (pos 0)
    then err (compliance_violation "Operation would result in negative balance")
    else ok tt

unfoldable pub debit_blocked_pending_cash_out : OperationCheck
debit_blocked_pending_cash_out ctx =
    if ctx.pending_cash_out && ltb_ℤ ctx.delta_units (pos 0)
    then err (compliance_violation "Token debits are blocked while a cash-out request is pending")
    else ok tt

unfoldable pub debit_blocked_pending_transfer : OperationCheck
debit_blocked_pending_transfer ctx =
    if ctx.pending_transfer && ltb_ℤ ctx.delta_units (pos 0)
    then err (compliance_violation "Token debits are blocked while a transfer request is pending")
    else ok tt

unfoldable pub credit_blocked_pending_cash_out : OperationCheck
credit_blocked_pending_cash_out ctx =
    if ctx.pending_cash_out && ltb_ℤ (pos 0) ctx.delta_units
    then err (compliance_violation "Token credits are blocked while a cash-out request is pending")
    else ok tt

unfoldable pub credit_blocked_pending_transfer : OperationCheck
credit_blocked_pending_transfer ctx =
    if ctx.pending_transfer && ltb_ℤ (pos 0) ctx.delta_units
    then err (compliance_violation "Token credits are blocked while a transfer request is pending")
    else ok tt

unfoldable pub transfer_policy : OperationCheck
transfer_policy ctx =
    if ctx.pending_transfer
    then err (compliance_violation "A transfer request is already pending")
    else err (compliance_violation "Transfers between users are prohibited (non-gambling)")

unfoldable pub cash_out_policy : OperationCheck
cash_out_policy ctx =
    if ctx.pending_cash_out
    then err (compliance_violation "A cash-out request is already pending")
    else err (compliance_violation "Cash-out is prohibited (non-gambling)")

-- `REGISTRY`.
unfoldable pub registry : Operation → List OperationCheck
unfolding negative_balance debit_blocked_pending_cash_out debit_blocked_pending_transfer
    credit_blocked_pending_cash_out credit_blocked_pending_transfer transfer_policy cash_out_policy
registry token_debit =
    negative_balance ∷ debit_blocked_pending_cash_out ∷ debit_blocked_pending_transfer ∷ []
registry token_credit = credit_blocked_pending_cash_out ∷ credit_blocked_pending_transfer ∷ []
registry transfer = transfer_policy ∷ []
registry cash_out = cash_out_policy ∷ []

unfoldable pub run_checks : List OperationCheck → OperationCheck
run_checks [] ctx = ok tt
run_checks (check ∷ checks) ctx = bind_result (check ctx) (λ _. run_checks checks ctx)

unfoldable pub validate_operation : Operation → OperationCheck
unfolding registry run_checks
validate_operation operation ctx = run_checks (registry operation) ctx

-- src/casino_bot/compliance/constraints.py.
unfoldable pub assert_no_cash_out : Bool → Result (Unit {0})
assert_no_cash_out cash_out_enabled =
    if cash_out_enabled then err (compliance_violation "Cash-out is prohibited") else ok tt

unfoldable pub assert_no_transfer : Bool → Result (Unit {0})
assert_no_transfer transfer_enabled =
    if transfer_enabled
    then err (compliance_violation "Transfers between users are prohibited")
    else ok tt

unfoldable pub forbid_negative_balance : ℤ → ℤ → Result (Unit {0})
unfolding validate_operation
forbid_negative_balance balance_units delta_units =
    if leb_ℤ (pos 0) delta_units
    then ok tt
    else validate_operation token_debit (record {
      balance_units = balance_units;
      delta_units = delta_units;
      pending_transfer = false;
      pending_cash_out = false;
    })
