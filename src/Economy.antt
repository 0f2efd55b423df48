-- ===== src/Economy.antt =====
-- The token ledger (src/casino_bot/services/economy_service.py).
pub mod Balances
pub mod Adjust
pub mod Conservation
use casino_bot.Prelude.{
  ℕ, ◌+◌, ℤ, pos, ◌+ℤ◌, leb_ℤ, Bool, true, false, String, Option, none, some, List, [], ◌∷◌, ◌++◌,
  first, update_first, if◌then◌else◌, ◌&&◌, ◌||◌, str_eq, not,
}
use casino_bot.Python.{
  Action, Result, ok, err, value_error, integrity_error, int, lift, pure, raise, raise_if, ◌>>=◌,
  ◌>>◌, StorageFloat, zero_float, Json, null, number, text, json_of, Dict, str_ℕ,
}
use casino_bot.Settings.{Settings}
use casino_bot.Tokens.{validate_units, units_to_storage_float}
use casino_bot.Compliance.{ComplianceContext, token_credit, token_debit, validate_operation}
use casino_bot.Database.{
  User, TokenAccount, LedgerEntry, Tables, Session, Db, query, write, has_user, has_account,
  audit_log, is_found,
}

-- The channel identities, which are unique in `users` when they are set.
abbrev pub same_ℤ : Option ℤ → Option ℤ → Bool
same_ℤ (some a) (some b) = leb_ℤ a b && leb_ℤ b a
same_ℤ _ _ = false

abbrev same_text : Option String → Option String → Bool
same_text (some a) (some b) = str_eq a b
same_text _ _ = false

unfoldable pub shares_identity : Option ℤ → Option String → User → Bool
shares_identity telegram_user_id whatsapp_phone_e164 u =
    same_ℤ telegram_user_id u.telegram_user_id
    || same_text whatsapp_phone_e164 u.whatsapp_phone_e164

unfoldable pub empty_account : ℕ → TokenAccount
empty_account user_id = record { user_id = user_id; balance = zero_float; balance_units = pos 0 }

unfoldable pub add_account : ℕ → Tables → Tables
unfolding empty_account
add_account user_id t = record t { accounts = t.accounts ++ empty_account user_id ∷ [] }

unfoldable pub create_user :
    String → Option String → Option ℤ → Option String → Option String → Db User
unfolding shares_identity add_account audit_log
create_user actor internal_note telegram_user_id whatsapp_phone_e164 billing_customer_id = do
  taken ←
      query (λ t. is_found (first (shares_identity telegram_user_id whatsapp_phone_e164) t.users))
  raise_if taken (integrity_error "users")
  user_id ← query (λ t. t.next_user_id)
  let user : User = record {
    id = user_id;
    is_active = true;
    internal_note = internal_note;
    telegram_user_id = telegram_user_id;
    whatsapp_phone_e164 = whatsapp_phone_e164;
    billing_customer_id = billing_customer_id;
  }
  write (λ t. record t { users = t.users ++ user ∷ []; next_user_id = user_id + 1 })
  write (add_account user_id)
  audit_log actor "user_created" (
      some (
        ("user_id", number (pos user_id))
        ∷ ("telegram_user_id", json_of number telegram_user_id)
        ∷ ("whatsapp_phone_e164", json_of text whatsapp_phone_e164)
        ∷ []))
  pure user

-- The test `if account is None`, with the account that is added there.
unfoldable pub account_or_new : ℕ → Option TokenAccount → Db TokenAccount
unfolding add_account
account_or_new user_id (some account) = pure account
account_or_new user_id none = write (add_account user_id) >> pure (empty_account user_id)

unfoldable pub get_or_create_account : ℕ → Db TokenAccount
unfolding account_or_new
get_or_create_account user_id = do
  found ← query (λ t. first (has_account user_id) t.accounts)
  account_or_new user_id found

-- The row of the account after an assignment to its attributes.
unfoldable pub put_account : TokenAccount → Tables → Tables
put_account account t = record t {
  accounts = update_first (has_account account.user_id) (λ _. account) t.accounts;
}

unfoldable pub add_entry : LedgerEntry → Tables → Tables
add_entry entry t = record t { ledger = t.ledger ++ entry ∷ [] }

-- The rest of `adjust_user_tokens`, once the checks have passed.
unfoldable pub post_delta : Settings → ℕ → ℤ → String → String → TokenAccount → Db TokenAccount
unfolding put_account add_entry audit_log
post_delta settings user_id delta_units reason actor account = do
  let scale = settings.token_unit_scale
  let charged : TokenAccount = record account {
    balance_units = account.balance_units +ℤ delta_units;
  }
  write (put_account charged)
  balance ← lift (units_to_storage_float (int charged.balance_units) (int scale))
  let adjusted : TokenAccount = record charged { balance = balance }
  write (put_account adjusted)
  delta ← lift (units_to_storage_float (int delta_units) (int scale))
  write (
      add_entry
        (record { user_id = user_id; delta = delta; delta_units = delta_units; reason = reason }))
  audit_log actor "token_balance_adjust" (
      some (
        ("user_id", number (pos user_id))
        ∷ ("delta_units", number delta_units)
        ∷ ("reason", text reason)
        ∷ ("balance_units_after", number adjusted.balance_units)
        ∷ []))
  pure adjusted

-- The compliance check of an adjustment.
unfoldable pub check_delta : ℤ → ℤ → Bool → Bool → Result (Unit {0})
check_delta balance_units delta_units pending_transfer pending_cash_out =
    let operation = if leb_ℤ (pos 0) delta_units then token_credit else token_debit in
    validate_operation operation (record {
      balance_units = balance_units;
      delta_units = delta_units;
      pending_transfer = pending_transfer;
      pending_cash_out = pending_cash_out;
    })

unfoldable pub adjust_user_tokens :
    Settings → ℕ → ℤ → String → String → Bool → Bool → Db TokenAccount
unfolding validate_units
adjust_user_tokens settings user_id delta_units reason actor pending_transfer pending_cash_out = do
  lift (validate_units (int delta_units) "delta_units")
  user ← query (λ t. first (has_user user_id) t.users)
  raise_if (not (is_found user)) (value_error "User not found")
  account ← get_or_create_account user_id
  lift (check_delta account.balance_units delta_units pending_transfer pending_cash_out)
  post_delta settings user_id delta_units reason actor account
