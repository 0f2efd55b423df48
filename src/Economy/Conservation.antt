-- ===== src/Economy/Conservation.antt =====
-- The invariant of the token economy: every balance is the sum of the user's ledger entries, and
-- none is negative. `adjust_user_tokens` and `create_user` keep it however they end.
use casino_bot.Prelude.{
  ℕ, ℤ, pos, ◌+ℤ◌, ◌≤ℤ◌, ◌≡◌, refl, Bool, String, Option, arith, first, Bool-cases, inl, inr,
}
use casino_bot.Python.{Result, ok, err}
use casino_bot.Settings.{Settings}
use casino_bot.Compliance.{validate_operation}
use casino_bot.Database.{TokenAccount, Tables, Session, is_found}
use casino_bot.Economy.{check_delta, create_user, shares_identity}
use casino_bot.Economy.Balances.{balance_of, ledger_sum, balance_in-append_empty}
use casino_bot.Economy.Adjust.{Posted, Refused, Adjusts, adjusted, adjust-Adjusts, adjust_checked}

pub record IsConserved (t : Tables) : Type 0 where
  pub sums : (v : ℕ) → balance_of v t ≡ ledger_sum v t.ledger
  pub nonneg : (v : ℕ) → pos 0 ≤ℤ balance_of v t

-- A check that passes leaves no negative balance behind.
pub check_delta-nonneg :
    (balance delta : ℤ) (pending_transfer pending_cash_out : Bool)
    → pos 0 ≤ℤ balance
    → check_delta balance delta pending_transfer pending_cash_out ≡ ok tt
    → pos 0 ≤ℤ balance +ℤ delta
unfolding check_delta validate_operation ◌+ℤ◌
check_delta-nonneg balance delta pending_transfer pending_cash_out h k = ground arith

Posted-IsConserved :
    (u : ℕ) (delta : ℤ) (s s' : Session) (a : TokenAccount)
    → IsConserved s.work
    → pos 0 ≤ℤ balance_of u s.work +ℤ delta
    → Posted u delta s s' a
    → IsConserved s'.work
Posted-IsConserved u delta s s' a c h p = record {
  sums = λ v. rw (p.balances v, p.sums v) (ground (arith, c.sums v, c.sums u));
  nonneg = λ v. rw (p.balances v) (ground (arith, c.nonneg v));
}

Refused-IsConserved : (s s' : Session) → IsConserved s.work → Refused s s' → IsConserved s'.work
Refused-IsConserved s s' c r = record {
  sums = λ v. rw (r.balances v, r.ledger) (c.sums v);
  nonneg = λ v. rw (r.balances v) (c.nonneg v);
}

module _ (settings : Settings) (scale : pos 1 ≤ℤ settings.token_unit_scale) where
  -- For a scale of at least one, and however an adjustment ends: every balance is still the sum of
  -- its entries, and none is negative, if that held before.
  pub adjust-IsConserved :
      (u : ℕ) (delta : ℤ) (reason actor : String) (pending_transfer pending_cash_out : Bool)
      (s : Session)
      → IsConserved s.work
      → IsConserved
          (adjusted settings u delta reason actor pending_transfer pending_cash_out s).1.work
  adjust-IsConserved u delta reason actor pending_transfer pending_cash_out s c =
      by_result result.0 refl
        (adjust-Adjusts settings u delta reason actor pending_transfer pending_cash_out s scale)
    where
      result : Result TokenAccount × Session
      result = adjusted settings u delta reason actor pending_transfer pending_cash_out s

      by_result :
          (r : Result TokenAccount)
          → result.0 ≡ r
          → Adjusts u delta s (r, result.1)
          → IsConserved result.1.work
      by_result (err e) eq refused = Refused-IsConserved s result.1 c refused
      by_result (ok a) eq posted =
          Posted-IsConserved u delta s result.1 a c
            (check_delta-nonneg (balance_of u s.work) delta pending_transfer pending_cash_out
              (c.nonneg u)
              (adjust_checked settings u delta reason actor pending_transfer pending_cash_out s eq))
            posted

-- However the creation of a user ends, every balance is still the sum of its entries, and none is
-- negative, if that held before.
pub create_user-IsConserved :
    (actor : String) (internal_note : Option String) (telegram_user_id : Option ℤ)
    (whatsapp_phone_e164 billing_customer_id : Option String) (s : Session)
    → IsConserved s.work
    → IsConserved
        (create_user actor internal_note telegram_user_id whatsapp_phone_e164 billing_customer_id
          s).1.work
unfolding create_user
create_user-IsConserved actor internal_note telegram_user_id whatsapp_phone_e164 billing_customer_id
      s c =
    elim (Bool-cases
      (is_found (first (shares_identity telegram_user_id whatsapp_phone_e164) s.work.users))) [
        | inl taken ↦ rw taken (record { sums = c.sums; nonneg = c.nonneg })
        | inr free ↦ rw free (record {
          sums = λ v. rw balance_in-append_empty (c.sums v);
          nonneg = λ v. rw balance_in-append_empty (c.nonneg v);
        })
      ]
