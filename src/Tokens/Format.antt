-- ===== src/Tokens/Format.antt =====
-- Amounts of tokens as text (src/casino_bot/services/token_amounts.py).
use Prim.Native.String.{String, ◌++◌}
use casino_bot.Prelude.{pos, pos_part, neg, ltb_ℤ, if◌then◌else◌}
use casino_bot.Python.{Result, ok, err, value_error, PyValue, bind_result}
use casino_bot.Python.Decimal.{format_quotient}
use casino_bot.Tokens.{validate_units}

-- The text without its sign has no zeros and no point at its end, so that the `rstrip` calls leave
-- it as it is.
unfoldable pub format_signed_token_amount : PyValue → PyValue → Result String
unfolding validate_units
format_signed_token_amount units scale = bind_result (validate_units scale "scale") λ s.
    if ltb_ℤ s (pos 1)
    then err (value_error "scale must be >= 1")
    else bind_result (validate_units units "units") λ u.
      if ltb_ℤ u (pos 0)
      then ok ("-" ++ format_quotient (pos_part (neg u)) (pos_part s))
      else ok (format_quotient (pos_part u) (pos_part s))

-- The text of an amount that is not negative begins with no plus sign, so that `lstrip` leaves it.
unfoldable pub format_balance_message_units : PyValue → PyValue → Result String
unfolding validate_units
format_balance_message_units units scale = bind_result (validate_units units "units") λ u.
    if ltb_ℤ u (pos 0)
    then err (value_error "balance units must be non-negative")
    else bind_result (format_signed_token_amount units scale) λ body. ok ("Token balance: " ++ body)
