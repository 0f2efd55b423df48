-- ===== src/Tokens.antt =====
-- Integer token units (src/casino_bot/services/token_amounts.py): a whole visible token is `scale`
-- units. The functions take dynamic values, since the code tests their types.
pub mod Units
pub mod Format
use casino_bot.Prelude.{ℤ, pos, negsuc, pos_part, ◌*ℤ◌, ◌/◌, ℕ, ltb_ℤ, Bool, String, if◌then◌else◌}
use casino_bot.Python.{
  Result, ok, err, type_error, value_error, PyValue, int, bool, other, type_name, bind_result,
  StorageFloat, ratio,
}
use Prim.Native.String.{◌++◌ as str_append}

unfoldable pub validate_units : PyValue → String → Result ℤ
validate_units (int n) name = ok n
validate_units (bool b) name =
    err (type_error (str_append name " must be a non-boolean int, got bool"))
validate_units (other t) name =
    err (type_error (str_append name (str_append " must be a non-boolean int, got " t)))

unfoldable pub tokens_whole_to_units : PyValue → PyValue → Result ℤ
unfolding validate_units
tokens_whole_to_units tokens scale = bind_result (validate_units scale "scale") λ s.
    if ltb_ℤ s (pos 1)
    then err (value_error "scale must be >= 1")
    else bind_result (validate_units tokens "tokens")
        λ t. if ltb_ℤ t (pos 0) then err (value_error "tokens must be >= 0") else ok (t *ℤ s)

-- Python's `a // b` for a positive `b`: it rounds towards minus infinity.
abbrev pub floor_div : ℤ → ℕ → ℤ
floor_div (pos a) b = pos (a / b)
floor_div (negsuc a) b = negsuc (a / b)

unfoldable pub units_to_whole_tokens_floor : PyValue → PyValue → Result ℤ
unfolding validate_units
units_to_whole_tokens_floor units scale = bind_result (validate_units units "units") λ u.
    bind_result (validate_units scale "scale") λ s.
      if ltb_ℤ s (pos 1)
      then err (value_error "scale must be >= 1")
      else if ltb_ℤ u (pos 0)
      then err (value_error "units must be >= 0 for floor token conversion")
      else ok (floor_div u (pos_part s))

unfoldable pub units_to_storage_float : PyValue → PyValue → Result StorageFloat
unfolding validate_units
units_to_storage_float units scale = bind_result (validate_units units "units") λ u.
    bind_result (validate_units scale "scale")
      λ s. if ltb_ℤ s (pos 1) then err (value_error "scale must be >= 1") else ok (ratio u s)
