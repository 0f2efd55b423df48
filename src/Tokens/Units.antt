-- ===== src/Tokens/Units.antt =====
-- Conversions between whole tokens and units: round trip, rounding, and the exact refusals.
use native.Mathlib.Nat.{mul-div_cancel, zero-lt-suc, div-mul-le_self, lt-div-mul-add}
use casino_bot.Prelude.{zero, suc, ℤ, pos, negsuc, ◌*ℤ◌, ◌+ℤ◌, ◌/◌, ◌≤ℤ◌, ◌<ℤ◌, ◌≡◌, arith}
use casino_bot.Prelude.Int.{pos-*ℤ-pos, pos-+ℤ-pos}
use casino_bot.Python.{ok, int}
use casino_bot.Tokens.{tokens_whole_to_units, units_to_whole_tokens_floor}

-- For a scale of at least one and a non-negative amount both conversions succeed, and the floor
-- of the units is the amount that was converted.
pub floor-of_whole_tokens :
    (t s : ℤ)
    → pos 0 ≤ℤ t
    → pos 1 ≤ℤ s
    → (tokens_whole_to_units (int t) (int s) ≡ ok (t *ℤ s))
      × (units_to_whole_tokens_floor (int (t *ℤ s)) (int s) ≡ ok t)
unfolding tokens_whole_to_units units_to_whole_tokens_floor
floor-of_whole_tokens (pos a) (pos (suc b)) h k = (
  ground arith,
  rw (pos-*ℤ-pos a (suc b)) (ground (arith, mul-div_cancel a {n = suc b} (zero-lt-suc b))),
)
floor-of_whole_tokens (pos a) (pos zero) h k = absurd (omega arith)
floor-of_whole_tokens (negsuc a) s h k = absurd (omega arith)
floor-of_whole_tokens (pos a) (negsuc b) h k = absurd (omega arith)

-- A floor that is returned is the number of whole tokens in the units: they fit, and one more does
-- not.
pub floor_bounds :
    (u s q : ℤ)
    → units_to_whole_tokens_floor (int u) (int s) ≡ ok q
    → (q *ℤ s ≤ℤ u) × (u <ℤ (q +ℤ pos 1) *ℤ s)
unfolding units_to_whole_tokens_floor
floor_bounds (pos a) (pos (suc b)) q h =
    let e : q ≡ pos (a / suc b) = ground arith in
    rw (e, pos-+ℤ-pos (a / suc b) 1, pos-*ℤ-pos, pos-*ℤ-pos)
      (omega (arith, div-mul-le_self a (suc b), lt-div-mul-add {a = a} {b = suc b} (zero-lt-suc b)))
floor_bounds (pos a) (pos zero) q h = absurd (ground arith)
floor_bounds (pos a) (negsuc b) q h = absurd (ground arith)
floor_bounds (negsuc a) s q h = absurd (ground arith)
