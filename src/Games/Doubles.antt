-- ===== src/Games/Doubles.antt =====
-- The doubles that the games compute with: numbers from 2^-12 to 1 with 53 significant bits, and
-- `random()`, which is `draw / 2^53` for a draw below 2^53. A double stands here as its multiple of
-- 2^-64. Division and addition round to the nearest double, and to the even one of two.
use casino_bot.Prelude.{
  ℕ, zero, suc, ◌+◌, ◌-◌, ◌*◌, ◌/◌, ◌%◌, ◌^◌, ltb, leb, if◌then◌else◌, ◌≡◌, refl,
}

-- How often p / q has to be doubled until its integer part has 53 bits.
doublings : ℕ → ℕ → ℕ → ℕ → ℕ
doublings zero p q k = k
doublings (suc fuel) p q k =
    let rest = doublings fuel p q (k + 1) in if leb (q * 2 ^ 52) (p * 2 ^ k) then k else rest

round_half_even : ℕ → ℕ → ℕ
round_half_even n d =
    let r = n % d in
    if ltb (2 * r) d then n / d else if ltb d (2 * r) then n / d + 1 else n / d + (n / d) % 2

-- The double nearest to p / q.
unfoldable pub nearest : ℕ → ℕ → ℕ
unfolding doublings round_half_even
nearest p q = let k = doublings 64 p q 0 in round_half_even (p * 2 ^ k) q * 2 ^ (64 - k)

-- `a / b` of two integers.
unfoldable pub double_div : ℕ → ℕ → ℕ
unfolding nearest
double_div a b = nearest a b

-- `x + y` of two doubles.
unfoldable pub double_add : ℕ → ℕ → ℕ
unfolding nearest
double_add x y = nearest (x + y) (2 ^ 64)

abbrev pub one_half : ℕ
one_half = 2 ^ 63

-- `random()` for a draw of 53 bits.
abbrev pub random : ℕ → ℕ
random draw = draw * 2 ^ 11

double_div_third : double_div 1 3 ≡ 6004799503160661 * 2 ^ 10
unfolding double_div
double_div_third = refl
