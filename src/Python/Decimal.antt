-- ===== src/Python/Decimal.antt =====
-- Numbers as text: quotients rounded to some significant digits, half to even, as the type `Decimal`
-- (28 digits) and the format `g` (6 digits) print them, and times of the clock as UTC dates.
use Prim.Native.String.{◌++◌ as str_append}
use casino_bot.Prelude.{
  ℕ, zero, suc, ◌+◌, ◌-◌, ◌*◌, ◌/◌, ◌%◌, ◌^◌, ℤ, pos, negsuc, pos_part, neg, ◌-ℤ◌, leb, ltb, leb_ℤ,
  ltb_ℤ, String, ◌==◌, ◌&&◌, if◌then◌else◌, ◌≡◌, refl,
}
use casino_bot.Python.{str_ℕ}

round_half_even : ℕ → ℕ → ℕ
round_half_even n d =
    let q = n / d in
    let twice = 2 * (n % d) in
    if ltb twice d then q else if ltb d twice then q + 1 else if q % 2 == 0 then q else q + 1

-- A coefficient and its decimal places: the number is the coefficient times ten to minus the places.
pub record Decimal : Type 0 where
  pub coefficient : ℕ
  pub places : ℤ

-- The quotient with so many decimal places.
with_places : ℕ → ℕ → ℤ → Decimal
unfolding round_half_even
with_places a b places = record {
  coefficient = round_half_even (a * 10 ^ pos_part places) (b * 10 ^ pos_part (neg places));
  places = places;
}

-- `len(str(n))`; a number has fewer digits than its successor counts.
count_digits : ℕ → ℕ → ℕ
count_digits zero n = 1
count_digits (suc fuel) n =
    let rest = count_digits fuel (n / 10) in if n / 10 == 0 then 1 else rest + 1

digit_count : ℕ → ℕ
unfolding count_digits
digit_count n = count_digits (n + 1) n

-- A positive quotient with `precision` significant digits.
unfoldable pub quotient : (precision : ℕ) → ℕ → ℕ → Decimal
unfolding with_places digit_count
quotient precision a b =
    let places = pos (precision + digit_count b) -ℤ pos (digit_count a) in
    let whole = a * 10 ^ pos_part places / (b * 10 ^ pos_part (neg places)) in
    if leb (10 ^ precision) whole then with_places a b (places -ℤ pos 1) else with_places a b places

-- `normalize()`: no zeros at the end of the coefficient; the fuel is a bound on their number.
strip_zeros : ℕ → Decimal → Decimal
strip_zeros zero d = d
strip_zeros (suc fuel) d =
    let rest =
      strip_zeros fuel (record { coefficient = d.coefficient / 10; places = d.places -ℤ pos 1 }) in
    if d.coefficient % 10 == 0 then rest else d

zeros : ℕ → String
zeros zero = ""
zeros (suc n) = str_append "0" (zeros n)

-- A number with leading zeros, to a width.
unfoldable pub padded : ℕ → ℕ → String
unfolding zeros digit_count
padded width n = str_append (zeros (width - digit_count n)) (str_ℕ n)

-- The format `f`.
unfoldable pub plain : Decimal → String
unfolding zeros padded
plain d =
    let unit = 10 ^ pos_part d.places in
    if leb_ℤ d.places (pos 0)
    then str_append (str_ℕ d.coefficient) (zeros (pos_part (neg d.places)))
    else str_append (str_ℕ (d.coefficient / unit))
        (str_append "." (padded (pos_part d.places) (d.coefficient % unit)))

-- `format((Decimal(a) / Decimal(b)).normalize(), "f")` for a positive `b`.
unfoldable pub format_quotient : ℕ → ℕ → String
unfolding strip_zeros
format_quotient a b = if a == 0 then "0" else plain (strip_zeros 28 (quotient 28 a b))

sign_of : ℤ → String
sign_of n = if ltb_ℤ n (pos 0) then "-" else ""

magnitude : ℤ → ℕ
magnitude n = if ltb_ℤ n (pos 0) then pos_part (neg n) else pos_part n

-- The exponent of a coefficient with six digits, or of a million after rounding.
exponent_g : Decimal → ℤ
exponent_g d = pos (if leb 1000000 d.coefficient then 6 else 5) -ℤ d.places

-- A mantissa from one to below ten, and an exponent of two digits or more.
scientific : Decimal → ℤ → String
unfolding strip_zeros
scientific d e =
    let mantissa = strip_zeros 6 (record d { places = d.places -ℤ neg e }) in
    let size = padded 2 (pos_part (if ltb_ℤ e (pos 0) then neg e else e)) in
    str_append (plain mantissa) (str_append (if ltb_ℤ e (pos 0) then "e-" else "e+") size)

-- `f"{x:g}"` for the quotient of a number and a positive one.
unfoldable pub format_g : ℤ → ℕ → String
unfolding sign_of magnitude strip_zeros exponent_g scientific
format_g a b =
    let d = quotient 6 (magnitude a) b in
    let e = exponent_g d in
    if magnitude a == 0
    then "0"
    else if leb_ℤ (neg (pos 4)) e && ltb_ℤ e (pos 6)
    then str_append (sign_of a) (plain (strip_zeros 6 d))
    else str_append (sign_of a) (scientific d e)

-- Days since 1970 as a year, a month and a day, by eras of 400 years that begin on the first of
-- March.
date_text : ℕ → String
date_text days =
    let z = days + 719468 in
    let doe = z % 146097 in
    let yoe = (doe - doe / 1460 + doe / 36524 - doe / 146096) / 365 in
    let doy = doe - (365 * yoe + yoe / 4 - yoe / 100) in
    let mp = (5 * doy + 2) / 153 in
    let day = doy - (153 * mp + 2) / 5 + 1 in
    let month = if ltb mp 10 then mp + 3 else mp - 9 in
    let year = yoe + z / 146097 * 400 + (if leb month 2 then 1 else 0) in
    str_append (padded 4 year)
      (str_append "-" (str_append (padded 2 month) (str_append "-" (padded 2 day))))

-- `strftime("%Y-%m-%d %H:%M UTC")` of microseconds since 1970.
unfoldable pub utc_text : ℕ → String
unfolding date_text
utc_text t =
    let minutes = t / 60000000 in
    str_append (date_text (minutes / 1440)) (
      str_append " " (
        str_append (padded 2 (minutes % 1440 / 60))
          (str_append ":" (str_append (padded 2 (minutes % 60)) " UTC"))))

prints_quotient : format_quotient 2500 1000 ≡ "2.5"
unfolding format_quotient quotient plain padded ◌-ℤ◌ str_ℕ
prints_quotient = refl

prints_third : format_quotient 2 3 ≡ "0.6666666666666666666666666667"
unfolding format_quotient quotient plain padded ◌-ℤ◌ str_ℕ
prints_third = refl

prints_hundreds : format_quotient 1200000 1000 ≡ "1200"
unfolding format_quotient quotient plain padded ◌-ℤ◌ str_ℕ
prints_hundreds = refl

prints_g : format_g (pos 12345678) 1 ≡ "1.23457e+07"
unfolding format_g quotient plain padded ◌-ℤ◌ str_ℕ
prints_g = refl

prints_small_g : format_g (negsuc 24) 1000 ≡ "-0.025"
unfolding format_g quotient plain padded ◌-ℤ◌ str_ℕ
prints_small_g = refl

prints_time : utc_text 1709208000000000 ≡ "2024-02-29 12:00 UTC"
unfolding utc_text padded str_ℕ
prints_time = refl
