-- ===== src/Python/Text.antt =====
-- Python's text functions that the program uses, on ASCII letters, digits and white space: `strip`,
-- `lower`, `startswith`, the splitting at the first separator, and `int(text)`.
pub mod Numerals
use Prim.Native.Char.{Char, code}
use Prim.Native.String.{String, [], ◌∷◌, char_at}
use casino_bot.Prelude.{
  ℕ, ◌+◌, ◌-◌, ◌*◌, ℤ, pos, neg, Bool, true, false, ◌&&◌, ◌||◌, ◌==◌, leb, Option, none, some,
  if◌then◌else◌, ◌≡◌, refl, str_eq,
}

unfoldable pub is_space : Char → Bool
is_space c =
    code c == 32 || ((leb 9 (code c) && leb (code c) 13) || (leb 28 (code c) && leb (code c) 31))

unfoldable pub lstrip : String → String
unfolding is_space
lstrip [] = []
lstrip (c ∷ s) = let rest = lstrip s in if is_space c then rest else c ∷ s

-- A character stays if a later one does, or if it is no space.
unfoldable pub rstrip : String → String
unfolding is_space
rstrip [] = []
rstrip (c ∷ s) = let rest = rstrip s in if is_space c && str_eq rest [] then [] else c ∷ rest

unfoldable pub strip : String → String
unfolding lstrip rstrip
strip s = rstrip (lstrip s)

lower_char : Char → Char
lower_char c =
    if leb 65 (code c) && leb (code c) 90
    then char_at "abcdefghijklmnopqrstuvwxyz" (code c - 65)
    else c

unfoldable pub lower : String → String
unfolding lower_char
lower [] = []
lower (c ∷ s) = lower_char c ∷ lower s

unfoldable pub starts_with : (prefix : String) → String → Bool
starts_with [] s = true
starts_with (c ∷ p) [] = false
starts_with (c ∷ p) (d ∷ s) = code c == code d && starts_with p s

-- The text before and after the first separator, where there is one.
abbrev pub cons_first : Char → Option (String × String) → Option (String × String)
cons_first c none = none
cons_first c (some (a, b)) = some (c ∷ a, b)

unfoldable pub split_at : (separator : ℕ) → String → Option (String × String)
split_at separator [] = none
split_at separator (c ∷ s) =
    let rest = split_at separator s in
    if code c == separator then some ([], s) else cons_first c rest

pub is_digit : Char → Bool
is_digit c = leb 48 (code c) && leb (code c) 57

-- Digits, with single underscores between them.
unfoldable pub digits_value : String → ℕ → Bool → Option ℕ
unfolding is_digit
digits_value [] acc after_digit = if after_digit then some acc else none
digits_value (c ∷ s) acc after_digit =
    let more = digits_value s (acc * 10 + (code c - 48)) true in
    let gap = digits_value s acc false in
    if is_digit c then more else if code c == 95 && after_digit then gap else none

abbrev pub signed : Bool → Option ℕ → Option ℤ
signed negative none = none
signed negative (some n) = some (if negative then neg (pos n) else pos n)

pub parse_signed : String → Option ℤ
unfolding digits_value
parse_signed [] = none
parse_signed (c ∷ s) =
    if code c == 45
    then signed true (digits_value s 0 false)
    else if code c == 43
    then signed false (digits_value s 0 false)
    else signed false (digits_value (c ∷ s) 0 false)

-- `int(text)`; nothing is a `ValueError`.
unfoldable pub parse_int : String → Option ℤ
unfolding parse_signed strip
parse_int s = parse_signed (strip s)

parse_int_runs : parse_int " -1_204 " ≡ some (neg (pos 1204))
unfolding parse_int
parse_int_runs = refl

lower_runs : lower (strip " Root@Example.ORG ") ≡ "root@example.org"
unfolding lower strip
lower_runs = refl
