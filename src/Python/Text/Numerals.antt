-- ===== src/Python/Text/Numerals.antt =====
-- The texts of integers: what `str` writes, `int` reads.
use Prim.Native.Char.{Char, code}
use Prim.Native.String.{String, [], ◌∷◌, ◌++◌}
use native.Mathlib.Nat.{div-add-mod, mod-lt, mul_assoc, zero-add, zero-mul}
use text.Mathlib.TextLemmas.{nil-append, cons-append, append_assoc, append-nil}
use casino_bot.Prelude.{
  ℕ, zero, suc, ◌+◌, ◌-◌, ◌*◌, ◌/◌, ◌%◌, ◌<◌, ◌≡◌, refl, sym, ◌∙◌, ap, ℤ, pos, negsuc, neg, Bool,
  true, false, ◌==◌, some, arith, Bool-cases, inl, inr,
}
use casino_bot.Python.{digit, digits_from, str_ℕ, str_ℤ}
use casino_bot.Python.Text.{
  is_space, is_digit, digits_value, lstrip, rstrip, strip, signed, parse_signed, parse_int,
  split_at,
}

-- A digit is one character.
digit_char : (d : ℕ) → d < 10 → (c : Char) × (digit d ≡ c ∷ []) × (code c ≡ 48 + d)
unfolding digit
digit_char zero h = ("0", refl, refl)
digit_char (suc zero) h = ("1", refl, refl)
digit_char (suc (suc zero)) h = ("2", refl, refl)
digit_char (suc (suc (suc zero))) h = ("3", refl, refl)
digit_char (suc (suc (suc (suc zero)))) h = ("4", refl, refl)
digit_char (suc (suc (suc (suc (suc zero))))) h = ("5", refl, refl)
digit_char (suc (suc (suc (suc (suc (suc zero)))))) h = ("6", refl, refl)
digit_char (suc (suc (suc (suc (suc (suc (suc zero))))))) h = ("7", refl, refl)
digit_char (suc (suc (suc (suc (suc (suc (suc (suc zero)))))))) h = ("8", refl, refl)
digit_char (suc (suc (suc (suc (suc (suc (suc (suc (suc zero))))))))) h = ("9", refl, refl)
digit_char (suc (suc (suc (suc (suc (suc (suc (suc (suc (suc n)))))))))) h =
    absurd (omega (arith, h))

-- Characters that are digits.
abbrev pub AllDigits : String → Type 0
AllDigits [] = Unit
AllDigits (c ∷ s) = (is_digit c ≡ true) × AllDigits s

-- A text that stands for a number, wherever it is read.
pub record IsNumeral (n : ℕ) (w : String) : Type 0 where
  pub all_digits : AllDigits w
  pub power : ℕ
  pub reads :
      (rest : String) (acc : ℕ) (b : Bool)
      → digits_value (w ++ rest) acc b ≡ digits_value rest (acc * power + n) true

digit_is_digit : (c : Char) (d : ℕ) → d < 10 → code c ≡ 48 + d → is_digit c ≡ true
unfolding is_digit
digit_is_digit c d h e = ground (arith, h, e)

reads_digit :
    (c : Char) (d : ℕ) (rest : String) (acc : ℕ) (b : Bool)
    → d < 10
    → code c ≡ 48 + d
    → digits_value ((c ∷ []) ++ rest) acc b ≡ digits_value rest (acc * 10 + d) true
unfolding digits_value
reads_digit c d rest acc b h e =
    let less : code c - 48 ≡ d = omega (arith, e) in
    rw (cons-append c [] rest, nil-append rest, digit_is_digit c d h e, less) refl

AllDigits-snoc : (w : String) (c : Char) → AllDigits w → is_digit c ≡ true → AllDigits (w ++ c ∷ [])
AllDigits-snoc [] c h k = rw (nil-append (c ∷ [])) (k, tt)
AllDigits-snoc (d ∷ w) c (hd, h) k = rw (cons-append d w (c ∷ [])) (hd, AllDigits-snoc w c h k)

last_digit : (n : ℕ) → (n / 10 == 0) ≡ true → n % 10 ≡ n
last_digit n e = let parts = div-add-mod n 10 in ground (arith, e, parts)

fewer : (fuel n : ℕ) → n < suc fuel → (n / 10 == 0) ≡ false → n / 10 < fuel
fewer fuel n h e = let parts = div-add-mod n 10 in ground (arith, h, e, parts)

appended : (acc p n : ℕ) → (acc * p + n / 10) * 10 + n % 10 ≡ acc * (p * 10) + n
appended acc p n =
    let parts = div-add-mod n 10 in rw (sym (mul_assoc acc p 10)) (ground (arith, parts))

-- What `str` writes in front of a text.
digits_from_lem :
    (fuel n : ℕ)
    → n < fuel
    → (w : String) × IsNumeral n w × ((rest : String) → digits_from fuel n rest ≡ w ++ rest)
unfolding digits_from
digits_from_lem zero n h = absurd (omega (arith, h))
digits_from_lem (suc fuel) n h =
    let below : n % 10 < 10 = mod-lt n (omega arith) in
    let (c, is_char, has_code) = digit_char (n % 10) below in
    elim (Bool-cases (n / 10 == 0)) [
      | inl e ↦ (
        c ∷ [],
        record {
          all_digits = (digit_is_digit c (n % 10) below has_code, tt);
          power = 10;
          reads = λ rest acc b.
              reads_digit c (n % 10) rest acc b below has_code
              ∙ ap (λ k. digits_value rest k true) (ap (λ k. acc * 10 + k) (last_digit n e));
        },
        λ rest. rw (e, is_char) refl,
      )
      | inr e ↦
          let (w, numeral, writes) = digits_from_lem fuel (n / 10) (fewer fuel n h e) in
          (
            w ++ c ∷ [],
            record {
              all_digits =
                  AllDigits-snoc w c numeral.all_digits (digit_is_digit c (n % 10) below has_code);
              power = numeral.power * 10;
              reads = λ rest acc b.
                  ap (λ z. digits_value z acc b) (append_assoc w (c ∷ []) rest)
                  ∙ numeral.reads ((c ∷ []) ++ rest) acc b
                  ∙ reads_digit c (n % 10) rest (acc * numeral.power + n / 10) true below has_code
                  ∙ ap (λ k. digits_value rest k true) (appended acc numeral.power n);
            },
            λ rest.
                rw (e, is_char) (writes ((c ∷ []) ++ rest) ∙ sym (append_assoc w (c ∷ []) rest)),
          )
    ]

digit_no_space : (c : Char) → is_digit c ≡ true → is_space c ≡ false
unfolding is_digit is_space
digit_no_space c h = ground (arith, h)

lstrip-digits : (w : String) → AllDigits w → lstrip w ≡ w
unfolding lstrip
lstrip-digits [] h = refl
lstrip-digits (c ∷ w) (hc, h) = rw (digit_no_space c hc) refl

pub rstrip-digits : (w : String) → AllDigits w → rstrip w ≡ w
unfolding rstrip
rstrip-digits [] h = refl
rstrip-digits (c ∷ w) (hc, h) = rw (digit_no_space c hc, rstrip-digits w h) refl

strip-digits : (w : String) → AllDigits w → strip w ≡ w
unfolding strip
strip-digits w h = ap rstrip (lstrip-digits w h) ∙ rstrip-digits w h

-- What `str` writes for a natural number is its numeral.
pub str_ℕ-IsNumeral : (n : ℕ) → (w : String) × IsNumeral n w × (str_ℕ n ≡ w)
unfolding str_ℕ
str_ℕ-IsNumeral n =
    let (w, numeral, writes) = digits_from_lem (n + 1) n (omega arith) in
    (w, numeral, writes "" ∙ append-nil w)

pub numeral_value : (n : ℕ) (w : String) → IsNumeral n w → digits_value w 0 false ≡ some n
unfolding digits_value
numeral_value n w numeral =
    ap (λ s. digits_value s 0 false) (sym (append-nil w))
    ∙ numeral.reads "" 0 false
    ∙ ap some (ap (λ k. k + n) (zero-mul numeral.power) ∙ zero-add n)

signs : (c : Char) → is_digit c ≡ true → (code c == 45 ≡ false) × (code c == 43 ≡ false)
unfolding is_digit
signs c h = (ground (arith, h), ground (arith, h))

parse_signed-digits :
    (n : ℕ) (w : String)
    → AllDigits w
    → digits_value w 0 false ≡ some n
    → parse_signed w ≡ some (pos n)
unfolding parse_signed digits_value is_digit
parse_signed-digits n [] h v = absurd (ground (arith, v))
parse_signed-digits n (c ∷ w) (hc, h) v =
    let both : (code c == 45 ≡ false) × (code c == 43 ≡ false) = signs c hc in
    rw (both.0, both.1) (ap (signed false) v)

pub parse_int-numeral : (n : ℕ) (w : String) → IsNumeral n w → parse_int w ≡ some (pos n)
unfolding parse_int
parse_int-numeral n w numeral =
    ap parse_signed (strip-digits w numeral.all_digits)
    ∙ parse_signed-digits n w numeral.all_digits (numeral_value n w numeral)

parse_int-minus : (n : ℕ) (w : String) → IsNumeral n w → parse_int ("-" ++ w) ≡ some (neg (pos n))
unfolding parse_int parse_signed strip lstrip rstrip is_space
parse_int-minus n w numeral =
    rw (cons-append "-" "" w, nil-append w)
      (ap (signed true) (
        ap (λ s. digits_value s 0 false) (rstrip-digits w numeral.all_digits)
        ∙ numeral_value n w numeral))

-- `int(str(n))` is `n`.
pub parse_int-str_ℤ : (n : ℤ) → parse_int (str_ℤ n) ≡ some n
unfolding str_ℤ
parse_int-str_ℤ (pos n) =
    let (w, numeral, e) = str_ℕ-IsNumeral n in ap parse_int e ∙ parse_int-numeral n w numeral
parse_int-str_ℤ (negsuc n) =
    let (w, numeral, e) = str_ℕ-IsNumeral (n + 1) in
    ap (λ s. parse_int ("-" ++ s)) e ∙ parse_int-minus (n + 1) w numeral ∙ ground arith

pub str_ℤ-injective : (a b : ℤ) → str_ℤ a ≡ str_ℤ b → a ≡ b
str_ℤ-injective a b e =
    let same : some a ≡ some b = sym (parse_int-str_ℤ a) ∙ ap parse_int e ∙ parse_int-str_ℤ b in cc

no_colon : (c : Char) → is_digit c ≡ true → code c == 58 ≡ false
unfolding is_digit
no_colon c h = ground (arith, h)

-- A separator that is no digit splits behind a number.
split_at-digits : (w rest : String) → AllDigits w → split_at 58 (w ++ ":" ++ rest) ≡ some (w, rest)
unfolding split_at
split_at-digits [] rest h =
    rw (nil-append (":" ++ rest), cons-append ":" "" rest, nil-append rest) refl
split_at-digits (c ∷ w) rest (hc, h) =
    rw (cons-append c w (":" ++ rest), no_colon c hc, split_at-digits w rest h) refl

pub split_at-str_ℤ :
    (n : ℤ) (rest : String) → split_at 58 (str_ℤ n ++ ":" ++ rest) ≡ some (str_ℤ n, rest)
unfolding str_ℤ split_at
split_at-str_ℤ (pos n) rest =
    let (w, numeral, e) = str_ℕ-IsNumeral n in rw e (split_at-digits w rest numeral.all_digits)
split_at-str_ℤ (negsuc n) rest =
    let (w, numeral, e) = str_ℕ-IsNumeral (n + 1) in
    rw
      (
        e,
        append_assoc "-" w (":" ++ rest),
        cons-append "-" "" w,
        nil-append w,
        cons-append "-" "" (w ++ ":" ++ rest),
        nil-append (w ++ ":" ++ rest),
        split_at-digits w rest numeral.all_digits,
      )
      refl
