-- ===== src/Python/Documents.antt =====
-- The documents that `json.loads` returns, without floats, and the reads that the code makes of them.
use Prim.Native.String.{String}
use casino_bot.Prelude.{
  ℤ, pos, leb_ℤ, Bool, true, false, ◌&&◌, not, str_eq, Option, none, some, if◌then◌else◌,
}
use casino_bot.Python.{Result, ok, err, exception}

mutual
  pub data Value : Type 0 where
    nothing : Value
    numeral : ℤ → Value
    string : String → Value
    boolean : Bool → Value
    array : Items → Value
    object : Fields → Value

  pub data Items : Type 0 where
    nil : Items
    cons : Value → Items → Items

  pub data Fields : Type 0 where
    end : Fields
    field : String → Value → Fields → Fields

unfoldable pub lookup : String → Fields → Option Value
lookup key end = none
lookup key (field k v fs) = let rest = lookup key fs in if str_eq k key then some v else rest

-- A missing key is `None`.
abbrev pub or_nothing : Option Value → Value
or_nothing none = nothing
or_nothing (some v) = v

abbrev pub or_default : Value → Option Value → Value
or_default d none = d
or_default d (some v) = v

-- `value.get(key, default)`: what is no dictionary has no `get`.
unfoldable pub get_default : String → Value → Value → Result Value
unfolding lookup
get_default key d (object fs) = ok (or_default d (lookup key fs))
get_default key d _ = err (exception "AttributeError" "object has no attribute 'get'")

unfoldable pub get_value : String → Value → Result Value
unfolding get_default
get_value key v = get_default key nothing v

-- `value[0]`.
unfoldable pub first_item : Value → Result Value
first_item (array (cons v _)) = ok v
first_item (array nil) = err (exception "IndexError" "list index out of range")
first_item _ = err (exception "TypeError" "object is not a sequence")

-- `bool(value)`.
unfoldable pub is_true : Value → Bool
is_true nothing = false
is_true (numeral n) = not (leb_ℤ n (pos 0) && leb_ℤ (pos 0) n)
is_true (string s) = not (str_eq s "")
is_true (boolean b) = b
is_true (array nil) = false
is_true (array (cons _ _)) = true
is_true (object end) = false
is_true (object (field _ _ _)) = true

abbrev pub empty_object : Value
empty_object = object end
