-- ===== src/Python.antt =====
-- What the program uses of Python itself: exceptions as values, functions that change a state and
-- may raise, dictionaries of details, the text of an integer, and the floats of storage columns.
pub mod Text
pub mod Documents
pub mod Decimal
use Prim.Native.String.{◌++◌ as str_append}
use casino_bot.Prelude.{
  ℕ, zero, suc, ◌/◌, ◌%◌, ◌+◌, ℤ, pos, negsuc, Bool, String, str_eq, Option, none, some, List, [],
  ◌∷◌, ◌==◌, if◌then◌else◌, ◌≡◌, refl, ap, ◌⊎◌, inl, inr,
}

-- The exceptions of the code. `engine_rejected` is `GameEngineRejected`, with its code, its
-- message and the seconds that remain of a cooldown; `http_coded` an `HTTPException` whose detail is
-- a dictionary with a code and a message; `exception` any other class, by its name.
pub data Error : Type 0 where
  type_error value_error key_error compliance_violation : String → Error
  integrity_error operational_error : String → Error
  http_exception : ℕ → String → Error
  engine_rejected : String → String → Option ℤ → Error
  http_coded : ℕ → String → String → Error
  exception : String → String → Error

pub data Result {ℓ} (A : Type ℓ) : Type ℓ where
  ok : A → Result A
  err : Error → Result A

-- A call that may raise, on a state; what was written before a raise stays written.
abbrev pub Action : Type 0 → Type 0 → Type 0
Action S A = S → Result A × S

module _ {S A : Type 0} where
  abbrev pub pure : A → Action S A
  pure a s = (ok a, s)

  abbrev pub raise : Error → Action S A
  raise e s = (err e, s)

  abbrev pub lift : Result A → Action S A
  lift r s = (r, s)

  abbrev pub gets : (S → A) → Action S A
  gets f s = (ok (f s), s)

infixl 5 ◌>>=◌ ◌>>◌
abbrev pub ◌>>=◌ : {S A B : Type 0} → Action S A → (A → Action S B) → Action S B
◌>>=◌ m f s = let (r, s') = m s in elim r [ ok a ↦ f a s' | err e ↦ (err e, s') ]

abbrev pub ◌>>◌ : {S A B : Type 0} → Action S A → Action S B → Action S B
m >> k = m >>= λ _. k

module _ {S : Type 0} where
  abbrev pub modify : (S → S) → Action S (Unit {0})
  modify f s = (ok tt, f s)

  abbrev pub raise_if : Bool → Error → Action S (Unit {0})
  raise_if b e s = (if b then err e else ok tt, s)

-- The same chain where no state is touched.
abbrev pub bind_result : {A B : Type 0} → Result A → (A → Result B) → Result B
bind_result (ok a) f = f a
bind_result (err e) f = err e

-- A dynamic value, as far as `isinstance` tells it; `other` carries the name of its type.
pub data PyValue : Type 0 where
  int : ℤ → PyValue
  bool : Bool → PyValue
  other : String → PyValue

unfoldable pub type_name : PyValue → String
type_name (int _) = "int"
type_name (bool _) = "bool"
type_name (other n) = n

-- The double `float(Decimal(units) / Decimal(scale))` of a storage column, kept as the quotient
-- that it is computed from; `zero_float` is the literal 0.0.
pub data StorageFloat : Type 0 where
  zero_float : StorageFloat
  ratio : ℤ → ℤ → StorageFloat

-- A value in a dictionary of details.
pub data Json : Type 0 where
  null : Json
  number : ℤ → Json
  text : String → Json
  flag : Bool → Json

abbrev pub Dict : Type 0
Dict = List (String × Json)

unfoldable pub get : String → Dict → Option Json
get k [] = none
get k ((j, v) ∷ d) = if str_eq k j then some v else get k d

-- `{**d, k: v}`: a key that is there keeps its place.
unfoldable pub insert : String → Json → Dict → Dict
insert k v [] = (k, v) ∷ []
insert k v ((j, w) ∷ d) = if str_eq k j then (k, v) ∷ d else (j, w) ∷ insert k v d

abbrev pub json_of : {A : Type 0} → (A → Json) → Option A → Json
json_of f none = null
json_of f (some a) = f a

pub digit : ℕ → String
digit n =
    if n == 0
    then "0"
    else if n == 1
    then "1"
    else if n == 2
    then "2"
    else if n == 3
    then "3"
    else if n == 4
    then "4"
    else if n == 5
    then "5"
    else if n == 6
    then "6"
    else if n == 7
    then "7"
    else if n == 8
    then "8"
    else "9"

-- A number has fewer digits than its successor counts.
pub digits_from : ℕ → ℕ → String → String
digits_from zero n acc = acc
digits_from (suc fuel) n acc =
    let rest = digits_from fuel (n / 10) (str_append (digit (n % 10)) acc) in
    if n / 10 == 0 then str_append (digit (n % 10)) acc else rest

-- `str(n)`.
unfoldable pub str_ℕ : ℕ → String
unfolding digits_from digit
str_ℕ n = digits_from (n + 1) n ""

unfoldable pub str_ℤ : ℤ → String
unfolding str_ℕ
str_ℤ (pos n) = str_ℕ n
str_ℤ (negsuc n) = str_append "-" (str_ℕ (n + 1))

str_ℤ_runs : str_ℤ (negsuc 1204) ≡ "-1205"
unfolding str_ℤ
str_ℤ_runs = refl

-- `exc.__class__.__name__`.
unfoldable pub class_name : Error → String
class_name (type_error _) = "TypeError"
class_name (value_error _) = "ValueError"
class_name (key_error _) = "KeyError"
class_name (compliance_violation _) = "ComplianceViolation"
class_name (integrity_error _) = "IntegrityError"
class_name (operational_error _) = "OperationalError"
class_name (http_exception _ _) = "HTTPException"
class_name (engine_rejected _ _ _) = "GameEngineRejected"
class_name (http_coded _ _ _) = "HTTPException"
class_name (exception name _) = name

pub ok-injective {ℓ} : {A : Type ℓ} {a b : A} → ok a ≡ ok b → a ≡ b
ok-injective h = cc

pub Result-cases {ℓ} :
    {A : Type ℓ} (r : Result A) → ((a : A) × (r ≡ ok a)) ⊎ ((e : Error) × (r ≡ err e))
Result-cases (ok a) = inl (a, refl)
Result-cases (err e) = inr (e, refl)

-- A chain whose first part returns goes on with what that has returned and left.
pub bind-runs :
    {S A B : Type 0} (m : Action S A) (f : A → Action S B) (s : S) {a : A} {s' : S}
    → m s ≡ (ok a, s')
    → (m >>= f) s ≡ f a s'
bind-runs m f s h = ap (λ p. ((λ _. p) >>= f) s) h

-- A chain that returns has run both parts.
pub bind-ends :
    {S A B : Type 0} (m : Action S A) (f : A → Action S B) (s : S) {b : B}
    → ((m >>= f) s).0 ≡ ok b
    → (a : A) × ((m s).0 ≡ ok a) × ((f a (m s).1).0 ≡ ok b) × (((m >>= f) s).1 ≡ (f a (m s).1).1)
bind-ends {S = S} {A = A} {B = B} m f s {b} h = go (m s) h
  where
    go :
        (out : Result A × S)
        → (((λ _. out) >>= f) s).0 ≡ ok b
        → (a : A) × (out.0 ≡ ok a)
          × ((f a out.1).0 ≡ ok b)
          × ((((λ _. out) >>= f) s).1 ≡ (f a out.1).1)
    go (ok a, s') h = (a, refl, h, refl)
    go (err e, s') h = absurd cc

-- What the parts of a chain keep, the chain keeps, however it ends.
pub bind-keeps {κ} :
    {S A B : Type 0} (P : S → Type κ) (m : Action S A) (f : A → Action S B) (s : S)
    → P (m s).1
    → ((a : A) (s' : S) → P s' → P (f a s').1)
    → P ((m >>= f) s).1
bind-keeps {S = S} {A = A} {B = B} P m f s h k = go (m s) h
  where
    go : (p : Result A × S) → P p.1 → P (((λ _. p) >>= f) s).1
    go (ok a, s') h = k a s' h
    go (err e, s') h = h
