-- ===== src/Prelude/Lists.antt =====
-- Lists measured by native numbers, and the searches that stand for SQL queries.
use Prim.Native.Nat.{ℕ, suc, ◌+◌}
use mathlib.Core.Path.{◌≡◌, refl, ap, subst}
use mathlib.Core.Bool.{Bool, true, false}
use mathlib.Core.Option.{Option, none, some}
use mathlib.Core.Logic.{inl, inr}
use mathlib.Core.List.{List, [], ◌∷◌, ◌++◌}
use native.Mathlib.Omega.{arith}
use casino_bot.Prelude.Tests.{if◌then◌else◌, Bool-cases}

module _ {ℓ} {A : Type ℓ} where
  abbrev pub length : List A → ℕ
  length [] = 0
  length (x ∷ xs) = suc (length xs)

  -- `query.filter(p).first()`: the first row, in the order of insertion.
  unfoldable pub first : (A → Bool) → List A → Option A
  first p [] = none
  first p (x ∷ xs) = if p x then some x else first p xs

  -- `query.filter(p).all()`.
  unfoldable pub select : (A → Bool) → List A → List A
  select p [] = []
  select p (x ∷ xs) = if p x then x ∷ select p xs else select p xs

  -- An assignment to the fields of the first row that a query returns.
  unfoldable pub update_first : (A → Bool) → (A → A) → List A → List A
  update_first p f [] = []
  update_first p f (x ∷ xs) = if p x then f x ∷ xs else x ∷ update_first p f xs

  -- The same for each row of a query.
  unfoldable pub update_all : (A → Bool) → (A → A) → List A → List A
  update_all p f [] = []
  update_all p f (x ∷ xs) = (if p x then f x else x) ∷ update_all p f xs

  abbrev pub All {κ} : (A → Type κ) → List A → Type κ
  All P [] = Unit
  All P (x ∷ xs) = P x × All P xs

  pub length-append : (xs ys : List A) → length (xs ++ ys) ≡ length xs + length ys
  length-append [] ys = omega arith
  length-append (x ∷ xs) ys = omega (arith, length-append xs ys)

module _ {ℓ} {A : Type ℓ} (p : A → Bool) where
  -- A row that is added at the end is found only if none was found before.
  pub first-append_one :
      (xs : List A) (y : A)
      → first p (xs ++ y ∷ [])
        ≡ elim (first p xs) [ some x ↦ some x | none ↦ if p y then some y else none ]
  unfolding first
  first-append_one [] y = refl
  first-append_one (x ∷ xs) y = ground (arith, first-append_one xs y)

  pub first-holds : (xs : List A) (x : A) → first p xs ≡ some x → p x ≡ true
  unfolding first
  first-holds [] x h = ground arith
  first-holds (y ∷ xs) x h = ground (arith, first-holds xs x)

  pub length-update_all : (f : A → A) (xs : List A) → length (update_all p f xs) ≡ length xs
  unfolding update_all
  length-update_all f [] = refl
  length-update_all f (x ∷ xs) = ap suc (length-update_all f xs)

  pub first-update_first :
      (y : A) (xs : List A) {x : A}
      → p y ≡ true
      → first p xs ≡ some x
      → first p (update_first p (λ _. y) xs) ≡ some y
  unfolding first update_first
  first-update_first y [] h found = absurd (ground arith)
  first-update_first y (z ∷ xs) {x} h found = ground (arith, first-update_first y xs {x = x} h)

  -- The row that was added last is the one that an assignment reaches.
  pub first-update_last :
      (y z : A) (xs : List A)
      → p y ≡ true
      → p z ≡ true
      → first p xs ≡ none
      → first p (update_first p (λ _. y) (xs ++ z ∷ [])) ≡ some y
  unfolding first update_first
  first-update_last y z [] hy hz h = ground arith
  first-update_last y z (x ∷ xs) hy hz h = ground (arith, first-update_last y z xs hy hz)

module _ {ℓ κ} {A : Type ℓ} (P : A → Type κ) where
  pub All-append_one : (xs : List A) (y : A) → All P xs → P y → All P (xs ++ y ∷ [])
  All-append_one [] y h k = (k, tt)
  All-append_one (x ∷ xs) y h k = (h.0, All-append_one xs y h.1 k)

  pub All-update_first :
      (q : A → Bool) (y : A) (xs : List A) → P y → All P xs → All P (update_first q (λ _. y) xs)
  unfolding update_first
  All-update_first q y [] k h = tt
  All-update_first q y (x ∷ xs) k h =
      elim (q x) as (λ b. All P (if b then y ∷ xs else x ∷ update_first q (λ _. y) xs)) [
        | true ↦ (k, h.1)
        | false ↦ (h.0, All-update_first q y xs k h.1)
      ]

  pub All-select : (q : A → Bool) (xs : List A) → All P xs → All P (select q xs)
  unfolding select
  All-select q [] h = tt
  All-select q (x ∷ xs) h =
      elim (q x) as (λ b. All P (if b then x ∷ select q xs else select q xs)) [
        | true ↦ (h.0, All-select q xs h.1)
        | false ↦ All-select q xs h.1
      ]

  pub All-first : (q : A → Bool) (xs : List A) {x : A} → All P xs → first q xs ≡ some x → P x
  unfolding first
  All-first q [] h e = absurd (ground (arith, e))
  All-first q (y ∷ xs) {x} h e = elim (Bool-cases (q y)) [
    | inl t ↦ let same : y ≡ x = ground (arith, t, e) in subst P same h.0
    | inr f ↦ let later : first q xs ≡ some x = ground (arith, f, e) in All-first q xs h.1 later
  ]

module _ {ℓ} {A : Type ℓ} (q : A → Bool) where
  -- What a query gives passes its filter.
  pub selected : (xs : List A) → All (λ x. q x ≡ true) (select q xs)
  unfolding select
  selected [] = tt
  selected (x ∷ xs) = elim (Bool-cases (q x)) [
    | inl e ↦ rw e (e, selected xs)
    | inr e ↦ rw e (selected xs)
  ]

-- What holds of each element, in a weaker form.
pub All-weaken :
    {A : Type 0} (P Q : A → Type 0) (xs : List A) → ((x : A) → P x → Q x) → All P xs → All Q xs
All-weaken P Q [] f ps = tt
All-weaken P Q (x ∷ xs) f (p, ps) = (f x p, All-weaken P Q xs f ps)
