-- ===== src/Economy/Balances.antt =====
-- The balance of a user and the sum of the user's ledger entries, under the writes of
-- src/casino_bot/services/economy_service.py.
use casino_bot.Prelude.{
  ℕ, ℤ, pos, ◌+ℤ◌, ◌≡◌, refl, sym, true, none, some, List, [], ◌∷◌, ◌++◌, ◌==◌, first, update_first,
  first-append_one, if◌then◌else◌, arith, int_laws, Option-cases, inl, inr,
}
use casino_bot.Python.{ok}
use casino_bot.Database.{TokenAccount, LedgerEntry, Tables, Session, has_account}
use casino_bot.Economy.{get_or_create_account, empty_account}

-- The balance of a user: that of the first account, or zero where there is none.
unfoldable pub balance_in : ℕ → List TokenAccount → ℤ
balance_in u [] = pos 0
balance_in u (a ∷ accounts) = if has_account u a then a.balance_units else balance_in u accounts

abbrev pub balance_of : ℕ → Tables → ℤ
balance_of u t = balance_in u t.accounts

-- The sum of a user's ledger entries.
unfoldable pub ledger_sum : ℕ → List LedgerEntry → ℤ
ledger_sum u [] = pos 0
ledger_sum u (e ∷ entries) =
    (if e.user_id == u then e.delta_units else pos 0) +ℤ ledger_sum u entries

pub ledger_sum-append_one :
    (u : ℕ) (entries : List LedgerEntry) (e : LedgerEntry)
    → ledger_sum u (entries ++ e ∷ [])
      ≡ ledger_sum u entries +ℤ (if e.user_id == u then e.delta_units else pos 0)
unfolding ledger_sum
ledger_sum-append_one u [] e = omega int_laws
ledger_sum-append_one u (x ∷ entries) e = rw (ledger_sum-append_one u entries e) (omega int_laws)

balance_in-update_first :
    (u v : ℕ) (a : TokenAccount) (accounts : List TokenAccount) {old : TokenAccount}
    → a.user_id ≡ u
    → first (has_account u) accounts ≡ some old
    → balance_in v (update_first (has_account u) (λ _. a) accounts)
      ≡ (if u == v then a.balance_units else balance_in v accounts)
unfolding balance_in first update_first
balance_in-update_first u v a [] e h = absurd (ground arith)
balance_in-update_first u v a (x ∷ accounts) {old} e h =
    ground (arith, balance_in-update_first u v a accounts {old = old} e)

first-update_first :
    (u : ℕ) (a : TokenAccount) (accounts : List TokenAccount) {old : TokenAccount}
    → a.user_id ≡ u
    → first (has_account u) accounts ≡ some old
    → first (has_account u) (update_first (has_account u) (λ _. a) accounts) ≡ some a
unfolding first update_first
first-update_first u a [] e h = absurd (ground arith)
first-update_first u a (x ∷ accounts) {old} e h =
    ground (arith, first-update_first u a accounts {old = old} e)

pub balance_in-put_twice :
    (u v : ℕ) (a b : TokenAccount) (accounts : List TokenAccount) {old : TokenAccount}
    → a.user_id ≡ u
    → b.user_id ≡ u
    → first (has_account u) accounts ≡ some old
    → balance_in v
        (update_first (has_account u) (λ _. b) (update_first (has_account u) (λ _. a) accounts))
      ≡ (if u == v then b.balance_units else balance_in v accounts)
balance_in-put_twice u v a b accounts {old} ea eb h = ground (
  arith,
  balance_in-update_first u v b (update_first (has_account u) (λ _. a) accounts) {old = a} eb
      (first-update_first u a accounts {old = old} ea h),
  balance_in-update_first u v a accounts {old = old} ea h,
)

pub balance_in-append_empty :
    (u v : ℕ) (accounts : List TokenAccount)
    → balance_in v (accounts ++ empty_account u ∷ []) ≡ balance_in v accounts
unfolding balance_in empty_account
balance_in-append_empty u v [] = ground arith
balance_in-append_empty u v (x ∷ accounts) = ground (arith, balance_in-append_empty u v accounts)

balance_in-found :
    (u : ℕ) (accounts : List TokenAccount) (a : TokenAccount)
    → first (has_account u) accounts ≡ some a
    → (a.user_id ≡ u) × (balance_in u accounts ≡ a.balance_units)
unfolding balance_in first
balance_in-found u [] a h = absurd (ground arith)
balance_in-found u (x ∷ accounts) a h = ground (arith, balance_in-found u accounts a)

balance_in-missing :
    (u : ℕ) (accounts : List TokenAccount)
    → first (has_account u) accounts ≡ none
    → balance_in u accounts ≡ pos 0
unfolding balance_in first
balance_in-missing u [] h = refl
balance_in-missing u (x ∷ accounts) h = ground (arith, balance_in-missing u accounts)

-- What `get_or_create_account` leaves: an account with the balance that the user had, and the same
-- balances for everybody.
pub record Opened (u : ℕ) (t c : Tables) (s' : Session) (a : TokenAccount) : Type 0 where
  pub owner : a.user_id ≡ u
  pub holds : a.balance_units ≡ balance_of u t
  pub found : first (has_account u) s'.work.accounts ≡ some a
  pub balances : (v : ℕ) → balance_of v s'.work ≡ balance_of v t
  pub ledger : s'.work.ledger ≡ t.ledger
  pub rounds : s'.work.rounds ≡ t.rounds
  pub users : s'.work.users ≡ t.users
  pub committed : s'.committed ≡ c
  pub in_transaction : s'.in_transaction ≡ true

pub get_or_create-Opened :
    (u : ℕ) (s : Session)
    → (a : TokenAccount) × ((get_or_create_account u s).0 ≡ ok a)
      × Opened u s.work s.committed (get_or_create_account u s).1 a
unfolding get_or_create_account empty_account
get_or_create-Opened u s = elim (Option-cases (first (has_account u) s.work.accounts)) [
  | inl missing ↦ rw missing (
    empty_account u,
    refl,
    record {
      owner = refl;
      holds = sym (balance_in-missing u s.work.accounts missing);
      found = rw (first-append_one, missing) (ground arith);
      balances = λ v. balance_in-append_empty u v s.work.accounts;
      ledger = refl;
      rounds = refl;
      users = refl;
      committed = refl;
      in_transaction = refl;
    },
  )
  | inr (a, there) ↦ rw there (
    a,
    refl,
    record {
      owner = (balance_in-found u s.work.accounts a there).0;
      holds = sym (balance_in-found u s.work.accounts a there).1;
      found = there;
      balances = λ v. refl;
      ledger = refl;
      rounds = refl;
      users = refl;
      committed = refl;
      in_transaction = refl;
    },
  )
]
