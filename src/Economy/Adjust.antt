-- ===== src/Economy/Adjust.antt =====
-- What `adjust_user_tokens` of src/casino_bot/services/economy_service.py does, by how it ends.
use casino_bot.Prelude.{
  ℕ, ◌+◌, ℤ, pos, ◌+ℤ◌, ◌≤ℤ◌, ltb_ℤ, ◌≡◌, refl, sym, subst, Bool, true, String, none, some, ◌==◌,
  first, if◌then◌else◌, arith, length, length-append, Option-cases, Bool-cases, inl, inr, ◌⊎◌,
}
use casino_bot.Prelude.Int.{+ℤ_zero}
use casino_bot.Python.{Error, Result, ok, err, value_error, ratio}
use casino_bot.Settings.{Settings}
use casino_bot.Tokens.{units_to_storage_float}
use casino_bot.Database.{TokenAccount, Session, has_user, has_account, User}
use casino_bot.Economy.{adjust_user_tokens, post_delta, check_delta, get_or_create_account}
use casino_bot.Economy.Balances.{
  balance_of, ledger_sum, ledger_sum-append_one, balance_in-put_twice, Opened, get_or_create-Opened,
}

-- What a completed adjustment has done: the user's balance moved by `delta`, no other balance did,
-- and the ledger has one more entry, which says so.
pub record Posted (u : ℕ) (delta : ℤ) (s s' : Session) (a : TokenAccount) : Type 0 where
  pub balance : a.balance_units ≡ balance_of u s.work +ℤ delta
  pub balances :
      (v : ℕ)
      → balance_of v s'.work
        ≡ (if u == v then balance_of u s.work +ℤ delta else balance_of v s.work)
  pub sums :
      (v : ℕ)
      → ledger_sum v s'.work.ledger
        ≡ (if u == v then ledger_sum v s.work.ledger +ℤ delta else ledger_sum v s.work.ledger)
  pub entries : length s'.work.ledger ≡ length s.work.ledger + 1
  pub rounds : s'.work.rounds ≡ s.work.rounds
  pub users : s'.work.users ≡ s.work.users
  pub committed : s'.committed ≡ s.committed
  pub in_transaction : s'.in_transaction ≡ true

post_delta-Posted :
    (settings : Settings) (u : ℕ) (delta : ℤ) (reason actor : String) (a : TokenAccount)
    (s s1 : Session)
    → pos 1 ≤ℤ settings.token_unit_scale
    → Opened u s.work s.committed s1 a
    → (a' : TokenAccount) × ((post_delta settings u delta reason actor a s1).0 ≡ ok a')
      × Posted u delta s (post_delta settings u delta reason actor a s1).1 a'
unfolding post_delta units_to_storage_float
post_delta-Posted settings u delta reason actor a s s1 scale o =
    elim (Bool-cases (ltb_ℤ settings.token_unit_scale (pos 1))) [
      | inl small ↦ absurd (ground arith)
      | inr large ↦ rw large (
        _,
        refl,
        record {
          balance = rw o.holds refl;
          balances = λ v.
              let found' =
                subst (λ k. first (has_account k) s1.work.accounts ≡ some a) (sym o.owner)
                  o.found in
              ground (
                arith,
                balance_in-put_twice a.user_id v
                    (record a { balance_units = a.balance_units +ℤ delta })
                    (record a {
                      balance = ratio (a.balance_units +ℤ delta) settings.token_unit_scale;
                      balance_units = a.balance_units +ℤ delta;
                    })
                    s1.work.accounts {old = a} refl refl found',
                o.balances v,
              );
          sums = λ v.
              rw (ledger_sum-append_one, o.ledger)
                (ground (arith, +ℤ_zero (ledger_sum v s.work.ledger)));
          entries = rw (o.ledger) (length-append s.work.ledger _);
          rounds = o.rounds;
          users = o.users;
          committed = o.committed;
          in_transaction = refl;
        },
      )
    ]

-- What an adjustment that began at `s` has done, by how it ended: one that raises leaves every
-- balance, the ledger and the rounds alone.
pub record Refused (s s' : Session) : Type 0 where
  pub balances : (v : ℕ) → balance_of v s'.work ≡ balance_of v s.work
  pub ledger : s'.work.ledger ≡ s.work.ledger
  pub rounds : s'.work.rounds ≡ s.work.rounds
  pub users : s'.work.users ≡ s.work.users
  pub committed : s'.committed ≡ s.committed
  pub in_transaction : s'.in_transaction ≡ true

abbrev pub Adjusts : ℕ → ℤ → Session → Result TokenAccount × Session → Type 0
Adjusts u delta s (ok a, s') = Posted u delta s s' a
Adjusts u delta s (err e, s') = Refused s s'

pub Adjusts-rounds :
    (u : ℕ) (delta : ℤ) (s s' : Session) (r : Result TokenAccount)
    → Adjusts u delta s (r, s')
    → s'.work.rounds ≡ s.work.rounds
Adjusts-rounds u delta s s' (ok a) posted = posted.rounds
Adjusts-rounds u delta s s' (err e) refused = refused.rounds

pub Adjusts-committed :
    (u : ℕ) (delta : ℤ) (s s' : Session) (r : Result TokenAccount)
    → Adjusts u delta s (r, s')
    → s'.committed ≡ s.committed
Adjusts-committed u delta s s' (ok a) posted = posted.committed
Adjusts-committed u delta s s' (err e) refused = refused.committed

pub Adjusts-users :
    (u : ℕ) (delta : ℤ) (s s' : Session) (r : Result TokenAccount)
    → Adjusts u delta s (r, s')
    → s'.work.users ≡ s.work.users
Adjusts-users u delta s s' (ok a) posted = posted.users
Adjusts-users u delta s s' (err e) refused = refused.users

module _ (settings : Settings) (u : ℕ) (delta : ℤ) (reason actor : String)
    (pending_transfer pending_cash_out : Bool) (s : Session) where
  -- The check that the adjustment makes, of the balance that the user has.
  abbrev pub checked : Result (Unit {0})
  checked = check_delta (balance_of u s.work) delta pending_transfer pending_cash_out

  abbrev pub adjusted : Result TokenAccount × Session
  adjusted = adjust_user_tokens settings u delta reason actor pending_transfer pending_cash_out s

  -- An unknown user is refused, and nothing changes.
  pub adjust_unknown :
      first (has_user u) s.work.users ≡ none
      → adjusted ≡ (err (value_error "User not found"), record s { in_transaction = true })
  unfolding adjust_user_tokens
  adjust_unknown unknown = ground arith

  -- Past the user's lookup the call is the check, and then the posting.
  adjust_known :
      {x : User}
      → first (has_user u) s.work.users ≡ some x
      → (a : TokenAccount) × (s1 : Session) × Opened u s.work s.committed s1 a
        × (adjusted ≡ elim checked [
          | err e ↦ (err e, s1)
          | ok _ ↦ post_delta settings u delta reason actor a s1
        ])
  unfolding adjust_user_tokens
  adjust_known {x} known =
      let s0 = record s { in_transaction = true } in
      let (a, e, o) = get_or_create-Opened u s0 in
      (a, (get_or_create_account u s0).1, o, ground (arith, known, e, o.holds))

  -- For a scale of at least one, each way an adjustment ends: one that returns has posted the delta
  -- to the user's balance and ledger and to no other, and one that raises has changed no balance,
  -- no ledger entry and no round.
  pub adjust-Adjusts : pos 1 ≤ℤ settings.token_unit_scale → Adjusts u delta s adjusted
  adjust-Adjusts scale = by_user (Option-cases (first (has_user u) s.work.users))
    where
      by_check :
          (a : TokenAccount) (s1 : Session)
          → Opened u s.work s.committed s1 a
          → (r : Result (Unit {0}))
          → Adjusts u delta s (elim r [
            | err e ↦ (err e, s1)
            | ok _ ↦ post_delta settings u delta reason actor a s1
          ])
      by_check a s1 o (err e) = record {
        balances = o.balances;
        ledger = o.ledger;
        rounds = o.rounds;
        users = o.users;
        committed = o.committed;
        in_transaction = o.in_transaction;
      }
      by_check a s1 o (ok x) =
          let (a', e, posted) = post_delta-Posted settings u delta reason actor a s s1 scale o in
          subst (λ r. Adjusts u delta s (r, (post_delta settings u delta reason actor a s1).1))
            (sym e) posted

      by_user :
          (first (has_user u) s.work.users ≡ none)
            ⊎ ((x : User) × (first (has_user u) s.work.users ≡ some x))
          → Adjusts u delta s adjusted
      by_user (inl unknown) = subst (Adjusts u delta s) (sym (adjust_unknown unknown)) (record {
        balances = λ v. refl;
        ledger = refl;
        rounds = refl;
        users = refl;
        committed = refl;
        in_transaction = refl;
      })
      by_user (inr (x, known)) =
          let (a, s1, o, e) = adjust_known known in
          subst (Adjusts u delta s) (sym e) (by_check a s1 o checked)

  -- The error of a known user is that of the check.
  pub adjust_refused :
      {x : User} {e : Error}
      → first (has_user u) s.work.users ≡ some x
      → checked ≡ err e
      → adjusted.0 ≡ err e
  adjust_refused {x} {e} known refusal =
      let (a, s1, o, eq) = adjust_known known in ground (arith, eq, refusal)

  -- A known user's adjustment that the check admits goes through.
  pub adjust_completes :
      {x : User}
      → pos 1 ≤ℤ settings.token_unit_scale
      → first (has_user u) s.work.users ≡ some x
      → checked ≡ ok tt
      → (a : TokenAccount) × (adjusted.0 ≡ ok a)
  adjust_completes {x} scale known admitted =
      let (a, s1, o, eq) = adjust_known known in
      let (a', e, posted) = post_delta-Posted settings u delta reason actor a s s1 scale o in
      (a', ground (arith, eq, admitted, e))

  -- An adjustment that returns has passed its check.
  pub adjust_checked : {a : TokenAccount} → adjusted.0 ≡ ok a → checked ≡ ok tt
  adjust_checked {a} done = by_user (Option-cases (first (has_user u) s.work.users)) checked refl
    where
      by_user :
          (first (has_user u) s.work.users ≡ none)
            ⊎ ((x : User) × (first (has_user u) s.work.users ≡ some x))
          → (r : Result (Unit {0})) → checked ≡ r
          → checked ≡ ok tt
      by_user (inl unknown) r e = absurd (ground (arith, done, adjust_unknown unknown))
      by_user (inr (x, known)) (ok t) e = e
      by_user (inr (x, known)) (err c) e = absurd (ground (arith, done, adjust_refused known e))
