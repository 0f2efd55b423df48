-- ===== src/Rounds/Outcomes.antt =====
-- The two ways in which a fresh round of src/casino_bot/services/game_round_service.py settles:
-- committed with its delta on the ledger, or rejected with no money moved.
use casino_bot.Prelude.{
  ℕ, ℤ, pos, ◌+ℤ◌, ◌≡◌, refl, false, String, some, ◌==◌, first, first-update_last, if◌then◌else◌,
  ◌≤ℤ◌, subst,
}
use casino_bot.Python.{Result, ok, err, compliance_violation}
use casino_bot.Settings.{Settings}
use casino_bot.Database.{GameRound, committed, rejected, Tables, Session, User, has_key, has_user}
use casino_bot.Economy.{check_delta}
use casino_bot.Economy.Balances.{balance_of, ledger_sum}
use casino_bot.Economy.Adjust.{
  Posted, Refused, Adjusts, adjust-Adjusts, adjust_completes, adjust_refused,
}
use casino_bot.Rounds.{
  RoundRequest, World, Amounts, pending_round, round_reason, settle, put_round, commit_round,
  reject_round, recover, execute_game_round, amounts,
}
use casino_bot.Rounds.Steps.{own_key, IsFresh, inserted, adjusted_in, execute_fresh}

-- How the money has moved between two states.
pub record Moved (u : ℕ) (delta : ℤ) (t t' : Tables) : Type 0 where
  pub balances :
      (v : ℕ) → balance_of v t' ≡ (if u == v then balance_of u t +ℤ delta else balance_of v t)
  pub sums :
      (v : ℕ)
      → ledger_sum v t'.ledger
        ≡ (if u == v then ledger_sum v t.ledger +ℤ delta else ledger_sum v t.ledger)

-- No balance and no ledger entry has changed.
pub record Unmoved (t t' : Tables) : Type 0 where
  pub balances : (v : ℕ) → balance_of v t' ≡ balance_of v t
  pub ledger : t'.ledger ≡ t.ledger

module _ (settings : Settings) (req : RoundRequest) (world : World) (a : Amounts) (s : Session)
    {x : User} (scale : pos 1 ≤ℤ settings.token_unit_scale) (parsed : amounts settings req ≡ ok a)
    (fresh : IsFresh settings req world a s.work)
    (known : first (has_user req.user_id) s.work.users ≡ some x) where
  abbrev final : Result GameRound × Session
  final = execute_game_round settings req world s

  -- The check of the delta against the balance before the round.
  abbrev check : Result (Unit {0})
  check = check_delta (balance_of req.user_id s.work) a.attempted_delta_units false false

  -- For a scale of at least one, a request whose amounts are computed, a known user and a new key
  -- and identifier, on a database that neither reports a conflict nor fails: where the delta passes
  -- the compliance check, the call returns a committed round that carries the delta and the stake,
  -- its key finds that round, and balance and ledger have moved by the delta, for this user alone.
  pub execute_commits :
      check ≡ ok tt
      → (gr : GameRound) × (final.0 ≡ ok gr)
        × (gr.status ≡ committed)
        × (gr.payout_units ≡ a.attempted_delta_units)
        × (gr.bet_units ≡ a.bet_units)
        × (first (has_key req.user_id req.game_id req.idempotency_key) final.1.work.rounds
            ≡ some gr)
        × Moved req.user_id a.attempted_delta_units s.work final.1.work
  unfolding settle commit_round recover pending_round put_round
  execute_commits passed =
      let own = own_key settings req world a in
      let s1 = inserted settings req world a s in
      let (account, done) =
        adjust_completes settings req.user_id a.attempted_delta_units (round_reason req world)
          req.actor false false s1 scale known passed in
      let adj =
        adjust-Adjusts settings req.user_id a.attempted_delta_units (round_reason req world)
          req.actor false false s1 scale in
      let posted : Posted req.user_id a.attempted_delta_units s1
          (adjusted_in settings req world a s).1 account =
        subst
          (λ r.
            Adjusts req.user_id a.attempted_delta_units s1
              (r, (adjusted_in settings req world a s).1))
          done adj in
      rw (execute_fresh settings req world a s parsed fresh known, done)
        (
          _,
          refl,
          refl,
          refl,
          refl,
          rw posted.rounds (
              first-update_last (has_key req.user_id req.game_id req.idempotency_key) _
                (pending_round req world a) s.work.rounds own own fresh.new_key),
          record { balances = posted.balances; sums = posted.sums },
        )

  -- Under the same conditions, where the compliance check refuses the delta: the call still
  -- returns, with a rejected round of payout zero that its key finds, and no balance and no ledger
  -- entry has changed.
  pub execute_rejects :
      {message : String}
      → check ≡ err (compliance_violation message)
      → (gr : GameRound) × (final.0 ≡ ok gr)
        × (gr.status ≡ rejected)
        × (gr.payout_units ≡ pos 0)
        × (first (has_key req.user_id req.game_id req.idempotency_key) final.1.work.rounds
            ≡ some gr)
        × Unmoved s.work final.1.work
  unfolding settle reject_round recover pending_round put_round
  execute_rejects {message} failed_check =
      let own = own_key settings req world a in
      let s1 = inserted settings req world a s in
      let e =
        adjust_refused settings req.user_id a.attempted_delta_units (round_reason req world)
          req.actor false false s1 known failed_check in
      let adj =
        adjust-Adjusts settings req.user_id a.attempted_delta_units (round_reason req world)
          req.actor false false s1 scale in
      let refused : Refused s1 (adjusted_in settings req world a s).1 =
        subst
          (λ r.
            Adjusts req.user_id a.attempted_delta_units s1
              (r, (adjusted_in settings req world a s).1))
          e adj in
      rw (execute_fresh settings req world a s parsed fresh known, e)
        (
          _,
          refl,
          refl,
          refl,
          rw refused.rounds (
              first-update_last (has_key req.user_id req.game_id req.idempotency_key) _
                (pending_round req world a) s.work.rounds own own fresh.new_key),
          record { balances = refused.balances; ledger = refused.ledger },
        )
