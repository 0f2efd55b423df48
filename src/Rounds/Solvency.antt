-- ===== src/Rounds/Solvency.antt =====
-- The token invariant across whole calls of src/casino_bot/services/game_round_service.py: what the
-- transaction sees and what is committed stay conserved on every way out.
use casino_bot.Prelude.{
  ℕ, pos, ◌≡◌, refl, Bool, true, false, Option, none, some, first, ◌≤ℤ◌, inl, inr, sym, subst,
  Bool-cases, ◌⊎◌,
}
use casino_bot.Python.{
  Result, ok, err, type_error, value_error, key_error, compliance_violation, integrity_error,
  operational_error, http_exception, engine_rejected, http_coded, exception, lift, ◌>>=◌,
}
use casino_bot.Settings.{Settings}
use casino_bot.Database.{
  GameRound, TokenAccount, Tables, Session, has_key, begin_work, insert_round,
  violates_round_constraints, in_block, close_block, rollback,
}
use casino_bot.Economy.Conservation.{IsConserved, adjust-IsConserved}
use casino_bot.Rounds.{
  RoundRequest, World, Amounts, failed_round, round_reason, round_body, settle, put_round, or_fault,
  commit_round, reject_round, recover, play_round, round_or_new, execute_game_round, amounts,
  await_round,
}
use casino_bot.Rounds.Sees.{await_round-Sees}
use casino_bot.Rounds.Steps.{
  NotInserted, inserted, adjusted_in, settled, round_body-cases, committed-adjusted_in,
}

-- The rounds and the audit log are no part of the invariant.
keep_money :
    {t t' : Tables}
    → IsConserved t
    → t'.accounts ≡ t.accounts
    → t'.ledger ≡ t.ledger
    → IsConserved t'
keep_money c ea el = record { sums = λ v. rw (ea, el) (c.sums v); nonneg = λ v. rw ea (c.nonneg v) }

-- Both states of a session.
pub record IsSound (s : Session) : Type 0 where
  pub working : IsConserved s.work
  pub stored : IsConserved s.committed

module _ (settings : Settings) (req : RoundRequest) (world : World) (a : Amounts) where
  settle-IsSound :
      (r : Result TokenAccount) (s : Session) → IsSound s → IsSound (settle req world a r s).1
  unfolding settle commit_round reject_round put_round
  settle-IsSound (ok x) s h = record { working = keep_money h.working refl refl; stored = h.stored }
  settle-IsSound (err (compliance_violation m)) s h = record {
    working = keep_money h.working refl refl;
    stored = h.stored;
  }
  settle-IsSound (err (type_error m)) s h = h
  settle-IsSound (err (value_error m)) s h = h
  settle-IsSound (err (key_error m)) s h = h
  settle-IsSound (err (integrity_error m)) s h = h
  settle-IsSound (err (operational_error m)) s h = h
  settle-IsSound (err (http_exception n m)) s h = h
  settle-IsSound (err (engine_rejected c m o)) s h = h
  settle-IsSound (err (http_coded n c m)) s h = h
  settle-IsSound (err (exception c m)) s h = h

  round_body-IsSound :
      (s : Session)
      → pos 1 ≤ℤ settings.token_unit_scale
      → IsSound s
      → IsSound (round_body settings req world a s).1
  round_body-IsSound s scale h = by_cases (round_body-cases settings req world a s)
    where
      by_cases :
          NotInserted s (round_body settings req world a s)
            ⊎ (round_body settings req world a s ≡ settled settings req world a s)
          → IsSound (round_body settings req world a s).1
      by_cases (inl (refusal, w, c)) = record {
        working = subst IsConserved (sym w) h.working;
        stored = subst IsConserved (sym c) h.stored;
      }
      by_cases (inr e) = rw e (
          settle-IsSound (or_fault world.fault (adjusted_in settings req world a s).0)
            (adjusted_in settings req world a s).1
            (record {
              working =
                  adjust-IsConserved settings scale req.user_id a.attempted_delta_units
                    (round_reason req world) req.actor false false (inserted settings req world a s)
                    (keep_money h.working refl refl);
              stored =
                  subst IsConserved (sym (committed-adjusted_in settings req world a scale s))
                    h.stored;
            }))

close_block-IsSound :
    {A : Type 0} (b : Bool) (t : Tables) (r : Result A) (s : Session)
    → IsConserved t
    → IsSound s
    → IsSound (close_block b t r s)
close_block-IsSound true t (ok x) s c h = h
close_block-IsSound true t (err e) s c h = record { working = c; stored = h.stored }
close_block-IsSound false t (ok x) s c h = record { working = h.working; stored = h.working }
close_block-IsSound false t (err e) s c h = record { working = h.stored; stored = h.stored }

insert_round-IsSound : (r : GameRound) (s : Session) → IsSound s → IsSound (insert_round r s).1
unfolding insert_round
insert_round-IsSound r s h = elim (Bool-cases (violates_round_constraints r s.work)) [
  | inl v ↦ rw v (record { working = h.working; stored = h.stored })
  | inr v ↦ rw v (record { working = keep_money h.working refl refl; stored = h.stored })
]

module _ (settings : Settings) (req : RoundRequest) (world : World)
    (scale : pos 1 ≤ℤ settings.token_unit_scale)
    (others : (i : ℕ) → IsConserved (world.seen i)) where
  failure-IsSound :
      (r : GameRound) (s : Session)
      → IsSound s
      → IsSound (in_block (insert_round r) (rollback s).1).1
  unfolding in_block
  failure-IsSound r s h =
      let s0 = begin_work (rollback s).1 s.committed in
      close_block-IsSound false s.committed (insert_round r s0).0 (insert_round r s0).1 h.stored
        (insert_round-IsSound r s0 (record { working = h.stored; stored = h.stored }))

  recover-IsSound :
      (a : Amounts) (r : Result GameRound) (s : Session)
      → IsSound s
      → IsSound (recover req world a r s).1
  unfolding recover await_round
  recover-IsSound a (ok gr) s h = h
  recover-IsSound a (err (integrity_error m)) s h = record {
    working = await_round-Sees IsConserved req world (rollback s).1 others;
    stored = await_round-Sees IsConserved req world (rollback s).1 others;
  }
  recover-IsSound a (err (type_error m)) s h =
      failure-IsSound (failed_round req world a (type_error m)) s h
  recover-IsSound a (err (value_error m)) s h =
      failure-IsSound (failed_round req world a (value_error m)) s h
  recover-IsSound a (err (key_error m)) s h =
      failure-IsSound (failed_round req world a (key_error m)) s h
  recover-IsSound a (err (operational_error m)) s h =
      failure-IsSound (failed_round req world a (operational_error m)) s h
  recover-IsSound a (err (http_exception n m)) s h =
      failure-IsSound (failed_round req world a (http_exception n m)) s h
  recover-IsSound a (err (engine_rejected c m o)) s h =
      failure-IsSound (failed_round req world a (engine_rejected c m o)) s h
  recover-IsSound a (err (http_coded n c m)) s h =
      failure-IsSound (failed_round req world a (http_coded n c m)) s h
  recover-IsSound a (err (exception c m)) s h =
      failure-IsSound (failed_round req world a (exception c m)) s h
  recover-IsSound a (err (compliance_violation m)) s h =
      failure-IsSound (failed_round req world a (compliance_violation m)) s h

  -- For a scale of at least one, and however a call ends: the balances that the transaction sees
  -- and those that are committed are the sums of their ledger entries, and none is negative, if
  -- that held of both before and holds of every state that a wait for another caller sees.
  pub execute-IsSound :
      (s : Session) → IsSound s → IsSound (execute_game_round settings req world s).1
  unfolding execute_game_round round_or_new play_round in_block
  execute-IsSound s h =
      by_key (first (has_key req.user_id req.game_id req.idempotency_key) s.work.rounds)
    where
      s0 : Session
      s0 = begin_work s s.work

      sound : IsSound s0
      sound = record { working = h.working; stored = h.stored }

      by_amounts : (r : Result Amounts) → IsSound ((lift r >>= play_round settings req world) s0).1
      by_amounts (err e) = sound
      by_amounts (ok a) =
          let body = round_body settings req world a s0 in
          recover-IsSound a body.0 (close_block true s.work body.0 body.1) (
            close_block-IsSound true s.work body.0 body.1 h.working
              (round_body-IsSound settings req world a s0 scale sound))

      by_key : (o : Option GameRound) → IsSound (round_or_new settings req world o s0).1
      by_key (some g) = sound
      by_key none = by_amounts (amounts settings req)
