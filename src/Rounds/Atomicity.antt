-- ===== src/Rounds/Atomicity.antt =====
-- An unexpected failure inside the transaction of src/casino_bot/services/game_round_service.py: the
-- writes of the adjustment are undone, and a failed record takes the key.
use text.Mathlib.TextPositions.{eq_refl}
use casino_bot.Prelude.{
  pos, ◌≡◌, refl, false, String, none, some, [], ◌∷◌, ◌++◌, first, first-append_one, Bool-cases,
  inl, inr, ◌≤ℤ◌, arith,
}
use casino_bot.Python.{ok, err, Result, operational_error}
use casino_bot.Settings.{Settings}
use casino_bot.Database.{
  GameRound, failed, Session, Tables, has_key, begin_work, insert_round, in_block,
  violates_round_constraints,
}
use casino_bot.Rounds.{
  RoundRequest, World, Amounts, pending_round, failed_round, execute_game_round, amounts,
  play_round, recover, settle, or_fault,
}
use casino_bot.Rounds.Outcomes.{Unmoved}
use casino_bot.Rounds.Steps.{execute_plays, round_body_settles, committed-adjusted_in}
use casino_bot.Rounds.Replay.{execute_replays}

violates-new_key :
    (r : GameRound) (t : Tables)
    → violates_round_constraints r t ≡ false
    → first (has_key r.user_id r.game_id r.idempotency_key) t.rounds ≡ none
unfolding violates_round_constraints
violates-new_key r t h = ground arith

module _ (settings : Settings) (req : RoundRequest) (world : World) (a : Amounts) (s : Session)
    (message : String) (scale : pos 1 ≤ℤ settings.token_unit_scale)
    (parsed : amounts settings req ≡ ok a)
    (new_key : first (has_key req.user_id req.game_id req.idempotency_key) s.work.rounds ≡ none)
    (accepted : violates_round_constraints (pending_round req world a) s.work ≡ false)
    (alone : world.conflict ≡ false) (fault : world.fault ≡ some message) where
  abbrev final : Result GameRound × Session
  final = execute_game_round settings req world s

  -- The failed record, as the handler stores it.
  abbrev record_failed : Session
  record_failed =
      (in_block (insert_round (failed_round req world a (operational_error message)))
        (record { work = s.committed; committed = s.committed; in_transaction = false })).1

  execute_fails : final ≡ (err (operational_error message), record_failed)
  unfolding play_round recover settle or_fault in_block
  execute_fails = rw (execute_plays settings req world a s parsed new_key) (
      ground (
        arith,
        round_body_settles settings req world a (begin_work s s.work) alone accepted,
        fault,
        committed-adjusted_in settings req world a scale (begin_work s s.work),
      ))

  -- For a scale of at least one, a request whose amounts are computed, a key that the transaction
  -- has no round for, and a row that it accepts: when the database fails after the adjustment's
  -- writes, the error is passed on, every balance and the ledger are those of the last commit, the
  -- session is outside any transaction, and what it holds is committed.
  pub execute_rolls_back :
      (final.0 ≡ err (operational_error message))
      × Unmoved s.committed final.1.work
      × (final.1.committed ≡ final.1.work)
      × (final.1.in_transaction ≡ false)
  unfolding insert_round in_block
  execute_rolls_back =
      rw execute_fails
        (elim (Bool-cases (
          violates_round_constraints (failed_round req world a (operational_error message))
            s.committed)) [
              | inl v ↦ rw v (refl, record { balances = λ u. refl; ledger = refl }, refl, refl)
              | inr v ↦ rw v (refl, record { balances = λ u. refl; ledger = refl }, refl, refl)
            ])

  rounds-stored :
      violates_round_constraints (failed_round req world a (operational_error message)) s.committed
        ≡ false
      → record_failed.work.rounds
        ≡ s.committed.rounds ++ failed_round req world a (operational_error message) ∷ []
  unfolding insert_round in_block
  rounds-stored stored = rw stored

  -- Under the same conditions, where the failed record breaks no constraint of the committed
  -- tables: a retry with the same user, game and key returns a round of status failed and payout
  -- zero, and changes no table.
  pub retry_returns_failed :
      (again : RoundRequest) (later : World)
      → again.user_id ≡ req.user_id
      → again.game_id ≡ req.game_id
      → again.idempotency_key ≡ req.idempotency_key
      → violates_round_constraints
          (failed_round req world a (operational_error message))
          s.committed
        ≡ false
      → (gr : GameRound) × (gr.status ≡ failed)
        × (gr.payout_units ≡ pos 0)
        × (execute_game_round settings again later final.1
            ≡ (ok gr, begin_work final.1 final.1.work))
  unfolding failed_round pending_round
  retry_returns_failed again later eu eg ek stored = (
    failed_round req world a (operational_error message),
    refl,
    refl,
    execute_replays settings again later final.1 (
        rw (eu, eg, ek, execute_fails, failed_is_last)
          (rw (first-append_one, violates-new_key _ _ stored)
            (ground (arith, eq_refl req.game_id, eq_refl req.idempotency_key)))),
  )
    where
      failed_is_last :
          record_failed.work.rounds
          ≡ s.committed.rounds ++ failed_round req world a (operational_error message) ∷ []
      failed_is_last = rounds-stored stored
