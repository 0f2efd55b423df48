-- ===== src/Rounds/Users.antt =====
-- The users after a call of src/casino_bot/services/game_round_service.py that returns a round: those
-- of the caller, or those that a wait has seen.
use casino_bot.Prelude.{
  ℕ, pos, ◌≡◌, refl, sym, ◌∙◌, subst, Bool, true, false, Option, none, some, List, first, ◌≤ℤ◌, inl,
  inr, ◌⊎◌,
}
use casino_bot.Python.{
  Result, ok, err, lift, ◌>>=◌, type_error, value_error, key_error, compliance_violation,
  integrity_error, operational_error, http_exception, engine_rejected, http_coded, exception,
}
use casino_bot.Settings.{Settings}
use casino_bot.Database.{
  GameRound, User, TokenAccount, Session, has_key, begin_work, in_block, end_block, close_block,
}
use casino_bot.Economy.Adjust.{adjust-Adjusts, Adjusts-users}
use casino_bot.Rounds.{
  RoundRequest, World, Amounts, round_reason, round_body, settle, put_round, or_fault, commit_round,
  reject_round, recover, play_round, round_or_new, execute_game_round, amounts,
}
use casino_bot.Rounds.Sees.{await_round-Sees}
use casino_bot.Rounds.Steps.{NotInserted, inserted, adjusted_in, settled, round_body-cases}

settle_users :
    (req : RoundRequest) (world : World) (a : Amounts) (r : Result TokenAccount) (s : Session)
    → (settle req world a r s).1.work.users ≡ s.work.users
unfolding settle commit_round reject_round put_round
settle_users req world a (ok x) s = refl
settle_users req world a (err (compliance_violation m)) s = refl
settle_users req world a (err (type_error m)) s = refl
settle_users req world a (err (value_error m)) s = refl
settle_users req world a (err (key_error m)) s = refl
settle_users req world a (err (integrity_error m)) s = refl
settle_users req world a (err (operational_error m)) s = refl
settle_users req world a (err (http_exception n m)) s = refl
settle_users req world a (err (engine_rejected c m o)) s = refl
settle_users req world a (err (http_coded n c m)) s = refl
settle_users req world a (err (exception c m)) s = refl

module _ (Q : List User → Type 0) (settings : Settings) (req : RoundRequest) (world : World)
    (scale : pos 1 ≤ℤ settings.token_unit_scale) (others : (i : ℕ) → Q (world.seen i).users) where
  round_body-Q :
      (a : Amounts) (s : Session)
      → Q s.work.users
      → Q (round_body settings req world a s).1.work.users
  round_body-Q a s h = by_cases (round_body-cases settings req world a s)
    where
      by_cases :
          NotInserted s (round_body settings req world a s)
            ⊎ (round_body settings req world a s ≡ settled settings req world a s)
          → Q (round_body settings req world a s).1.work.users
      by_cases (inl (refusal, w, c)) = subst (λ t. Q t.users) (sym w) h
      by_cases (inr e) =
          let kept =
            settle_users req world a (or_fault world.fault (adjusted_in settings req world a s).0)
              (adjusted_in settings req world a s).1
            ∙ Adjusts-users req.user_id a.attempted_delta_units (inserted settings req world a s)
                (adjusted_in settings req world a s).1 (adjusted_in settings req world a s).0
                (adjust-Adjusts settings req.user_id a.attempted_delta_units
                  (round_reason req world) req.actor false false (inserted settings req world a s)
                  scale) in
          rw e (subst Q (sym kept) h)

  recover-Q :
      (a : Amounts) (s s' : Session) (r : Result GameRound) {gr : GameRound}
      → Q s'.work.users
      → (recover req world a r (end_block s (r, s')).1).0 ≡ ok gr
      → Q (recover req world a r (end_block s (r, s')).1).1.work.users
  unfolding recover
  recover-Q a s s' (ok g) h done = by_mode s.in_transaction
    where
      by_mode : (b : Bool) → Q (close_block b s.work (ok g) s').work.users
      by_mode true = h
      by_mode false = h
  recover-Q a s s' (err (integrity_error m)) h done =
      await_round-Sees (λ t. Q t.users) req world _ others
  recover-Q a s s' (err (type_error m)) h done = absurd cc
  recover-Q a s s' (err (value_error m)) h done = absurd cc
  recover-Q a s s' (err (key_error m)) h done = absurd cc
  recover-Q a s s' (err (compliance_violation m)) h done = absurd cc
  recover-Q a s s' (err (operational_error m)) h done = absurd cc
  recover-Q a s s' (err (http_exception n m)) h done = absurd cc
  recover-Q a s s' (err (engine_rejected c m o)) h done = absurd cc
  recover-Q a s s' (err (http_coded n c m)) h done = absurd cc
  recover-Q a s s' (err (exception c m)) h done = absurd cc

  -- What held of the caller's users, and holds of those that a wait sees, holds afterwards.
  pub execute_users :
      (s : Session) {gr : GameRound}
      → Q s.work.users
      → (execute_game_round settings req world s).0 ≡ ok gr
      → Q (execute_game_round settings req world s).1.work.users
  unfolding execute_game_round round_or_new play_round in_block
  execute_users s {gr} h done =
      by_key (first (has_key req.user_id req.game_id req.idempotency_key) s.work.rounds) done
    where
      s0 : Session
      s0 = begin_work s s.work

      by_amounts :
          (r : Result Amounts)
          → ((lift r >>= play_round settings req world) s0).0 ≡ ok gr
          → Q ((lift r >>= play_round settings req world) s0).1.work.users
      by_amounts (err e) d = absurd cc
      by_amounts (ok a) d =
          let body = round_body settings req world a s0 in
          recover-Q a s0 body.1 body.0 (round_body-Q a s0 h) d

      by_key :
          (o : Option GameRound)
          → (round_or_new settings req world o s0).0 ≡ ok gr
          → Q (round_or_new settings req world o s0).1.work.users
      by_key (some g) d = h
      by_key none d = by_amounts (amounts settings req) d
