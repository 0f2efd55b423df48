-- ===== src/Rounds/Found.antt =====
-- What the key of a request finds after a call of src/casino_bot/services/game_round_service.py.
use mathlib.Core.WellFounded.{Acc}
use casino_bot.Prelude.{
  ℕ, ◌+◌, ◌-◌, ◌<◌, pos, ◌≡◌, refl, Bool, true, false, Option, none, some, first, first-update_last,
  arith, ◌≤ℤ◌, subst, inl, inr, ◌⊎◌,
}
use casino_bot.Prelude.Order.{lt_wf}
use casino_bot.Python.{
  Result, ok, err, type_error, value_error, key_error, compliance_violation, integrity_error,
  operational_error, http_exception, engine_rejected, http_coded, exception, ok-injective, lift,
  ◌>>=◌,
}
use casino_bot.Settings.{Settings}
use casino_bot.Database.{
  GameRound, TokenAccount, Tables, Session, has_key, begin_work, in_block, end_block, close_block,
}
use casino_bot.Rounds.{
  RoundRequest, World, Amounts, pending_round, round_body, settle, put_round, or_fault,
  commit_round, reject_round, recover, play_round, round_or_new, execute_game_round, amounts,
  poll_round, await_round,
}
use casino_bot.Rounds.Steps.{
  NotInserted, own_key, inserted, adjusted_in, settled, round_body-cases, rounds-adjusted_in,
}

-- The key that a request names finds the round.
abbrev pub Finds : RoundRequest → GameRound → Tables → Type 0
Finds req gr t = first (has_key req.user_id req.game_id req.idempotency_key) t.rounds ≡ some gr

module _ (settings : Settings) (req : RoundRequest) (world : World) (a : Amounts) where
  -- The settled row is the one that was inserted, under the same key.
  put_round-Finds :
      (s : Session) (t : Tables) (y : GameRound) {gr : GameRound}
      → first (has_key req.user_id req.game_id req.idempotency_key) s.work.rounds ≡ none
      → t.rounds ≡ (inserted settings req world a s).work.rounds
      → y.user_id ≡ req.user_id
      → y.game_id ≡ req.game_id
      → y.idempotency_key ≡ req.idempotency_key
      → ok y ≡ ok gr
      → Finds req gr (put_round y t)
  unfolding put_round pending_round
  put_round-Finds s t y {gr} new same eu eg ek done =
      let own = own_key settings req world a in
      subst (λ g. Finds req g (put_round y t)) (ok-injective done)
        (rw (same, eu, eg, ek)
          (first-update_last (has_key req.user_id req.game_id req.idempotency_key) _
            (pending_round req world a) s.work.rounds own own new))

  settle-Finds :
      (s s' : Session) (r : Result TokenAccount) {gr : GameRound}
      → first (has_key req.user_id req.game_id req.idempotency_key) s.work.rounds ≡ none
      → s'.work.rounds ≡ (inserted settings req world a s).work.rounds
      → (settle req world a r s').0 ≡ ok gr
      → Finds req gr (settle req world a r s').1.work
  unfolding settle commit_round reject_round pending_round put_round
  settle-Finds s s' (ok x) {gr} new same done =
      put_round-Finds s s'.work _ new same refl refl refl done
  settle-Finds s s' (err (compliance_violation m)) {gr} new same done =
      put_round-Finds s s'.work _ new same refl refl refl done
  settle-Finds s s' (err (type_error m)) new same done = cc
  settle-Finds s s' (err (value_error m)) new same done = cc
  settle-Finds s s' (err (key_error m)) new same done = cc
  settle-Finds s s' (err (integrity_error m)) new same done = cc
  settle-Finds s s' (err (operational_error m)) new same done = cc
  settle-Finds s s' (err (http_exception n m)) new same done = cc
  settle-Finds s s' (err (engine_rejected c m o)) new same done = cc
  settle-Finds s s' (err (http_coded n c m)) new same done = cc
  settle-Finds s s' (err (exception c m)) new same done = cc

  -- A block that returns has inserted the row that it returns.
  round_body-Finds :
      (s : Session) {gr : GameRound}
      → pos 1 ≤ℤ settings.token_unit_scale
      → first (has_key req.user_id req.game_id req.idempotency_key) s.work.rounds ≡ none
      → (round_body settings req world a s).0 ≡ ok gr
      → Finds req gr (round_body settings req world a s).1.work
  round_body-Finds s {gr} scale new done = by_cases (round_body-cases settings req world a s)
    where
      r : Result TokenAccount
      r = (adjusted_in settings req world a s).0

      s' : Session
      s' = (adjusted_in settings req world a s).1

      same : s'.work.rounds ≡ (inserted settings req world a s).work.rounds
      same = rounds-adjusted_in settings req world a scale s

      by_cases :
          NotInserted s (round_body settings req world a s)
            ⊎ (round_body settings req world a s ≡ settled settings req world a s)
          → Finds req gr (round_body settings req world a s).1.work
      by_cases (inl (refusal, w, c)) = absurd (ground (arith, done, refusal))
      by_cases (inr e) = rw e (settle-Finds s s' (or_fault world.fault r) new same (rw (← e) done))

-- A poll that returns a round has found it in the tables that it saw.
poll_round-Finds :
    (req : RoundRequest) (world : World) (i left : ℕ) (w : Acc ◌<◌ left) {gr : GameRound}
    → (poll_round req.user_id req.game_id req.idempotency_key world i left w).0 ≡ ok gr
    → Finds req gr (poll_round req.user_id req.game_id req.idempotency_key world i left w).1
unfolding poll_round
poll_round-Finds req world i left (Acc.intro _ smaller) {gr} done = grind (
  arith,
  λ (p : left - (10 + world.lag (i + 1)) < left).
      poll_round-Finds req world (i + 1) (left - (10 + world.lag (i + 1))) (smaller _ p) {gr = gr},
)

module _ (settings : Settings) (req : RoundRequest) (world : World) where
  await_round-Finds :
      (s : Session) {gr : GameRound}
      → (await_round req world s).0 ≡ ok gr
      → Finds req gr (await_round req world s).1.work
  unfolding await_round
  await_round-Finds s done =
      poll_round-Finds req world 0 (500 - world.lag 0) (lt_wf.apply (500 - world.lag 0)) done

  recover-Finds :
      (a : Amounts) (s s' : Session) (r : Result GameRound) {gr : GameRound}
      → (r ≡ ok gr → Finds req gr s'.work)
      → (recover req world a r (end_block s (r, s')).1).0 ≡ ok gr
      → Finds req gr (recover req world a r (end_block s (r, s')).1).1.work
  unfolding recover
  recover-Finds a s s' (ok g) {gr} found done = by_mode s.in_transaction (found done)
    where
      by_mode :
          (b : Bool) → Finds req gr s'.work → Finds req gr (close_block b s.work (ok g) s').work
      by_mode true h = h
      by_mode false h = h
  recover-Finds a s s' (err (integrity_error m)) {gr} found done = await_round-Finds _ done
  recover-Finds a s s' (err (type_error m)) found done = absurd (ground (arith, done))
  recover-Finds a s s' (err (value_error m)) found done = absurd (ground (arith, done))
  recover-Finds a s s' (err (key_error m)) found done = absurd (ground (arith, done))
  recover-Finds a s s' (err (compliance_violation m)) found done = absurd (ground (arith, done))
  recover-Finds a s s' (err (operational_error m)) found done = absurd (ground (arith, done))
  recover-Finds a s s' (err (http_exception n m)) found done = absurd (ground (arith, done))
  recover-Finds a s s' (err (engine_rejected c m o)) found done = absurd (ground (arith, done))
  recover-Finds a s s' (err (http_coded n c m)) found done = absurd (ground (arith, done))
  recover-Finds a s s' (err (exception c m)) found done = absurd (ground (arith, done))

  play_round-Finds :
      (a : Amounts) (s : Session) {gr : GameRound}
      → pos 1 ≤ℤ settings.token_unit_scale
      → first (has_key req.user_id req.game_id req.idempotency_key) s.work.rounds ≡ none
      → (play_round settings req world a s).0 ≡ ok gr
      → Finds req gr (play_round settings req world a s).1.work
  unfolding play_round in_block
  play_round-Finds a s {gr} scale new done =
      let s0 = begin_work s s.work in
      recover-Finds a s (round_body settings req world a s0).1
        (round_body settings req world a s0).0 (round_body-Finds settings req world a s0 scale new)
        done

  -- For a scale of at least one: whatever round the call returns, be it an old one, a new one, or
  -- another caller's that it waited for, is the round that the request's key finds in the tables it
  -- leaves.
  pub execute-Finds :
      (s : Session) {gr : GameRound}
      → pos 1 ≤ℤ settings.token_unit_scale
      → (execute_game_round settings req world s).0 ≡ ok gr
      → Finds req gr (execute_game_round settings req world s).1.work
  unfolding execute_game_round round_or_new
  execute-Finds s {gr} scale done =
      by_key (first (has_key req.user_id req.game_id req.idempotency_key) s.work.rounds) refl done
    where
      by_amounts :
          (r : Result Amounts)
          → first (has_key req.user_id req.game_id req.idempotency_key) s.work.rounds ≡ none
          → ((lift r >>= play_round settings req world) (begin_work s s.work)).0 ≡ ok gr
          → Finds req gr ((lift r >>= play_round settings req world) (begin_work s s.work)).1.work
      by_amounts (ok a) new h = play_round-Finds a (begin_work s s.work) scale new h
      by_amounts (err e) new h = absurd (ground (arith, h))

      by_key :
          (o : Option GameRound)
          → first (has_key req.user_id req.game_id req.idempotency_key) s.work.rounds ≡ o
          → (round_or_new settings req world o (begin_work s s.work)).0 ≡ ok gr
          → Finds req gr (round_or_new settings req world o (begin_work s s.work)).1.work
      by_key (some g) there h = subst (λ x. Finds req x s.work) (ok-injective h) there
      by_key none new h = by_amounts (amounts settings req) new h
