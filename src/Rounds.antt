-- ===== src/Rounds.antt =====
-- One round of a game with the token ledger (src/casino_bot/services/game_round_service.py).
--
-- What a call reads of the world is an argument: the two identifiers that `uuid4` returns, the time
-- of the commit, whether the database reports a concurrent insert of the same idempotency tuple or
-- fails during the adjustment, when its writes have been made, and, for the wait that follows such a report, the tables that each poll sees and how much later
-- than asked each sleep ends, in milliseconds.
mod Requests
pub mod Sees
pub mod Steps
pub mod Outcomes
pub mod Found
pub mod Replay
pub mod Atomicity
pub mod Users
pub mod Solvency
pub mod Polling
pub use Requests.{max_bet_amount, RoundRequest, Amounts}
unfoldable pub use Requests.{check_bet, attempted_delta, amounts}
use Prim.Native.String.{◌++◌ as str_append}
use casino_bot.Prelude.{
  ℕ, ◌+◌, ◌-◌, ◌<◌, ℤ, pos, neg, ltb_ℤ, leb_ℤ, Bool, true, false, String, Option, none, some, List,
  [], ◌∷◌, ◌||◌, first, update_first, if◌then◌else◌, arith,
}
use casino_bot.Prelude.Order.{lt_wf}
use casino_bot.Python.{
  Error, type_error, value_error, key_error, compliance_violation, integrity_error,
  operational_error, http_exception, engine_rejected, Result, ok, err, PyValue, int, bool, other,
  bind_result, lift, pure, raise, raise_if, ◌>>=◌, ◌>>◌, StorageFloat, zero_float, Json, number,
  text, Dict, insert, class_name,
}
use casino_bot.Settings.{Settings}
use casino_bot.Tokens.{validate_units, tokens_whole_to_units, units_to_storage_float}
use casino_bot.Database.{
  GameRound, RoundStatus, committed, rejected, failed, TokenAccount, Tables, Session, Db, query,
  write, commit, rollback, has_key, insert_round, audit_log, in_block, begin_work,
}
use casino_bot.Economy.{adjust_user_tokens}
use mathlib.Core.Logic.{dite}
use mathlib.Core.WellFounded.{Acc}
use native.Mathlib.Decide.{dec_lt}

pub record World : Type 0 where
  pub round_id : String
  pub failed_id : String
  pub now : ℕ
  pub conflict : Bool
  pub fault : Option String
  pub seen : ℕ → Tables
  pub lag : ℕ → ℕ

-- `details or None`.
unfoldable pub details_or_none : Option Dict → Option Dict
details_or_none (some []) = none
details_or_none d = d

-- `details or {}`.
unfoldable pub details_or_empty : Option Dict → Dict
details_or_empty none = []
details_or_empty (some d) = d

-- The row as it is inserted.
unfoldable pub pending_round : RoundRequest → World → Amounts → GameRound
unfolding details_or_none
pending_round req world a = record {
  round_id = world.round_id;
  user_id = req.user_id;
  game_id = req.game_id;
  idempotency_key = req.idempotency_key;
  bet_amount = a.bet_float;
  bet_units = a.bet_units;
  payout_delta = a.attempted_delta_float;
  payout_units = a.attempted_delta_units;
  status = failed;
  details_json = details_or_none req.details;
  committed_at = none;
}

-- Assignments to the attributes of the inserted row, which its unique key names.
unfoldable pub put_round : GameRound → Tables → Tables
put_round r t = record t {
  rounds = update_first (has_key r.user_id r.game_id r.idempotency_key) (λ _. r) t.rounds;
}

unfoldable pub round_reason : RoundRequest → World → String
round_reason req world =
    str_append "game_round:" (str_append req.game_id (str_append ":" world.round_id))

-- The branch of a `ComplianceViolation`.
unfoldable pub reject_round : RoundRequest → World → Amounts → String → Db GameRound
unfolding put_round audit_log pending_round details_or_empty round_reason
reject_round req world a message = do
  let delta = number a.attempted_delta_units
  let gr : GameRound = record (pending_round req world a) {
    status = rejected;
    payout_delta = zero_float;
    payout_units = pos 0;
    details_json = some (
        insert "attempted_delta_units" delta
          (insert "rejection_reason" (text message) (details_or_empty req.details)));
  }
  write (put_round gr)
  audit_log req.actor "game_round_rejected" (
      some (
        ("user_id", number (pos req.user_id))
        ∷ ("game_id", text req.game_id)
        ∷ ("round_id", text world.round_id)
        ∷ ("idempotency_key", text req.idempotency_key)
        ∷ ("bet_amount", number a.bet_amount)
        ∷ ("attempted_delta_units", delta)
        ∷ ("reason", text (round_reason req world))
        ∷ ("error", text message)
        ∷ []))
  pure gr

unfoldable pub commit_round : RoundRequest → World → Amounts → Db GameRound
unfolding put_round pending_round
commit_round req world a = do
  let gr : GameRound = record (pending_round req world a) {
    status = committed;
    committed_at = some world.now;
  }
  write (put_round gr)
  pure gr

-- The inner `try` around the adjustment.
unfoldable pub settle : RoundRequest → World → Amounts → Result TokenAccount → Db GameRound
settle req world a (ok account) = commit_round req world a
settle req world a (err (compliance_violation message)) = reject_round req world a message
settle req world a (err e) = raise e

-- The adjustment as the block sees it: the database may fail at its last flush.
unfoldable pub or_fault : Option String → Result TokenAccount → Result TokenAccount
or_fault none r = r
or_fault (some message) r = err (operational_error message)

-- The block of the transaction: insert, flush, adjust, and the settlement.
unfoldable pub round_body : Settings → RoundRequest → World → Amounts → Db GameRound
unfolding or_fault
round_body settings req world a = do
  raise_if world.conflict (integrity_error "game_rounds")
  insert_round (pending_round req world a)
  λ s.
      let (r, s') =
        adjust_user_tokens settings req.user_id a.attempted_delta_units (round_reason req world)
          req.actor false false s in
      settle req world a (or_fault world.fault r) s'

-- What a query of the loop gives: the round, or what the rest of the loop gives.
unfoldable pub found_or :
    Option GameRound → Tables → Result GameRound × Tables → Result GameRound × Tables
found_or (some gr) t rest = (ok gr, t)
found_or none t rest = rest

-- The loop of the `IntegrityError` branch, at its `i`-th query, with `left` milliseconds to the
-- deadline. A sleep takes ten milliseconds and the lag.
unfoldable pub poll_round :
    ℕ → String → String → World → ℕ → (left : ℕ) → Acc ◌<◌ left → Result GameRound × Tables
unfolding found_or
poll_round user_id game_id idempotency_key world i left (Acc.intro _ smaller) =
    let rest =
      dite (dec_lt 0 left)
        (λ h.
          poll_round user_id game_id idempotency_key world (i + 1) (left - (10 + world.lag (i + 1)))
            (smaller _ (omega arith)))
        (λ _. (err (integrity_error "game_rounds"), world.seen i)) in
    found_or (first (has_key user_id game_id idempotency_key) (world.seen i).rounds) (world.seen i)
      rest

-- Half a second, less what has passed when the deadline is first read.
unfoldable pub await_round : RoundRequest → World → Db GameRound
await_round req world s =
    let left = 500 - world.lag 0 in
    let (r, t) =
      poll_round req.user_id req.game_id req.idempotency_key world 0 left (lt_wf.apply left) in
    (r, record { work = t; committed = t; in_transaction = true })

unfoldable pub failed_round : RoundRequest → World → Amounts → Error → GameRound
unfolding pending_round details_or_empty class_name
failed_round req world a e = record (pending_round req world a) {
  round_id = world.failed_id;
  payout_delta = zero_float;
  payout_units = pos 0;
  details_json = some (
      insert "error_class" (text (class_name e)) (
        insert "attempted_delta_units" (number a.attempted_delta_units)
          (details_or_empty req.details)));
}

-- The `except` branches around the transaction.
unfoldable pub recover : RoundRequest → World → Amounts → Result GameRound → Db GameRound
recover req world a (ok gr) s = (ok gr, s)
recover req world a (err (integrity_error m)) s = await_round req world (rollback s).1
recover req world a (err e) s =
    (err e, (in_block (insert_round (failed_round req world a e)) (rollback s).1).1)

unfoldable pub play_round : Settings → RoundRequest → World → Amounts → Db GameRound
play_round settings req world a s =
    let (r, s') = in_block (round_body settings req world a) s in recover req world a r s'

unfoldable pub round_or_new : Settings → RoundRequest → World → Option GameRound → Db GameRound
round_or_new settings req world (some existing) = pure existing
round_or_new settings req world none = do
  a ← lift (amounts settings req)
  play_round settings req world a

unfoldable pub execute_game_round : Settings → RoundRequest → World → Db GameRound
execute_game_round settings req world = do
  existing ← query (λ t. first (has_key req.user_id req.game_id req.idempotency_key) t.rounds)
  round_or_new settings req world existing
