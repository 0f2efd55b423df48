-- ===== src/Rounds/Sees.antt =====
-- What a wait for another caller's round leaves
-- (src/casino_bot/services/game_round_service.py): one of the states that its queries have seen.
use mathlib.Core.Logic.{dite}
use mathlib.Core.WellFounded.{Acc}
use native.Mathlib.Decide.{dec_lt}
use casino_bot.Prelude.Order.{lt_wf}
use casino_bot.Prelude.{ℕ, ◌+◌, ◌-◌, ◌<◌, Option, none, some, first, arith}
use casino_bot.Python.{Result, err, integrity_error}
use casino_bot.Database.{GameRound, Tables, Session, has_key}
use casino_bot.Rounds.{RoundRequest, World, poll_round, found_or, await_round}

module _ (P : Tables → Type 0) (req : RoundRequest) (world : World) (s : Session)
    (others : (i : ℕ) → P (world.seen i)) where
  poll_round-Sees :
      (i left : ℕ) (w : Acc ◌<◌ left)
      → P (poll_round req.user_id req.game_id req.idempotency_key world i left w).1
  unfolding poll_round
  poll_round-Sees i left (Acc.intro _ smaller) =
      by_row (first (has_key req.user_id req.game_id req.idempotency_key) (world.seen i).rounds) _ (
        by_time
          (λ (h : 0 < left).
            poll_round-Sees (i + 1) (left - (10 + world.lag (i + 1))) (smaller _ (omega arith)))
          (dec_lt 0 left))
    where
      retry : 0 < left → Result GameRound × Tables
      retry h =
          poll_round req.user_id req.game_id req.idempotency_key world (i + 1)
            (left - (10 + world.lag (i + 1))) (smaller _ (omega arith))

      by_time :
          ((h : 0 < left) → P (retry h).1)
          → (d : Dec (0 < left))
          → P (dite d retry (λ _. (err (integrity_error "game_rounds"), world.seen i))).1
      by_time later (yes h) = later h
      by_time later (no h) = others i

      by_row :
          (o : Option GameRound) (rest : Result GameRound × Tables)
          → P rest.1
          → P (found_or o (world.seen i) rest).1
      by_row (some g) rest c = others i
      by_row none rest c = c

  pub await_round-Sees : P (await_round req world s).1.work
  unfolding await_round
  await_round-Sees = poll_round-Sees 0 (500 - world.lag 0) (lt_wf.apply (500 - world.lag 0))
