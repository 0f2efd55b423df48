-- ===== src/Rounds/Polling.antt =====
-- The wait for a concurrent caller's round in src/casino_bot/services/game_round_service.py.
use mathlib.Core.Logic.{dif_pos, dif_neg}
use mathlib.Core.WellFounded.{Acc}
use native.Mathlib.Decide.{dec_lt}
use native.Mathlib.Nat.{add-zero, zero-add}
use native.Mathlib.Bridge.{le_prop}
use casino_bot.Prelude.{
  ℕ, zero, suc, ◌+◌, ◌-◌, ◌*◌, ◌≤◌, ◌<◌, ◌≡◌, refl, ap, ◌∙◌, Option, none, first, arith,
  Option-cases, inl, inr,
}
use casino_bot.Prelude.Order.{lt_wf}
use casino_bot.Python.{Result, err, integrity_error}
use casino_bot.Database.{GameRound, Tables, Session, has_key}
use casino_bot.Rounds.{RoundRequest, World, poll_round, found_or, await_round}

module _ (req : RoundRequest) (world : World) where
  -- What the `i`-th query of the loop finds.
  abbrev pub sees : ℕ → Option GameRound
  sees i = first (has_key req.user_id req.game_id req.idempotency_key) (world.seen i).rounds

  -- What the loop gives if its last query is the `i`-th.
  abbrev pub ends_at : ℕ → Result GameRound × Tables
  ends_at i = found_or (sees i) (world.seen i) (err (integrity_error "game_rounds"), world.seen i)

  -- From any query on, the loop ends with one, after queries that found nothing and no more sleeps
  -- than fit in the time that was left.
  poll_round_ends :
      (i left : ℕ) (w : Acc ◌<◌ left)
      → (k : ℕ) × ((j : ℕ) → j < k → sees (i + j) ≡ none)
        × (10 * k ≤ left + 9)
        × (poll_round req.user_id req.game_id req.idempotency_key world i left w ≡ ends_at (i + k))
  unfolding poll_round found_or
  poll_round_ends i left (Acc.intro _ smaller) = elim (Option-cases (sees i)) [
    | inr (gr, there) ↦ (0, λ j h. elim h [ ], omega arith, rw (add-zero, there) refl)
    | inl unseen ↦ elim (dec_lt 0 left) [
      | no late ↦ (
        0,
        λ j h. elim h [ ],
        omega arith,
        rw (add-zero, unseen, dif_neg (dec_lt 0 left) late) refl,
      )
      | yes early ↦
          let (k, before, time, end) =
            poll_round_ends (i + 1) (left - (10 + world.lag (i + 1))) (smaller _ (omega arith)) in
          let shift : i + suc k ≡ i + 1 + k = omega arith in
          (
            suc k,
            earlier unseen before,
            omega arith,
            rw (unseen, dif_pos (dec_lt 0 left) le_prop early, shift) end,
          )
    ]
  ]
    where
      earlier :
          {k : ℕ}
          → sees i ≡ none
          → ((j : ℕ) → j < k → sees (i + 1 + j) ≡ none)
          → (j : ℕ) → j < suc k
          → sees (i + j) ≡ none
      earlier unseen before zero h = rw add-zero unseen
      earlier unseen before (suc j) h =
          let shift : i + suc j ≡ i + 1 + j = omega arith in rw shift (before j (omega arith))

  ends_at-seen : (i : ℕ) → (ends_at i).1 ≡ world.seen i
  unfolding found_or
  ends_at-seen i = elim (Option-cases (sees i)) [ inl e ↦ rw e refl | inr (gr, e) ↦ rw e refl ]

  -- The wait always ends: with the first query that finds a round under the key, whose round it
  -- returns, or else with the database's error, after at most 51 queries.
  pub await_round_ends :
      (s : Session)
      → (k : ℕ) × (k ≤ 50)
        × ((j : ℕ) → j < k → sees j ≡ none)
        × (((await_round req world s).0 ≡ (ends_at k).0)
            × ((await_round req world s).1.work ≡ world.seen k))
  unfolding await_round
  await_round_ends s =
      let left = 500 - world.lag 0 in
      let (k, before, time, end) = poll_round_ends 0 left (lt_wf.apply left) in
      let end' = rw zero-add at end in
      (
        k,
        omega arith,
        λ j h. rw zero-add at (before j h),
        (ap (λ p. p.0) end', ap (λ p. p.1) end' ∙ ends_at-seen k),
      )
