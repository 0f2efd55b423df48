-- ===== src/Tests/Rounds.antt =====
-- Rounds at concrete inputs.
use casino_bot.Prelude.{
  ℕ, pos, negsuc, ◌+ℤ◌, ◌*ℤ◌, ◌≤◌, ◌<◌, ◌≡◌, refl, false, none, some, first, update_first, arith,
}
use casino_bot.Python.{ok, err, int, ratio, operational_error}
use casino_bot.Tokens.{tokens_whole_to_units, units_to_storage_float, validate_units}
use casino_bot.Compliance.{validate_operation}
use casino_bot.Database.{
  GameRound, committed, rejected, has_key, begin_work, violates_round_constraints, insert_round,
  in_block,
}
use casino_bot.Economy.{check_delta, adjust_user_tokens, get_or_create_account, post_delta}
use casino_bot.Economy.Balances.{balance_in}
use casino_bot.Rounds.{
  RoundRequest, World, Amounts, amounts, execute_game_round, await_round, pending_round,
  round_or_new, play_round, round_body, recover, settle, commit_round, put_round,
}
use casino_bot.Rounds.Steps.{IsFresh}
use casino_bot.Rounds.Outcomes.{Moved, Unmoved, execute_commits, execute_rejects}
use casino_bot.Rounds.Replay.{execute_idem}
use casino_bot.Rounds.Atomicity.{execute_rolls_back}
use casino_bot.Rounds.Solvency.{IsSound, execute-IsSound}
use casino_bot.Rounds.Polling.{await_round_ends, ends_at, sees}
use casino_bot.Tests.Data.{settings, session, request, world, tables-IsConserved, session-IsSound}

abbrev lost : Amounts
lost = record {
  bet_amount = pos 5;
  bet_units = pos 5000;
  attempted_delta_units = negsuc 4999;
  attempted_delta_float = ratio (negsuc 4999) (pos 1000);
  bet_float = ratio (pos 5000) (pos 1000);
}

amounts-lost : amounts settings request ≡ ok lost
unfolding amounts tokens_whole_to_units units_to_storage_float validate_units ◌*ℤ◌
amounts-lost = refl

lost-IsFresh : IsFresh settings request world lost session.work
unfolding first
lost-IsFresh = record { new_key = refl; new_id = refl; alone = refl; healthy = refl }

execute_commits_example :
    let out = execute_game_round settings request world session in
    (gr : GameRound) × (out.0 ≡ ok gr)
    × (gr.status ≡ committed)
    × (gr.payout_units ≡ negsuc 4999)
    × (gr.bet_units ≡ pos 5000)
    × (first (has_key 1 "coin_flip" "tg:7:cmd:1") out.1.work.rounds ≡ some gr)
    × Moved 1 (negsuc 4999) session.work out.1.work
unfolding first check_delta validate_operation balance_in ◌+ℤ◌
execute_commits_example =
    execute_commits settings request world lost session (omega arith) amounts-lost lost-IsFresh refl
      refl

-- A delta that the balance does not cover.
abbrev greedy : RoundRequest
greedy = record request { payout_delta_units = some (int (negsuc 59999)) }

abbrev refused : Amounts
refused = record lost {
  attempted_delta_units = negsuc 59999;
  attempted_delta_float = ratio (negsuc 59999) (pos 1000);
}

amounts-refused : amounts settings greedy ≡ ok refused
unfolding amounts tokens_whole_to_units units_to_storage_float validate_units ◌*ℤ◌
amounts-refused = refl

refused-IsFresh : IsFresh settings greedy world refused session.work
unfolding first
refused-IsFresh = record { new_key = refl; new_id = refl; alone = refl; healthy = refl }

execute_rejects_example :
    let out = execute_game_round settings greedy world session in
    (gr : GameRound) × (out.0 ≡ ok gr)
    × (gr.status ≡ rejected)
    × (gr.payout_units ≡ pos 0)
    × (first (has_key 1 "coin_flip" "tg:7:cmd:1") out.1.work.rounds ≡ some gr)
    × Unmoved session.work out.1.work
unfolding first check_delta validate_operation balance_in ◌+ℤ◌
execute_rejects_example =
    execute_rejects settings greedy world refused session (omega arith) amounts-refused
      refused-IsFresh refl refl

-- The round that the call returns.
abbrev lost_round : GameRound
lost_round = record {
  round_id = "r1";
  user_id = 1;
  game_id = "coin_flip";
  idempotency_key = "tg:7:cmd:1";
  bet_amount = ratio (pos 5000) (pos 1000);
  bet_units = pos 5000;
  payout_delta = ratio (negsuc 4999) (pos 1000);
  payout_units = negsuc 4999;
  status = committed;
  details_json = none;
  committed_at = some 9000000;
}

first_call_runs : (execute_game_round settings request world session).0 ≡ ok lost_round
unfolding execute_game_round amounts tokens_whole_to_units units_to_storage_float validate_units
    ◌*ℤ◌ ◌+ℤ◌ first update_first round_or_new play_round round_body recover insert_round in_block
    settle commit_round adjust_user_tokens get_or_create_account check_delta validate_operation
    post_delta pending_round put_round
first_call_runs = refl

execute_idem_example :
    let s = (execute_game_round settings request world session).1 in
    execute_game_round settings greedy world s ≡ (ok lost_round, begin_work s s.work)
execute_idem_example =
    execute_idem settings request greedy world world session (omega arith) refl refl refl
      first_call_runs

abbrev faulty : World
faulty = record world { fault = some "connection lost" }

lost_is_accepted :
    violates_round_constraints (pending_round request faulty lost) session.work ≡ false
unfolding violates_round_constraints pending_round first
lost_is_accepted = refl

no_round_yet : first (has_key 1 "coin_flip" "tg:7:cmd:1") session.work.rounds ≡ none
unfolding first
no_round_yet = refl

execute_rolls_back_example :
    let out = execute_game_round settings request faulty session in
    (out.0 ≡ err (operational_error "connection lost"))
    × Unmoved session.committed out.1.work
    × (out.1.committed ≡ out.1.work)
    × (out.1.in_transaction ≡ false)
execute_rolls_back_example =
    execute_rolls_back settings request faulty lost session "connection lost" (omega arith)
      amounts-lost no_round_yet lost_is_accepted refl refl

execute-IsSound_example : IsSound (execute_game_round settings request faulty session).1
execute-IsSound_example =
    execute-IsSound settings request faulty (omega arith) (λ i. tables-IsConserved) session
      session-IsSound

await_round_ends_example :
    (k : ℕ) × (k ≤ 50)
    × ((j : ℕ) → j < k → sees request world j ≡ none)
    × (((await_round request world session).0 ≡ (ends_at request world k).0)
        × ((await_round request world session).1.work ≡ world.seen k))
await_round_ends_example = await_round_ends request world session
