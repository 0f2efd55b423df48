-- ===== src/Games/Engine/Replay.antt =====
-- Repeated calls of the engine (src/casino_bot/games/service.py).
use casino_bot.Prelude.{
  ap, ◌∙◌, pos, ◌≡◌, ◌≤ℤ◌, refl, Bool, true, false, Option-cases, Bool-cases, inl, inr, first, some,
  if◌then◌else◌,
}
use casino_bot.Python.{Result-cases, ok-injective, pure, bind-ends, ok}
use casino_bot.Settings.{Settings}
use casino_bot.Database.{GameRound, Session, has_key, begin_work}
use casino_bot.Rounds.{execute_game_round}
use casino_bot.Rounds.Found.{execute-Finds}
use casino_bot.Games.Policy.{game_has_stake_policy}
use casino_bot.Games.Registry.{Games, is_enabled, compute_outcome}
use casino_bot.Games.Engine.{
  Play, EngineWorld, check_bounds, check_policy, find_game, game_input, round_request, play_new,
  replay_or_new, run_game_detailed_inner,
}

-- A round that a new call returns is found under its key.
play_new_finds :
    (settings : Settings) (games : Games) (play : Play) (world : EngineWorld) (s : Session)
    {gr : GameRound} {b : Bool}
    → pos 1 ≤ℤ settings.token_unit_scale
    → (play_new settings games play world s).0 ≡ ok (gr, b)
    → first
        (has_key play.user_id play.game_id play.idempotency_key)
        (play_new settings games play world s).1.work.rounds
      ≡ some gr
unfolding play_new
play_new_finds settings games play world s {gr} {b} scale =
    elim (Result-cases (
      if game_has_stake_policy play.game_id
      then check_policy settings play world.now s.work
      else ok tt)) [
        | inr (f, e) ↦ rw e (λ done. absurd cc)
        | inl (x, e) ↦ elim (Result-cases (find_game play.game_id games)) [
          | inr (f, e1) ↦ rw (e, e1) (λ done. absurd cc)
          | inl (g, e1) ↦
              elim (Result-cases (compute_outcome g settings (game_input play) world.draw)) [
                | inr (f, e2) ↦ rw (e, e1, e2) (λ done. absurd cc)
                | inl (r, e2) ↦
                    rw (e, e1, e2)
                      λ done.
                        let (y, returned, kept, left) =
                          bind-ends (execute_game_round settings (round_request play r) world.round)
                            (λ z. pure (z, false)) (begin_work s s.work) done in
                        rw left (
                          execute-Finds settings (round_request play r) world.round
                            (begin_work s s.work) scale
                            (returned ∙ ap ok (ap (λ p. p.0) (ok-injective kept))))
              ]
        ]
      ]

-- Whatever round a call returns is found under its key, and the game is enabled.
pub run_game_finds :
    (settings : Settings) (games : Games) (play : Play) (world : EngineWorld) (s : Session)
    {gr : GameRound} {b : Bool}
    → pos 1 ≤ℤ settings.token_unit_scale
    → (run_game_detailed_inner settings games play world s).0 ≡ ok (gr, b)
    → (is_enabled play.game_id settings.games_enabled ≡ true)
      × (first
            (has_key play.user_id play.game_id play.idempotency_key)
            (run_game_detailed_inner settings games play world s).1.work.rounds
          ≡ some gr)
unfolding run_game_detailed_inner replay_or_new
run_game_finds settings games play world s {gr} {b} scale =
    elim (Bool-cases (is_enabled play.game_id settings.games_enabled)) [
      | inr e ↦ rw e (λ done. absurd cc)
      | inl e ↦ elim (Result-cases (check_bounds settings play)) [
        | inr (f, e1) ↦ rw (e, e1) (λ done. absurd cc)
        | inl (x, e1) ↦
            elim (Option-cases
              (first (has_key play.user_id play.game_id play.idempotency_key) s.work.rounds)) [
                | inl e2 ↦
                    rw (e, e1, e2)
                      (λ done. (
                        refl,
                        play_new_finds settings games play world (begin_work s s.work) scale done,
                      ))
                | inr (y, e2) ↦
                    rw (e, e1, e2)
                      (λ done. (refl, e2 ∙ ap some (ap (λ p. p.0) (ok-injective done))))
              ]
      ]
    ]

pub run_game_replays :
    (settings : Settings) (games : Games) (play : Play) (world : EngineWorld) (s : Session)
    {gr : GameRound}
    → is_enabled play.game_id settings.games_enabled ≡ true
    → check_bounds settings play ≡ ok tt
    → first (has_key play.user_id play.game_id play.idempotency_key) s.work.rounds ≡ some gr
    → run_game_detailed_inner settings games play world s ≡ (ok (gr, true), begin_work s s.work)
unfolding run_game_detailed_inner replay_or_new
run_game_replays settings games play world s enabled bounded there =
    rw (enabled, bounded, there) refl

-- For a scale of at least one, two calls with one user, game and key, of which the second has a
-- stake within the bounds: when the first has returned a round, the second returns it again in the
-- state that the first has left, marked as a replay, and changes no table, whatever its stake, its
-- actor and its clock are; it needs neither a balance nor an elapsed cooldown.
pub run_game_idem :
    (settings : Settings) (games : Games) (play again : Play) (world later : EngineWorld)
    (s : Session) {gr : GameRound} {b : Bool}
    → pos 1 ≤ℤ settings.token_unit_scale
    → again.user_id ≡ play.user_id
    → again.game_id ≡ play.game_id
    → again.idempotency_key ≡ play.idempotency_key
    → check_bounds settings again ≡ ok tt
    → (run_game_detailed_inner settings games play world s).0 ≡ ok (gr, b)
    → (let s' = (run_game_detailed_inner settings games play world s).1 in
        run_game_detailed_inner settings games again later s'
        ≡ (ok (gr, true), begin_work s' s'.work))
run_game_idem settings games play again world later s {gr} {b} scale eu eg ek bounded done =
    let (enabled, found) = run_game_finds settings games play world s scale done in
    run_game_replays settings games again later
      (run_game_detailed_inner settings games play world s).1 (rw eg enabled) bounded
      (rw (eu, eg, ek) found)
