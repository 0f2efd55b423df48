-- ===== src/Games/Engine/Users.antt =====
-- What a call of the engine (src/casino_bot/games/service.py) that returns a round has passed, and the
-- users that it leaves.
use casino_bot.Prelude.{
  ℕ, pos, ◌≡◌, ◌≤ℤ◌, Bool, false, List, Option-cases, Bool-cases, inl, inr, first, if◌then◌else◌,
}
use casino_bot.Python.{Result-cases, pure, bind-ends, ok}
use casino_bot.Settings.{Settings}
use casino_bot.Database.{GameRound, User, Session, has_key, begin_work}
use casino_bot.Rounds.{execute_game_round}
use casino_bot.Rounds.Users.{execute_users}
use casino_bot.Games.Policy.{game_has_stake_policy}
use casino_bot.Games.Registry.{Games, is_enabled, compute_outcome}
use casino_bot.Games.Engine.{
  Play, EngineWorld, check_bounds, check_policy, find_game, game_input, round_request, play_new,
  replay_or_new, run_game_detailed_inner,
}

pub run_game_bounded :
    (settings : Settings) (games : Games) (play : Play) (world : EngineWorld) (s : Session)
    {out : GameRound × Bool}
    → (run_game_detailed_inner settings games play world s).0 ≡ ok out
    → check_bounds settings play ≡ ok tt
unfolding run_game_detailed_inner
run_game_bounded settings games play world s =
    elim (Bool-cases (is_enabled play.game_id settings.games_enabled)) [
      | inr e ↦ rw e (λ done. absurd cc)
      | inl e ↦ elim (Result-cases (check_bounds settings play)) [
        | inr (f, e1) ↦ rw (e, e1) (λ done. absurd cc)
        | inl (x, e1) ↦ λ done. e1
      ]
    ]

module _ (Q : List User → Type 0) (settings : Settings) (games : Games) (play : Play)
    (world : EngineWorld) (scale : pos 1 ≤ℤ settings.token_unit_scale)
    (others : (i : ℕ) → Q (world.round.seen i).users) where
  play_new_users :
      (s : Session) {out : GameRound × Bool}
      → Q s.work.users
      → (play_new settings games play world s).0 ≡ ok out
      → Q (play_new settings games play world s).1.work.users
  unfolding play_new
  play_new_users s h =
      let s0 = begin_work s s.work in
      elim (Result-cases (
        if game_has_stake_policy play.game_id
        then check_policy settings play world.now s.work
        else ok tt)) [
          | inr (f, e) ↦ rw e (λ done. absurd cc)
          | inl (x, e) ↦ elim (Result-cases (find_game play.game_id games)) [
            | inr (f, e1) ↦ rw (e, e1) (λ done. absurd cc)
            | inl (g, e1) ↦
                elim (Result-cases (compute_outcome g settings (game_input play) world.draw)) [
                  | inr (f, e2) ↦ rw (e, e1, e2) (λ done. absurd cc)
                  | inl (r, e2) ↦
                      rw (e, e1, e2)
                        λ done.
                          let run =
                            execute_game_round settings (round_request play r) world.round in
                          let (y, returned, kept, left) =
                            bind-ends run (λ z. pure (z, false)) s0 done in
                          rw left (
                            execute_users Q settings (round_request play r) world.round scale others
                              s0 h returned)
                ]
          ]
        ]

  -- What held of the caller's users, and holds of those that a wait sees, holds afterwards.
  pub run_game_users :
      (s : Session) {out : GameRound × Bool}
      → Q s.work.users
      → (run_game_detailed_inner settings games play world s).0 ≡ ok out
      → Q (run_game_detailed_inner settings games play world s).1.work.users
  unfolding run_game_detailed_inner replay_or_new
  run_game_users s h = elim (Bool-cases (is_enabled play.game_id settings.games_enabled)) [
    | inr e ↦ rw e (λ done. absurd cc)
    | inl e ↦ elim (Result-cases (check_bounds settings play)) [
      | inr (f, e1) ↦ rw (e, e1) (λ done. absurd cc)
      | inl (x, e1) ↦
          elim (Option-cases
            (first (has_key play.user_id play.game_id play.idempotency_key) s.work.rounds)) [
              | inl e2 ↦ rw (e, e1, e2) (play_new_users (begin_work s s.work) h)
              | inr (y, e2) ↦ rw (e, e1, e2) (λ done. h)
            ]
    ]
  ]
