-- ===== src/TelegramBot/Sound.antt =====
-- The token ledger behind the database work of the bot (src/casino_bot/telegram_bot/handlers.py).
use Prim.Native.String.{String}
use casino_bot.Prelude.{
  ℕ, ℤ, pos, ◌≤ℤ◌, ◌≡◌, false, Option, none, some, first, refl, sym, subst, if◌then◌else◌,
  Bool-cases, inl, inr,
}
use casino_bot.Python.{Result, ok, err, Result-cases, bind-keeps, pure, ◌>>=◌, ◌>>◌}
use casino_bot.Settings.{Settings}
use casino_bot.Database.{
  GameRound, Session, User, begin_work, commit, has_account, has_key, is_found, audit_log,
}
use casino_bot.Economy.{create_user, shares_identity}
use casino_bot.Economy.Conservation.{IsConserved, create_user-IsConserved}
use casino_bot.Rounds.{execute_game_round}
use casino_bot.Rounds.Solvency.{IsSound, execute-IsSound}
use casino_bot.Games.Policy.{game_has_stake_policy}
use casino_bot.Games.Registry.{Games, is_enabled, compute_outcome}
use casino_bot.Games.Engine.{
  Play, EngineWorld, units_or_zero, check_bounds, replay_or_new, play_new, run_game_detailed_inner,
  round_request, find_game, game_input, check_policy,
}
use casino_bot.TelegramBot.Users.{
  resolve_balance_reply, has_telegram_id, ensure_telegram_user, user_or_new,
  get_user_by_telegram_id,
}
use casino_bot.TelegramBot.Handlers.Work.{
  telegram_game_work, play_and_commit, telegram_play, snapshot_of, amounts_and_line,
  game_keyboard_prompt_work,
}
use casino_bot.TelegramBot.Handlers.Commands.{start_work}
use casino_bot.TelegramBot.Stakes.{quick_stake_amounts}
use casino_bot.TelegramBot.Chat.{or_rollback}

new_user_commits_nothing :
    (tid : ℤ) (s : Session)
    → (create_user "telegram_bot" none (some tid) none none s).1.committed ≡ s.committed
unfolding create_user audit_log
new_user_commits_nothing tid s =
    elim (Bool-cases (is_found (first (shares_identity (some tid) none) s.work.users))) [
      | inl taken ↦ rw taken refl
      | inr free ↦ rw free refl
    ]

user_or_new-IsSound :
    (tid : ℤ) (o : Option User) (s : Session) → IsSound s → IsSound (user_or_new tid o s).1
unfolding user_or_new
user_or_new-IsSound tid (some u) s h = h
user_or_new-IsSound tid none s h = record {
  working = create_user-IsConserved "telegram_bot" none (some tid) none none s h.working;
  stored = subst IsConserved (sym (new_user_commits_nothing tid s)) h.stored;
}

pub ensure-IsSound : (tid : ℤ) (s : Session) → IsSound s → IsSound (ensure_telegram_user tid s).1
unfolding ensure_telegram_user get_user_by_telegram_id
ensure-IsSound tid s h =
    user_or_new-IsSound tid (first (has_telegram_id tid) s.work.users) (begin_work s s.work)
      (record { working = h.working; stored = h.stored })

or_rollback-IsSound :
    {A : Type 0} (r : Result A) (s : Session) → IsSound s → IsSound (or_rollback (r, s)).1
or_rollback-IsSound (ok a) s h = h
or_rollback-IsSound (err e) s h = record { working = h.stored; stored = h.stored }

pub balance_reply-IsSound :
    (settings : Settings) (user_id : ℕ) (s : Session)
    → IsSound s
    → IsSound (resolve_balance_reply settings user_id s).1
unfolding resolve_balance_reply
balance_reply-IsSound settings user_id s h = record { working = h.working; stored = h.stored }

module _ (settings : Settings) (games : Games) (world : EngineWorld)
    (scale : pos 1 ≤ℤ settings.token_unit_scale)
    (others : (i : ℕ) → IsConserved (world.round.seen i)) where
  play_new-IsSound :
      (play : Play) (s : Session) → IsSound s → IsSound (play_new settings games play world s).1
  unfolding play_new
  play_new-IsSound play s h =
      let s0 = begin_work s s.work in
      let h0 : IsSound s0 = record { working = h.working; stored = h.stored } in
      elim (Result-cases (
        if game_has_stake_policy play.game_id
        then check_policy settings play world.now s.work
        else ok tt)) [
          | inr (f, e) ↦ rw e h0
          | inl (x, e) ↦ elim (Result-cases (find_game play.game_id games)) [
            | inr (f, e1) ↦ rw (e, e1) h0
            | inl (g, e1) ↦
                elim (Result-cases (compute_outcome g settings (game_input play) world.draw)) [
                  | inr (f, e2) ↦ rw (e, e1, e2) h0
                  | inl (r, e2) ↦
                      rw (e, e1, e2)
                        (bind-keeps IsSound
                          (execute_game_round settings (round_request play r) world.round)
                          (λ gr. pure (gr, false)) s0
                          (execute-IsSound settings (round_request play r) world.round scale others
                            s0 h0)
                          (λ gr s1 h1. h1))
                ]
          ]
        ]

  replay_or_new-IsSound :
      (play : Play) (o : Option GameRound) (s : Session)
      → IsSound s
      → IsSound (replay_or_new settings games play world o s).1
  unfolding replay_or_new
  replay_or_new-IsSound play (some gr) s h = h
  replay_or_new-IsSound play none s h = play_new-IsSound play s h

  pub run_game-IsSound :
      (play : Play) (s : Session)
      → IsSound s
      → IsSound (run_game_detailed_inner settings games play world s).1
  unfolding run_game_detailed_inner
  run_game-IsSound play s h =
      let s0 = begin_work s s.work in
      let h0 : IsSound s0 = record { working = h.working; stored = h.stored } in
      elim (Bool-cases (is_enabled play.game_id settings.games_enabled)) [
        | inr e ↦ rw e h
        | inl e ↦ elim (Result-cases (check_bounds settings play)) [
          | inr (f, e1) ↦ rw (e, e1) h
          | inl (x, e1) ↦
              rw (e, e1)
                (replay_or_new-IsSound play
                  (first (has_key play.user_id play.game_id play.idempotency_key) s.work.rounds) s0
                  h0)
        ]
      ]

  play_and_commit-IsSound :
      (play : Play) (s : Session)
      → IsSound s
      → IsSound (play_and_commit settings games world play s).1
  unfolding play_and_commit
  play_and_commit-IsSound play s h =
      bind-keeps IsSound (run_game_detailed_inner settings games play world)
        (λ played. resolve_balance_reply settings play.user_id >>= λ line.
          commit >> pure (snapshot_of play played.0 played.1 line))
        s (run_game-IsSound play s h)
        λ played s1 h1.
          bind-keeps IsSound (resolve_balance_reply settings play.user_id)
            (λ line. commit >> pure (snapshot_of play played.0 played.1 line)) s1
            (balance_reply-IsSound settings play.user_id s1 h1)
            λ line s2 h2. record { working = h2.working; stored = h2.working }

  pub game_work-IsSound :
      (tid bet_amount : ℤ) (key game_id : String) (s : Session)
      → IsSound s
      → IsSound (telegram_game_work settings games world tid bet_amount key game_id s).1
  unfolding telegram_game_work
  game_work-IsSound tid bet_amount key game_id s h = or_rollback-IsSound _ _ (
      bind-keeps IsSound (ensure_telegram_user tid)
        (λ user.
          play_and_commit settings games world (telegram_play user.id bet_amount key game_id))
        s (ensure-IsSound tid s h)
        λ user s1 h1. play_and_commit-IsSound (telegram_play user.id bet_amount key game_id) s1 h1)

amounts_and_line-IsSound :
    (settings : Settings) (game_id : String) (user_id : ℕ) (s : Session)
    → IsSound s
    → IsSound (amounts_and_line settings game_id user_id s).1
unfolding amounts_and_line
amounts_and_line-IsSound settings game_id user_id s h =
    let s1 = (commit (begin_work s s.work)).1 in
    let amounts =
      quick_stake_amounts settings game_id
        (units_or_zero (first (has_account user_id) s.work.accounts)) in
    bind-keeps IsSound (resolve_balance_reply settings user_id) (λ line. pure (amounts, line)) s1
      (balance_reply-IsSound settings user_id s1
        (record { working = h.working; stored = h.working }))
      (λ line s2 h2. h2)

pub prompt_work-IsSound :
    (settings : Settings) (tid : ℤ) (game_id : String) (s : Session)
    → IsSound s
    → IsSound (game_keyboard_prompt_work settings tid game_id s).1
unfolding game_keyboard_prompt_work
prompt_work-IsSound settings tid game_id s h = or_rollback-IsSound _ _ (
    bind-keeps IsSound (ensure_telegram_user tid)
      (λ user. amounts_and_line settings game_id user.id) s (ensure-IsSound tid s h)
      λ user s1 h1. amounts_and_line-IsSound settings game_id user.id s1 h1)

pub start_work-IsSound : (tid : ℤ) (s : Session) → IsSound s → IsSound (start_work tid s).1
unfolding start_work
start_work-IsSound tid s h = or_rollback-IsSound _ _ (
    bind-keeps IsSound (ensure_telegram_user tid) (λ user. commit >> pure user.id) s
      (ensure-IsSound tid s h) λ user s1 h1. record { working = h1.working; stored = h1.working })
