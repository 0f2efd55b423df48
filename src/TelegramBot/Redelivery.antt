-- ===== src/TelegramBot/Redelivery.antt =====
-- Two deliveries of one bet (src/casino_bot/telegram_bot/handlers.py).
use Prim.Native.String.{String}
use casino_bot.Prelude.{ℕ, ℤ, pos, ◌≤ℤ◌, ◌≡◌, refl, sym, ◌∙◌, ap, subst, Bool, true, some, first}
use casino_bot.Python.{Result, ok, err, ok-injective, bind-ends, bind-runs, pure, ◌>>=◌, ◌>>◌}
use casino_bot.Settings.{Settings}
use casino_bot.Database.{GameRound, User, Session, Db, begin_work, commit, has_account, has_key}
use casino_bot.Games.Registry.{Games, is_enabled}
use casino_bot.Games.Engine.{Play, EngineWorld, check_bounds, run_game_detailed_inner}
use casino_bot.Games.Engine.Replay.{run_game_finds, run_game_replays}
use casino_bot.Games.Engine.Users.{run_game_bounded, run_game_users}
use casino_bot.TelegramBot.Users.{
  has_telegram_id, ensure_telegram_user, ensure_finds, ensure_known, resolve_balance_reply,
  balance_text,
}
use casino_bot.TelegramBot.Chat.{open_session, or_rollback}
use casino_bot.TelegramBot.Handlers.Work.{
  Snapshot, telegram_play, snapshot_of, play_and_commit, telegram_game_work,
}

-- Work that returns has not been rolled back.
pub or_rollback-ok :
    {A : Type 0} (r : Result A) (s : Session) {a : A}
    → (or_rollback (r, s)).0 ≡ ok a
    → (r ≡ ok a) × ((or_rollback (r, s)).1 ≡ s)
or_rollback-ok (ok x) s done = (done, refl)
or_rollback-ok (err e) s done = absurd cc

-- What a first delivery that returns has left: the user, the round under its key, and the line.
record Left (settings : Settings) (tid : ℤ) (u : User) (play : Play) (snap : Snapshot) (s : Session)
    : Type 0 where
  pub gr : GameRound
  pub replayed : Bool
  pub line : String
  pub known : first (has_telegram_id tid) s.committed.users ≡ some u
  pub found :
      first (has_key play.user_id play.game_id play.idempotency_key) s.committed.rounds ≡ some gr
  pub told : balance_text settings (first (has_account play.user_id) s.committed.accounts) ≡ ok line
  pub shown : snapshot_of play gr replayed line ≡ snap

module _ (settings : Settings) (games : Games) (tid bet_amount : ℤ) (key game_id : String)
    (scale : pos 1 ≤ℤ settings.token_unit_scale) where
  abbrev work : EngineWorld → Db Snapshot
  work world = telegram_game_work settings games world tid bet_amount key game_id

  abbrev play_of : User → Play
  play_of u = telegram_play u.id bet_amount key game_id

  -- What a play that commits has left.
  record Played (u : User) (snap : Snapshot) (s : Session) : Type 0 where
    pub left : Left settings tid u (play_of u) snap s
    pub enabled : is_enabled game_id settings.games_enabled ≡ true
    pub bounded : check_bounds settings (play_of u) ≡ ok tt

  play_leaves :
      (world : EngineWorld) (u : User) (s : Session) {snap : Snapshot}
      → first (has_telegram_id tid) s.work.users ≡ some u
      → ((i : ℕ) → first (has_telegram_id tid) (world.round.seen i).users ≡ some u)
      → (play_and_commit settings games world (play_of u) s).0 ≡ ok snap
      → Played u snap (play_and_commit settings games world (play_of u) s).1
  unfolding play_and_commit resolve_balance_reply
  play_leaves world u s {snap} known others done =
      let play = play_of u in
      let run = run_game_detailed_inner settings games play world in
      let (out, e1, d1, l1) =
        bind-ends run
          (λ played. resolve_balance_reply settings play.user_id >>= λ line.
            commit >> pure (snapshot_of play played.0 played.1 line))
          s done in
      let (line, e2, d2, l2) =
        bind-ends (resolve_balance_reply settings play.user_id)
          (λ line. commit >> pure (snapshot_of play out.0 out.1 line)) (run s).1 d1 in
      let (enabled, found) = run_game_finds settings games play world s scale e1 in
      subst (Played u snap) (sym (l1 ∙ l2)) (record {
        left = record {
          gr = out.0;
          replayed = out.1;
          line = line;
          known =
              run_game_users (λ users. first (has_telegram_id tid) users ≡ some u) settings games
                play world scale others s known e1;
          found = found;
          told = e2;
          shown = ok-injective d2;
        };
        enabled = enabled;
        bounded = run_game_bounded settings games play world s e1;
      })

  -- A delivery that returns has left a play of the user that it has found or created.
  work_leaves :
      (world : EngineWorld) (s : Session) {snap : Snapshot}
      → ((u : User)
          → (ensure_telegram_user tid s).0 ≡ ok u
          → (i : ℕ) → first (has_telegram_id tid) (world.round.seen i).users ≡ some u)
      → (work world s).0 ≡ ok snap
      → (u : User) × Played u snap (work world s).1
  unfolding telegram_game_work
  work_leaves world s {snap} others done =
      let rest = λ (user : User). play_and_commit settings games world (play_of user) in
      let out = (ensure_telegram_user tid >>= rest) s in
      let (returned, stays) = or_rollback-ok out.0 out.1 done in
      let (u, e, d, l) = bind-ends (ensure_telegram_user tid) rest s returned in
      (
        u,
        subst (Played u snap) (sym (stays ∙ l)) (
            play_leaves world u (ensure_telegram_user tid s).1 (ensure_finds tid s e) (others u e)
              d),
      )

  -- A play in the state that a delivery has left is a replay, and leaves it as it is.
  play_again :
      (later : EngineWorld) (u : User) (snap : Snapshot) (s : Session)
      → Played u snap s
      → play_and_commit settings games later
          (play_of u)
          (begin_work (open_session s.committed) s.committed)
        ≡ (ok (record snap { idempotent_replay = true }), open_session s.committed)
  unfolding play_and_commit resolve_balance_reply
  play_again later u snap s p =
      let play = play_of u in
      let there = begin_work (open_session s.committed) s.committed in
      let replays =
        run_game_replays settings games play later there p.enabled p.bounded p.left.found in
      bind-runs (run_game_detailed_inner settings games play later)
        (λ played. resolve_balance_reply settings play.user_id >>= λ line.
          commit >> pure (snapshot_of play played.0 played.1 line))
        there replays
      ∙ bind-runs (resolve_balance_reply settings play.user_id)
          (λ line. commit >> pure (snapshot_of play p.left.gr true line)) there
          (ap (λ r. (r, there)) p.left.told)
      ∙ ap (λ z. (ok (record z { idempotent_replay = true }), open_session s.committed))
          p.left.shown

  work_again :
      (later : EngineWorld) (u : User) (snap : Snapshot) (s : Session)
      → Played u snap s
      → work later (open_session s.committed)
        ≡ (ok (record snap { idempotent_replay = true }), open_session s.committed)
  unfolding telegram_game_work
  work_again later u snap s p =
      let there = begin_work (open_session s.committed) s.committed in
      ap or_rollback (
        bind-runs (ensure_telegram_user tid)
          (λ user. play_and_commit settings games later (play_of user)) (open_session s.committed)
          (ensure_known tid (open_session s.committed) p.left.known)
        ∙ play_again later u snap s p)

  -- For a scale of at least one, two deliveries of one bet (with the same user, stake and key): if
  -- the first returns a snapshot, and every state that a wait in it sees knows the same user, then
  -- the second returns the same snapshot, marked as a replay, and commits nothing new, whatever its
  -- clock, its draw and its other readings of the world are.
  pub redelivered_bet_idem :
      (world later : EngineWorld) (s : Session) {snap : Snapshot}
      → ((u : User)
          → (ensure_telegram_user tid s).0 ≡ ok u
          → (i : ℕ) → first (has_telegram_id tid) (world.round.seen i).users ≡ some u)
      → (telegram_game_work settings games world tid bet_amount key game_id s).0 ≡ ok snap
      → (let t =
            (telegram_game_work settings games world tid bet_amount key game_id s).1.committed in
          telegram_game_work settings games later tid bet_amount key game_id (open_session t)
          ≡ (ok (record snap { idempotent_replay = true }), open_session t))
  redelivered_bet_idem world later s {snap} others done =
      let (u, p) = work_leaves world s others done in work_again later u snap (work world s).1 p
