-- ===== src/TelegramBot/Answered.antt =====
-- How every `/flip` ends (src/casino_bot/telegram_bot/handlers.py).
use Prim.Native.String.{String}
use casino_bot.Prelude.{
  ℤ, ◌≡◌, refl, sym, ap, subst, Bool, true, false, Option, none, some, List, [], ◌∷◌, ◌++◌, inl,
  inr, ◌⊎◌, Option-cases, if◌then◌else◌,
}
use casino_bot.Python.{Error, Result, ok, err, ok-injective, bind-ends, pure, ◌>>=◌, ◌>>◌}
use casino_bot.Python.Text.{parse_int}
use casino_bot.Settings.{Settings}
use casino_bot.Database.{Session, User, GameRound, commit}
use casino_bot.Games.Registry.{Games}
use casino_bot.Games.Engine.{run_game_detailed_inner, EngineWorld}
use casino_bot.TelegramBot.GameTexts.{flip_keyboard_caption, flip_no_quick_stakes_message}
use casino_bot.TelegramBot.RateLimit.{allow_flip_action, allow_flip_prompt}
use casino_bot.TelegramBot.Users.{
  get_user_by_telegram_id, ensure_telegram_user, resolve_balance_reply, command_idempotency_key,
}
use casino_bot.TelegramBot.Chat.{Chat, Turn, Button, reply_text, reply, in_session, open_session}
use casino_bot.TelegramBot.Delivery.{deliver_flip_committed_command}
use casino_bot.TelegramBot.Sends.{finish_bet-cases, IsRejected}
use casino_bot.TelegramBot.Redelivery.{or_rollback-ok}
use casino_bot.TelegramBot.Handlers.Work.{
  lookup_user_id_for_log, Snapshot, finish_bet, bet_or_limited, show_prompt, prompt_or_limited,
  telegram_game_work, play_and_commit, telegram_play, snapshot_of, game_keyboard_prompt_work,
  action_allowed, prompt_allowed,
}
use casino_bot.TelegramBot.Handlers.Replies.{telegram_game_reply_from_snapshot}
use casino_bot.TelegramBot.Handlers.Flip.{
  cmd_flip, flip_args, flip_prompt, flip_bet, deliver_flip_command, shows_flip,
}

-- Returns, and has sent one message, to what was sent before.
abbrev pub IsAnswered : Chat → Result (Unit {0}) × Chat → Type 0
IsAnswered c (r, c') =
    (body : String) × (buttons : List Button) × (r ≡ ok tt)
    × (c'.sent ≡ c.sent ++ reply_text body buttons ∷ [])

show_prompt-IsAnswered :
    (prefix caption no_stakes : String) (r : Result (List ℤ × String)) (c : Chat)
    → IsAnswered c (show_prompt prefix caption no_stakes r c)
unfolding show_prompt
show_prompt-IsAnswered prefix caption no_stakes (err e) c = (_, _, refl, refl)
show_prompt-IsAnswered prefix caption no_stakes (ok ([], line)) c = (_, _, refl, refl)
show_prompt-IsAnswered prefix caption no_stakes (ok (a ∷ amounts, line)) c = (_, _, refl, refl)

prompt-IsAnswered :
    (settings : Settings) (tid : ℤ) (game_id prefix caption no_stakes : String) (allowed : Bool)
    (c : Chat)
    → IsAnswered c (prompt_or_limited settings tid game_id prefix caption no_stakes allowed c)
unfolding prompt_or_limited
prompt-IsAnswered settings tid game_id prefix caption no_stakes false c = (_, _, refl, refl)
prompt-IsAnswered settings tid game_id prefix caption no_stakes true c =
    let work = in_session (game_keyboard_prompt_work settings tid game_id) c in
    show_prompt-IsAnswered prefix caption no_stakes work.0 work.1

-- The reading of a user for the log has raised, and nothing has been sent.
abbrev pub IsLost : Turn → Chat → Result (Unit {0}) × Chat → Type 0
IsLost turn c (r, c') =
    (e : Error) × (turn.log_lookup_raises ≡ some e) × (r ≡ err e) × (c'.sent ≡ c.sent)

logged_answer :
    (turn : Turn) (tid : ℤ) (body : String) (c : Chat)
    → IsAnswered c ((lookup_user_id_for_log turn tid >> reply body) c)
      ⊎ IsLost turn c ((lookup_user_id_for_log turn tid >> reply body) c)
unfolding lookup_user_id_for_log get_user_by_telegram_id
logged_answer turn tid body c = elim (Option-cases turn.log_lookup_raises) [
  | inl e ↦ inl (rw e (_, _, refl, refl))
  | inr (x, e) ↦ inr (x, e, rw e refl, rw e refl)
]

-- A snapshot is one of the game that was asked for.
snapshot_game :
    (settings : Settings) (games : Games) (world : EngineWorld) (tid bet_amount : ℤ)
    (key game_id : String) (s : Session) {snap : Snapshot}
    → (telegram_game_work settings games world tid bet_amount key game_id s).0 ≡ ok snap
    → snap.game_id ≡ game_id
unfolding telegram_game_work play_and_commit
snapshot_game settings games world tid bet_amount key game_id s {snap} done =
    let play = λ (u : User). telegram_play u.id bet_amount key game_id in
    let end = λ (u : User) (played : GameRound × Bool) (line : String).
      commit >> pure (snapshot_of (play u) played.0 played.1 line) in
    let rest = λ (u : User). play_and_commit settings games world (play u) in
    let out = (ensure_telegram_user tid >>= rest) s in
    let (u, e, d, l) =
      bind-ends (ensure_telegram_user tid) rest s (or_rollback-ok out.0 out.1 done).0 in
    let s1 = (ensure_telegram_user tid s).1 in
    let run = run_game_detailed_inner settings games (play u) world in
    let (played, e1, d1, l1) =
      bind-ends run (λ p. resolve_balance_reply settings u.id >>= end u p) s1 d in
    let (line, e2, d2, l2) =
      bind-ends (resolve_balance_reply settings u.id) (end u played) (run s1).1 d1 in
    sym (ap (λ z. z.game_id) (ok-injective d2))

replies-IsAnswered :
    (c : Chat) (b : Bool) (body other : String)
    → IsAnswered c ((if b then reply body else reply other) c)
replies-IsAnswered c true body other = (_, _, refl, refl)
replies-IsAnswered c false body other = (_, _, refl, refl)

deliver-IsAnswered :
    (settings : Settings) (snap : Snapshot) (c : Chat)
    → snap.game_id ≡ "coin_flip"
    → IsAnswered c (deliver_flip_command settings snap c)
unfolding deliver_flip_command deliver_flip_committed_command telegram_game_reply_from_snapshot
deliver-IsAnswered settings snap c coin = rw coin (replies-IsAnswered c (shows_flip snap) _ _)

module _ (settings : Settings) (games : Games) (turn : Turn) where
  -- A bet that the engine has rejected, where the reading of the user for the log raised.
  abbrev pub IsDropped : ℤ → ℤ → String → Chat → Result (Unit {0}) × Chat → Type 0
  IsDropped tid bet_amount key c out =
      IsRejected
        (telegram_game_work settings games turn.engine tid bet_amount key "coin_flip"
          (open_session c.tables)).0
      × IsLost turn c out

  bet_ends :
      (tid bet_amount : ℤ) (key : String) (allowed : Bool) (c : Chat)
      → (let out =
            bet_or_limited settings games turn reply
              (deliver_flip_command settings)
              tid
              bet_amount
              key
              "coin_flip"
              allowed
              c in
          IsAnswered c out ⊎ IsDropped tid bet_amount key c out)
  unfolding bet_or_limited finish_bet
  bet_ends tid bet_amount key false c = inl (_, _, refl, refl)
  bet_ends tid bet_amount key true c =
      let db = telegram_game_work settings games turn.engine tid bet_amount key "coin_flip" in
      let work = in_session db c in
      elim (finish_bet-cases settings turn tid reply (deliver_flip_command settings) work.0) [
        | inl (snap, e) ↦ inl (
            rw e (
              deliver-IsAnswered settings snap work.1 (
                snapshot_game settings games turn.engine tid bet_amount key "coin_flip"
                  (open_session c.tables) e)))
        | inr (body, inl e) ↦ inl (subst (λ m. IsAnswered c (m work.1)) (sym e) (_, _, refl, refl))
        | inr (body, inr (rejected, e)) ↦
            subst (λ m. IsAnswered c (m work.1) ⊎ IsDropped tid bet_amount key c (m work.1)) (sym e)
              (elim (logged_answer turn tid body work.1) [
                | inl told ↦ inl told
                | inr lost ↦ inr (rejected, lost)
              ])
      ]

  -- How a `/flip` with these arguments ends.
  abbrev pub Ends : ℤ → ℤ → List String → Chat → Result (Unit {0}) × Chat → Type 0
  Ends update_id tid args c out =
      IsAnswered c out
      ⊎ ((arg : String) × (rest : List String) × (bet_amount : ℤ) × (args ≡ arg ∷ rest)
          × (parse_int arg ≡ some bet_amount)
          × IsDropped tid bet_amount (command_idempotency_key tid update_id) c out)

  stake-Ends :
      (update_id tid : ℤ) (arg : String) (rest : List String) (bet : Option ℤ) (c : Chat)
      → parse_int arg ≡ bet
      → Ends update_id tid (arg ∷ rest) c (flip_bet settings games turn update_id tid bet c)
  unfolding flip_bet action_allowed
  stake-Ends update_id tid arg rest none c e = inl (_, _, refl, refl)
  stake-Ends update_id tid arg rest (some bet_amount) c e =
      let (allowed, buckets) = allow_flip_action settings tid turn.clock c.action_buckets in
      elim (bet_ends tid bet_amount (command_idempotency_key tid update_id) allowed
        (record c { action_buckets = buckets })) [
          | inl told ↦ inl told
          | inr dropped ↦ inr (arg, rest, bet_amount, refl, e, dropped)
        ]

  args-Ends :
      (update_id : ℤ) (args : List String) (tid : ℤ) (c : Chat)
      → Ends update_id tid args c (flip_args settings games turn update_id args tid c)
  unfolding flip_args flip_prompt prompt_allowed
  args-Ends update_id [] tid c = inl (
      let (allowed, buckets) = allow_flip_prompt settings tid turn.clock c.prompt_buckets in
      prompt-IsAnswered settings tid "coin_flip" "flip:" flip_keyboard_caption
        flip_no_quick_stakes_message allowed (record c { prompt_buckets = buckets }))
  args-Ends update_id (arg ∷ args) tid c = stake-Ends update_id tid arg args (parse_int arg) c refl

  -- Every `/flip` message of a user, whatever its arguments are, and whatever happens to the rate
  -- limits, the engine and the database behind it: the handler returns, and has sent exactly one
  -- message; but where the arguments are a bet that the engine rejects, and the reading of the user
  -- for the log then raises, that ends the handler with nothing sent.
  pub flip-Ends :
      (update_id tid : ℤ) (args : List String) (c : Chat)
      → Ends update_id tid args c (
          cmd_flip settings games turn
            (record {
              update_id = update_id;
              has_message = true;
              telegram_user_id = some tid;
              args = args;
            })
            c)
  unfolding cmd_flip
  flip-Ends update_id tid args c = args-Ends update_id args tid c
