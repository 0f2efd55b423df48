-- ===== src/TelegramBot/Updates.antt =====
-- The token ledger behind each handler of the bot (src/casino_bot/telegram_bot/handlers.py).
pub mod Sequences
use Prim.Native.String.{String}
use casino_bot.Prelude.{
  ℕ, ℤ, pos, ◌≤ℤ◌, ◌≡◌, refl, sym, subst, Bool, true, false, str_eq, Option, none, some, List, [],
  ◌∷◌, All, first, if◌then◌else◌,
}
use casino_bot.Python.{Result, ok, err, bind-keeps, pure, ◌>>=◌}
use casino_bot.Python.Text.{starts_with, split_at}
use casino_bot.Settings.{Settings}
use casino_bot.Database.{Db, Session, User, Tables, begin_work}
use casino_bot.Economy.Conservation.{IsConserved}
use casino_bot.Rounds.Solvency.{IsSound}
use casino_bot.Games.Registry.{Games}
use casino_bot.TelegramBot.GameTexts.{wheel_not_enabled_message}
use casino_bot.TelegramBot.Texts.{me_message}
use casino_bot.TelegramBot.Chat.{Chat, Bot, Turn, in_session, reply}
use casino_bot.TelegramBot.Users.{get_user_by_telegram_id, resolve_balance_reply}
use casino_bot.TelegramBot.Sound.{start_work-IsSound, balance_reply-IsSound}
use casino_bot.TelegramBot.Ledger.{
  Keeps, with_user-Keeps, in_session-Keeps, if-Keeps, flip_args-Keeps, wheel_args-Keeps,
  flip_button-Keeps, wheel_button-Keeps,
}
use casino_bot.TelegramBot.Handlers.Work.{Command, Callback, id_of}
use casino_bot.TelegramBot.Sends.{logged-OnlySends}
use casino_bot.TelegramBot.Handlers.Flip.{
  cmd_flip, callback_flip, flip_args, flip_button, parsed_stake, button_data,
}
use casino_bot.TelegramBot.Handlers.Wheel.{
  cmd_wheel, callback_wheel, wheel_args, wheel_button, is_wheel_enabled,
}
use casino_bot.TelegramBot.Handlers.History.{
  rounds_history_work, history_of, rounds_history_message,
}
use casino_bot.TelegramBot.Handlers.Commands.{
  with_message, log_user, cmd_start, start_work, start_reply, cmd_help, cmd_me, me_lookup,
  cmd_status, cmd_profile, profile_of, cmd_admin, cmd_support, cmd_games, cmd_rounds, rounds_reply,
  cmd_balance, balance_work, balance_of_user,
}
use casino_bot.TelegramBot.Polling.{
  Update, command, pressed, run_command, run_button, handle, data_matches,
}

pub message-Keeps :
    (turn : Turn) (b : Bool) (o : Option ℤ) (body : String)
    → Keeps (with_message turn b o (reply body))
message-Keeps turn false o body c k = k
message-Keeps turn true none body c k = k
message-Keeps turn true (some tid) body c k =
    bind-keeps (λ c'. IsConserved c'.tables) (log_user turn (some tid)) (λ x. reply body) c
      (subst IsConserved (sym (logged-OnlySends turn tid (pure tt) (λ c'. refl) c)) k)
      (λ x c' k'. k')

get_user-IsSound : (tid : ℤ) (s : Session) → IsSound s → IsSound (get_user_by_telegram_id tid s).1
unfolding get_user_by_telegram_id
get_user-IsSound tid s h = record { working = h.working; stored = h.stored }

-- Work that ends in one reply.
replied-Keeps :
    {A : Type 0} (m : Db A) (text : A → String)
    → ((s : Session) → IsSound s → IsSound (m s).1)
    → Keeps (in_session m >>= λ a. reply (text a))
replied-Keeps m text h c k =
    bind-keeps (λ c'. IsConserved c'.tables) (in_session m) (λ a. reply (text a)) c
      (in_session-Keeps m h c k) (λ a c' k'. k')

start_reply-Keeps : (r : Result ℕ) → Keeps (start_reply r)
unfolding start_reply
start_reply-Keeps (ok n) c k = k
start_reply-Keeps (err e) c k = k

rounds_reply-Keeps : (r : Result String) → Keeps (rounds_reply r)
unfolding rounds_reply
rounds_reply-Keeps (ok body) c k = k
rounds_reply-Keeps (err e) c k = k

history_of-IsSound :
    (settings : Settings) (o : Option User) (s : Session)
    → IsSound s
    → IsSound (history_of settings o s).1
unfolding history_of rounds_history_message
history_of-IsSound settings none s h = h
history_of-IsSound settings (some user) s h = record { working = h.working; stored = h.stored }

history-IsSound :
    (settings : Settings) (tid : ℤ) (s : Session)
    → IsSound s
    → IsSound (rounds_history_work settings tid s).1
unfolding rounds_history_work
history-IsSound settings tid s h =
    bind-keeps IsSound (get_user_by_telegram_id tid) (history_of settings) s
      (get_user-IsSound tid s h) (history_of-IsSound settings)

balance_of-IsSound :
    (settings : Settings) (o : Option User) (s : Session)
    → IsSound s
    → IsSound (balance_of_user settings o s).1
unfolding balance_of_user
balance_of-IsSound settings none s h = h
balance_of-IsSound settings (some user) s h = balance_reply-IsSound settings user.id s h

balance_work-IsSound :
    (settings : Settings) (tid : ℤ) (s : Session)
    → IsSound s
    → IsSound (balance_work settings tid s).1
unfolding balance_work
balance_work-IsSound settings tid s h =
    bind-keeps IsSound (get_user_by_telegram_id tid) (balance_of_user settings) s
      (get_user-IsSound tid s h) (balance_of-IsSound settings)

me_lookup-IsSound : (tid : ℤ) (s : Session) → IsSound s → IsSound (me_lookup tid s).1
unfolding me_lookup
me_lookup-IsSound tid s h =
    bind-keeps IsSound (get_user_by_telegram_id tid) (λ user. pure (id_of user)) s
      (get_user-IsSound tid s h) (λ user s1 h1. h1)

module _ (settings : Settings) (games : Games) (turn : Turn)
    (scale : pos 1 ≤ℤ settings.token_unit_scale)
    (others : (i : ℕ) → IsConserved (turn.engine.round.seen i)) where
  pub wheel-Keeps : (q : Command) → Keeps (cmd_wheel settings games turn q)
  unfolding cmd_wheel
  wheel-Keeps q = with_user-Keeps q.has_message q.telegram_user_id _ λ tid.
      if-Keeps (is_wheel_enabled settings) (wheel_args settings games turn q.update_id q.args tid)
        (reply wheel_not_enabled_message)
        (wheel_args-Keeps settings games turn scale others q.update_id q.args tid) (λ c k. k)

  pub start-Keeps : (q : Command) → Keeps (cmd_start q)
  unfolding cmd_start
  start-Keeps q = with_user-Keeps q.has_message q.telegram_user_id _ λ tid c k.
      let work = in_session (start_work tid) in
      start_reply-Keeps (work c).0 (work c).1
        (in_session-Keeps (start_work tid) (start_work-IsSound tid) c k)

  pub rounds-Keeps : (q : Command) → Keeps (cmd_rounds settings q)
  unfolding cmd_rounds
  rounds-Keeps q = with_user-Keeps q.has_message q.telegram_user_id _ λ tid c k.
      let work = in_session (rounds_history_work settings tid) in
      rounds_reply-Keeps (work c).0 (work c).1
        (in_session-Keeps (rounds_history_work settings tid) (history-IsSound settings tid) c k)

  pub me-Keeps : (q : Command) → Keeps (cmd_me q)
  unfolding cmd_me
  me-Keeps q =
      with_user-Keeps q.has_message q.telegram_user_id _
        λ tid. replied-Keeps (me_lookup tid) (me_message tid) (me_lookup-IsSound tid)

  pub profile-Keeps : (q : Command) → Keeps (cmd_profile turn q)
  unfolding cmd_profile
  profile-Keeps q = with_user-Keeps q.has_message q.telegram_user_id _ λ tid.
      replied-Keeps (get_user_by_telegram_id tid) (profile_of turn tid) (get_user-IsSound tid)

  pub balance-Keeps : (q : Command) → Keeps (cmd_balance settings q)
  unfolding cmd_balance
  balance-Keeps q = with_user-Keeps q.has_message q.telegram_user_id _ λ tid.
      replied-Keeps (balance_work settings tid) (λ line. line) (balance_work-IsSound settings tid)

  pub flip_pressed-Keeps : (q : Callback) → Keeps (callback_flip settings games turn q)
  unfolding callback_flip
  flip_pressed-Keeps q = with_user-Keeps q.has_message q.telegram_user_id _ λ tid.
      let stake = parsed_stake (split_at 58 (button_data q.callback_data)) in
      if-Keeps (starts_with "flip:" (button_data q.callback_data))
        (flip_button settings games turn q.id tid stake) (pure tt)
        (flip_button-Keeps settings games turn scale others q.id tid stake) (λ c k. k)

  pub wheel_pressed-Keeps : (q : Callback) → Keeps (callback_wheel settings games turn q)
  unfolding callback_wheel
  wheel_pressed-Keeps q = with_user-Keeps q.has_message q.telegram_user_id _ λ tid.
      let stake = parsed_stake (split_at 58 (button_data q.callback_data)) in
      if-Keeps (starts_with "wheel:" (button_data q.callback_data))
        (wheel_button settings games turn q.id tid stake) (pure tt)
        (wheel_button-Keeps settings games turn scale others q.id tid stake) (λ c k. k)
