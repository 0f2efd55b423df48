-- ===== src/TelegramBot/Ledger.antt =====
-- The token ledger under any sequence of updates of the bot (src/casino_bot/telegram_bot/polling.py).
use Prim.Native.String.{String}
use casino_bot.Prelude.{
  ℕ, ℤ, pos, ◌≤ℤ◌, refl, sym, subst, Bool, true, false, Option, none, some, List, [], ◌∷◌, inl, inr,
  if◌then◌else◌,
}
use casino_bot.Python.{Result, ok, err, ◌>>◌}
use casino_bot.Python.Text.{parse_int}
use casino_bot.Settings.{Settings}
use casino_bot.Database.{Db, Session}
use casino_bot.Economy.Conservation.{IsConserved}
use casino_bot.Rounds.Solvency.{IsSound}
use casino_bot.Games.BonusWheel.{bonus_wheel_game_id}
use casino_bot.Games.Registry.{Games}
use casino_bot.TelegramBot.GameTexts.{
  telegram_rate_limited_message, flip_keyboard_caption, flip_no_quick_stakes_message,
  wheel_keyboard_caption, wheel_no_quick_stakes_message, wheel_not_enabled_message,
}
use casino_bot.TelegramBot.Chat.{
  Chat, Bot, Turn, in_session, open_session, reply, edit_or_reply, send, answered,
}
use casino_bot.TelegramBot.Sound.{game_work-IsSound, prompt_work-IsSound}
use casino_bot.TelegramBot.Sends.{
  OnlySends, finish_bet-cases, logged-OnlySends, flip_command-OnlySends, flip_callback-OnlySends,
  deliver_wheel_command-OnlySends, deliver_wheel_callback-OnlySends,
}
use casino_bot.TelegramBot.Users.{command_idempotency_key, callback_idempotency_key}
use casino_bot.TelegramBot.RateLimit.{allow_flip_action, allow_flip_prompt}
use casino_bot.TelegramBot.Handlers.Work.{
  action_allowed, prompt_allowed, with_user, Snapshot, finish_bet, bet_or_limited,
  lookup_user_id_for_log, show_prompt, prompt_or_limited, telegram_game_work,
  game_keyboard_prompt_work,
}
use casino_bot.TelegramBot.Handlers.Flip.{
  flip_args, flip_prompt, flip_bet, flip_button, deliver_flip_command, deliver_flip_callback,
}
use casino_bot.TelegramBot.Handlers.Wheel.{
  wheel_args, wheel_prompt, wheel_bet, wheel_button, enabled_wheel_button, is_wheel_enabled,
  deliver_wheel_command, deliver_wheel_callback,
}

-- The invariant of the token ledger, after an action that begins with it.
abbrev pub Keeps : {A : Type 0} → Bot A → Type 0
Keeps m = (c : Chat) → IsConserved c.tables → IsConserved (m c).1.tables

sends-Keeps : {A : Type 0} (m : Bot A) → OnlySends m → Keeps m
sends-Keeps m h c k = subst IsConserved (sym (h c)) k

pub if-Keeps :
    {A : Type 0} (b : Bool) (m k : Bot A) → Keeps m → Keeps k → Keeps (if b then m else k)
if-Keeps true m k h g = h
if-Keeps false m k h g = g

pub with_user-Keeps :
    (b : Bool) (o : Option ℤ) (m : ℤ → Bot (Unit {0}))
    → ((tid : ℤ) → Keeps (m tid))
    → Keeps (with_user b o m)
with_user-Keeps false o m h = λ c k. k
with_user-Keeps true none m h = λ c k. k
with_user-Keeps true (some tid) m h = h tid

pub in_session-Keeps :
    {A : Type 0} (m : Db A) → ((s : Session) → IsSound s → IsSound (m s).1) → Keeps (in_session m)
in_session-Keeps m h c k = (h (open_session c.tables) (record { working = k; stored = k })).stored

finish_bet-Keeps :
    (settings : Settings) (turn : Turn) (tid : ℤ) (say : String → Bot (Unit {0}))
    (deliver : Snapshot → Bot (Unit {0})) (r : Result Snapshot)
    → ((b : String) → OnlySends (say b))
    → ((snap : Snapshot) → OnlySends (deliver snap))
    → Keeps (finish_bet settings turn tid say deliver r)
unfolding finish_bet
finish_bet-Keeps settings turn tid say deliver r h k c sound =
    elim (finish_bet-cases settings turn tid say deliver r) [
      | inl (snap, e) ↦ rw e (sends-Keeps (deliver snap) (k snap) c sound)
      | inr (body, inl e) ↦
          subst (λ m. IsConserved (m c).1.tables) (sym e) (sends-Keeps (say body) (h body) c sound)
      | inr (body, inr (_, e)) ↦
          subst (λ m. IsConserved (m c).1.tables) (sym e)
            (sends-Keeps (lookup_user_id_for_log turn tid >> say body)
              (logged-OnlySends turn tid (say body) (h body)) c sound)
    ]

show_prompt-Keeps :
    (prefix caption no_stakes : String) (r : Result (List ℤ × String))
    → Keeps (show_prompt prefix caption no_stakes r)
unfolding show_prompt
show_prompt-Keeps prefix caption no_stakes (err e) = λ c k. k
show_prompt-Keeps prefix caption no_stakes (ok ([], line)) = λ c k. k
show_prompt-Keeps prefix caption no_stakes (ok (a ∷ amounts, line)) = λ c k. k

prompt-Keeps :
    (settings : Settings) (tid : ℤ) (game_id prefix caption no_stakes : String) (allowed : Bool)
    → Keeps (prompt_or_limited settings tid game_id prefix caption no_stakes allowed)
unfolding prompt_or_limited
prompt-Keeps settings tid game_id prefix caption no_stakes false = λ c k. k
prompt-Keeps settings tid game_id prefix caption no_stakes true = λ c k.
    let work = in_session (game_keyboard_prompt_work settings tid game_id) in
    show_prompt-Keeps prefix caption no_stakes (work c).0 (work c).1 (
      in_session-Keeps (game_keyboard_prompt_work settings tid game_id)
        (prompt_work-IsSound settings tid game_id) c k)

module _ (settings : Settings) (games : Games) (turn : Turn)
    (scale : pos 1 ≤ℤ settings.token_unit_scale)
    (others : (i : ℕ) → IsConserved (turn.engine.round.seen i)) where
  bet-Keeps :
      (say : String → Bot (Unit {0})) (deliver : Snapshot → Bot (Unit {0})) (tid bet_amount : ℤ)
      (key game_id : String) (allowed : Bool)
      → ((b : String) → OnlySends (say b))
      → ((snap : Snapshot) → OnlySends (deliver snap))
      → Keeps (bet_or_limited settings games turn say deliver tid bet_amount key game_id allowed)
  unfolding bet_or_limited
  bet-Keeps say deliver tid bet_amount key game_id false h k =
      sends-Keeps (say telegram_rate_limited_message) (h telegram_rate_limited_message)
  bet-Keeps say deliver tid bet_amount key game_id true h k = λ c sound.
      let db = telegram_game_work settings games turn.engine tid bet_amount key game_id in
      let work = in_session db in
      finish_bet-Keeps settings turn tid say deliver (work c).0 h k (work c).1 (
        in_session-Keeps db
          (game_work-IsSound settings games turn.engine scale others tid bet_amount key game_id) c
          sound)

  flip_bet-Keeps :
      (update_id tid : ℤ) (bet : Option ℤ) → Keeps (flip_bet settings games turn update_id tid bet)
  unfolding flip_bet action_allowed
  flip_bet-Keeps update_id tid none = λ c k. k
  flip_bet-Keeps update_id tid (some bet_amount) = λ c k.
      let (allowed, buckets) = allow_flip_action settings tid turn.clock c.action_buckets in
      bet-Keeps reply (deliver_flip_command settings) tid bet_amount
        (command_idempotency_key tid update_id) "coin_flip" allowed (λ b c'. refl)
        (flip_command-OnlySends settings) (record c { action_buckets = buckets }) k

  flip_prompt-Keeps : (tid : ℤ) → Keeps (flip_prompt settings turn tid)
  unfolding flip_prompt prompt_allowed
  flip_prompt-Keeps tid = λ c k.
      let (allowed, buckets) = allow_flip_prompt settings tid turn.clock c.prompt_buckets in
      prompt-Keeps settings tid "coin_flip" "flip:" flip_keyboard_caption
        flip_no_quick_stakes_message allowed (record c { prompt_buckets = buckets }) k

  pub flip_args-Keeps :
      (update_id : ℤ) (args : List String) (tid : ℤ)
      → Keeps (flip_args settings games turn update_id args tid)
  unfolding flip_args
  flip_args-Keeps update_id [] tid = flip_prompt-Keeps tid
  flip_args-Keeps update_id (arg ∷ args) tid = flip_bet-Keeps update_id tid (parse_int arg)

  wheel_bet-Keeps :
      (update_id tid : ℤ) (bet : Option ℤ) → Keeps (wheel_bet settings games turn update_id tid bet)
  unfolding wheel_bet action_allowed
  wheel_bet-Keeps update_id tid none = λ c k. k
  wheel_bet-Keeps update_id tid (some bet_amount) = λ c k.
      let (allowed, buckets) = allow_flip_action settings tid turn.clock c.action_buckets in
      bet-Keeps reply (deliver_wheel_command settings turn) tid bet_amount
        (command_idempotency_key tid update_id) bonus_wheel_game_id allowed (λ b c'. refl)
        (deliver_wheel_command-OnlySends settings turn) (record c { action_buckets = buckets }) k

  wheel_prompt-Keeps : (tid : ℤ) → Keeps (wheel_prompt settings turn tid)
  unfolding wheel_prompt prompt_allowed
  wheel_prompt-Keeps tid = λ c k.
      let (allowed, buckets) = allow_flip_prompt settings tid turn.clock c.prompt_buckets in
      prompt-Keeps settings tid bonus_wheel_game_id "wheel:" wheel_keyboard_caption
        wheel_no_quick_stakes_message allowed (record c { prompt_buckets = buckets }) k

  pub wheel_args-Keeps :
      (update_id : ℤ) (args : List String) (tid : ℤ)
      → Keeps (wheel_args settings games turn update_id args tid)
  unfolding wheel_args
  wheel_args-Keeps update_id [] tid = wheel_prompt-Keeps tid
  wheel_args-Keeps update_id (arg ∷ args) tid = wheel_bet-Keeps update_id tid (parse_int arg)

  pub flip_button-Keeps :
      (id : String) (tid : ℤ) (bet : Option ℤ) → Keeps (flip_button settings games turn id tid bet)
  unfolding flip_button action_allowed
  flip_button-Keeps id tid none = λ c k. k
  flip_button-Keeps id tid (some bet_amount) = λ c k.
      let (allowed, buckets) = allow_flip_action settings tid turn.clock c.action_buckets in
      bet-Keeps (edit_or_reply turn) (deliver_flip_callback settings turn) tid bet_amount
        (callback_idempotency_key tid id) "coin_flip" allowed (λ b c'. refl)
        (flip_callback-OnlySends settings turn)
        (record (send answered c).1 { action_buckets = buckets }) k

  enabled_button-Keeps :
      (id : String) (tid bet_amount : ℤ)
      → Keeps (enabled_wheel_button settings games turn id tid bet_amount)
  unfolding enabled_wheel_button action_allowed
  enabled_button-Keeps id tid bet_amount = λ c k.
      let (allowed, buckets) = allow_flip_action settings tid turn.clock c.action_buckets in
      bet-Keeps (edit_or_reply turn) (deliver_wheel_callback settings turn) tid bet_amount
        (callback_idempotency_key tid id) bonus_wheel_game_id allowed (λ b c'. refl)
        (deliver_wheel_callback-OnlySends settings turn) (record c { action_buckets = buckets }) k

  pub wheel_button-Keeps :
      (id : String) (tid : ℤ) (bet : Option ℤ) → Keeps (wheel_button settings games turn id tid bet)
  unfolding wheel_button
  wheel_button-Keeps id tid none = λ c k. k
  wheel_button-Keeps id tid (some bet_amount) = λ c k.
      if-Keeps (is_wheel_enabled settings)
        (enabled_wheel_button settings games turn id tid bet_amount)
        (edit_or_reply turn wheel_not_enabled_message) (enabled_button-Keeps id tid bet_amount)
        (λ c' k'. k') (send answered c).1 k
