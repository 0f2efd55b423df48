-- ===== src/TelegramBot/Sends.antt =====
-- What the delivery of replies leaves alone (src/casino_bot/telegram_bot/presentation_delivery.py and
-- src/casino_bot/telegram_bot/handlers.py): the tables.
use Prim.Native.String.{String}
use casino_bot.Prelude.{
  ℕ, suc, ℤ, ◌≡◌, refl, ◌∙◌, Bool, true, false, ◌||◌, str_eq, ◌==◌, Option, none, some, List, [],
  ◌∷◌, not, ◌⊎◌, inl, inr, Option-cases, if◌then◌else◌,
}
use casino_bot.Python.{
  Result, ok, err, bind-keeps, lift, pure, ◌>>=◌, ◌>>◌, type_error, value_error, key_error,
  compliance_violation, integrity_error, operational_error, engine_rejected, http_exception,
  http_coded, exception,
}
use casino_bot.Settings.{Settings}
use casino_bot.Games.Presentation.{AudioCue, PresentationStep, build_wheel_presentation}
use casino_bot.TelegramBot.Chat.{Chat, Bot, Turn, send, reply, reply_voice, edit_or_reply}
use casino_bot.TelegramBot.Delivery.{
  send_voice_for_cue, voice_issue, send_text, deliver_steps, notice_if,
  deliver_wheel_committed_command, deliver_wheel_committed_callback, say_step,
  deliver_flip_committed_command, deliver_flip_committed_callback,
}
use casino_bot.TelegramBot.Handlers.Work.{Snapshot, finish_bet, lookup_user_id_for_log}
use casino_bot.TelegramBot.Users.{get_user_by_telegram_id}
use casino_bot.TelegramBot.GameTexts.{
  game_engine_rejected_user_message, flip_unexpected_error_message,
}
use casino_bot.TelegramBot.Handlers.Replies.{
  outcome_of, net_change, telegram_game_reply_from_snapshot,
}
use casino_bot.TelegramBot.Handlers.Wheel.{
  shows_wheel, wheel_shown_command, wheel_shown_callback, deliver_wheel_command,
  deliver_wheel_callback,
}
use casino_bot.TelegramBot.Handlers.Flip.{shows_flip, deliver_flip_command, deliver_flip_callback}

-- An action that only sends.
abbrev pub OnlySends : {A : Type 0} → Bot A → Type 0
OnlySends m = (c : Chat) → (m c).1.tables ≡ c.tables

pub bind-OnlySends :
    {A B : Type 0} (m : Bot A) (f : A → Bot B)
    → OnlySends m
    → ((a : A) → OnlySends (f a))
    → OnlySends (m >>= f)
bind-OnlySends m f h k c =
    bind-keeps (λ c'. c'.tables ≡ c.tables) m f c (h c) (λ a c' e. k a c' ∙ e)

pub if-OnlySends :
    {A : Type 0} (b : Bool) (m k : Bot A)
    → OnlySends m
    → OnlySends k
    → OnlySends (if b then m else k)
if-OnlySends true m k h g = h
if-OnlySends false m k h g = g

send_voice-OnlySends : (turn : Turn) (asset : String) → OnlySends (send_voice_for_cue turn asset)
unfolding send_voice_for_cue
send_voice-OnlySends turn asset =
    if-OnlySends (turn.voice asset) (send (reply_voice asset) >> pure true) (pure false) (λ c. refl)
      (λ c. refl)

voice_issue-OnlySends : (turn : Turn) (cue : Option AudioCue) → OnlySends (voice_issue turn cue)
unfolding voice_issue
voice_issue-OnlySends turn none = λ c. refl
voice_issue-OnlySends turn (some cue) =
    bind-OnlySends (send_voice_for_cue turn cue.asset_id) (λ sent. pure (not sent))
      (send_voice-OnlySends turn cue.asset_id) (λ sent c. refl)

send_text-OnlySends :
    (say : String → Bot (Unit {0})) (body : Option String)
    → ((b : String) → OnlySends (say b))
    → OnlySends (send_text say body)
unfolding send_text
send_text-OnlySends say none h = λ c. refl
send_text-OnlySends say (some body) h =
    if-OnlySends (str_eq body "") (pure tt) (say body) (λ c. refl) (h body)

deliver_steps-OnlySends :
    (say : ℕ → String → Bot (Unit {0})) (turn : Turn) (idx : ℕ) (issue : Bool)
    (steps : List PresentationStep)
    → ((i : ℕ) (b : String) → OnlySends (say i b))
    → OnlySends (deliver_steps say turn idx issue steps)
unfolding deliver_steps
deliver_steps-OnlySends say turn idx issue [] h = λ c. refl
deliver_steps-OnlySends say turn idx issue (step ∷ steps) h =
    bind-OnlySends (voice_issue turn step.audio)
      (λ i. send_text (say idx) step.text >> deliver_steps say turn (suc idx) (issue || i) steps)
      (voice_issue-OnlySends turn step.audio)
      λ i.
        bind-OnlySends (send_text (say idx) step.text)
          (λ _. deliver_steps say turn (suc idx) (issue || i) steps)
          (send_text-OnlySends (say idx) step.text (h idx))
          λ _. deliver_steps-OnlySends say turn (suc idx) (issue || i) steps h

notice-OnlySends : (b : Bool) → OnlySends (notice_if b)
unfolding notice_if
notice-OnlySends true c = refl
notice-OnlySends false c = refl

say_step-OnlySends : (turn : Turn) (i : ℕ) (b : String) → OnlySends (say_step turn i b)
say_step-OnlySends turn i b =
    if-OnlySends (i == 1) (edit_or_reply turn b) (reply b) (λ c. refl) (λ c. refl)

pub flip_command-OnlySends :
    (settings : Settings) (snap : Snapshot) → OnlySends (deliver_flip_command settings snap)
unfolding deliver_flip_command deliver_flip_committed_command
flip_command-OnlySends settings snap =
    bind-OnlySends (lift (telegram_game_reply_from_snapshot settings snap))
      (λ body.
        if shows_flip snap
        then deliver_flip_committed_command snap.bet_amount (outcome_of snap.details)
            snap.balance_line snap.idempotent_replay
        else reply body)
      (λ c. refl) λ body. if-OnlySends (shows_flip snap) _ (reply body) (λ c. refl) (λ c. refl)

pub flip_callback-OnlySends :
    (settings : Settings) (turn : Turn) (snap : Snapshot)
    → OnlySends (deliver_flip_callback settings turn snap)
unfolding deliver_flip_callback deliver_flip_committed_callback
flip_callback-OnlySends settings turn snap =
    bind-OnlySends (lift (telegram_game_reply_from_snapshot settings snap))
      (λ body.
        if shows_flip snap
        then deliver_flip_committed_callback turn snap.bet_amount (outcome_of snap.details)
            snap.balance_line snap.idempotent_replay
        else edit_or_reply turn body)
      (λ c. refl)
      λ body. if-OnlySends (shows_flip snap) _ (edit_or_reply turn body) (λ c. refl) (λ c. refl)

wheel_command-OnlySends :
    (turn : Turn) (stake : ℤ) (outcome net line : String) (replayed : Bool)
    → OnlySends (deliver_wheel_committed_command turn stake outcome net line replayed)
unfolding deliver_wheel_committed_command
wheel_command-OnlySends turn stake outcome net line replayed =
    bind-OnlySends
      (deliver_steps (λ _. reply) turn 0 false
        (build_wheel_presentation stake outcome net line replayed).steps)
      notice_if
      (deliver_steps-OnlySends (λ _. reply) turn 0 false
        (build_wheel_presentation stake outcome net line replayed).steps (λ i b c. refl))
      notice-OnlySends

pub deliver_wheel_command-OnlySends :
    (settings : Settings) (turn : Turn) (snap : Snapshot)
    → OnlySends (deliver_wheel_command settings turn snap)
unfolding deliver_wheel_command wheel_shown_command
deliver_wheel_command-OnlySends settings turn snap =
    bind-OnlySends (lift (telegram_game_reply_from_snapshot settings snap))
      (λ body. if shows_wheel snap then wheel_shown_command settings turn snap else reply body)
      (λ c. refl)
      λ body.
        if-OnlySends (shows_wheel snap) (wheel_shown_command settings turn snap) (reply body)
          (bind-OnlySends (lift (net_change settings snap.details))
            (λ net.
              deliver_wheel_committed_command turn snap.bet_amount (outcome_of snap.details) net
                snap.balance_line snap.idempotent_replay)
            (λ c. refl)
            (λ net.
              wheel_command-OnlySends turn snap.bet_amount (outcome_of snap.details) net
                snap.balance_line snap.idempotent_replay))
          (λ c. refl)

wheel_callback-OnlySends :
    (turn : Turn) (stake : ℤ) (outcome net line : String) (replayed : Bool)
    → OnlySends (deliver_wheel_committed_callback turn stake outcome net line replayed)
unfolding deliver_wheel_committed_callback
wheel_callback-OnlySends turn stake outcome net line replayed =
    bind-OnlySends
      (deliver_steps (say_step turn) turn 0 false
        (build_wheel_presentation stake outcome net line replayed).steps)
      notice_if
      (deliver_steps-OnlySends (say_step turn) turn 0 false
        (build_wheel_presentation stake outcome net line replayed).steps (say_step-OnlySends turn))
      notice-OnlySends

pub deliver_wheel_callback-OnlySends :
    (settings : Settings) (turn : Turn) (snap : Snapshot)
    → OnlySends (deliver_wheel_callback settings turn snap)
unfolding deliver_wheel_callback wheel_shown_callback
deliver_wheel_callback-OnlySends settings turn snap =
    bind-OnlySends (lift (telegram_game_reply_from_snapshot settings snap))
      (λ body.
        if shows_wheel snap
        then wheel_shown_callback settings turn snap
        else edit_or_reply turn body)
      (λ c. refl)
      λ body.
        if-OnlySends (shows_wheel snap) (wheel_shown_callback settings turn snap)
          (edit_or_reply turn body)
          (bind-OnlySends (lift (net_change settings snap.details))
            (λ net.
              deliver_wheel_committed_callback turn snap.bet_amount (outcome_of snap.details) net
                snap.balance_line snap.idempotent_replay)
            (λ c. refl)
            (λ net.
              wheel_callback-OnlySends turn snap.bet_amount (outcome_of snap.details) net
                snap.balance_line snap.idempotent_replay))
          (λ c. refl)

-- The reading of a user for the log raises, or leaves everything but the log as it is.
pub lookup-OnlySends : (turn : Turn) (tid : ℤ) → OnlySends (lookup_user_id_for_log turn tid)
unfolding lookup_user_id_for_log get_user_by_telegram_id
lookup-OnlySends turn tid c = elim (Option-cases turn.log_lookup_raises) [
  | inl e ↦ rw e refl
  | inr (x, e) ↦ rw e refl
]

pub logged-OnlySends :
    (turn : Turn) (tid : ℤ) (m : Bot (Unit {0}))
    → OnlySends m
    → OnlySends (lookup_user_id_for_log turn tid >> m)
logged-OnlySends turn tid m h =
    bind-OnlySends (lookup_user_id_for_log turn tid) (λ x. m) (lookup-OnlySends turn tid) (λ x. h)

-- The engine has rejected the game.
abbrev pub IsRejected : {A : Type 0} → Result A → Type 0
IsRejected r =
    (code : String) × (message : String) × (seconds : Option ℤ) × (r
      ≡ err (engine_rejected code message seconds))

-- A bet ends with the delivery of its round, or with one message, before which a rejection of the
-- engine reads the user for the log.
pub finish_bet-cases :
    (settings : Settings) (turn : Turn) (tid : ℤ) (say : String → Bot (Unit {0}))
    (deliver : Snapshot → Bot (Unit {0})) (r : Result Snapshot)
    → ((snap : Snapshot) × (r ≡ ok snap))
      ⊎ ((body : String) × ((finish_bet settings turn tid say deliver r ≡ say body)
            ⊎ (IsRejected r
                × (finish_bet settings turn tid say deliver r
                    ≡ (lookup_user_id_for_log turn tid >> say body)))))
unfolding finish_bet
finish_bet-cases settings turn tid say deliver (ok snap) = inl (snap, refl)
finish_bet-cases settings turn tid say deliver (err (engine_rejected c m o)) =
    inr (game_engine_rejected_user_message settings c o, inr ((c, m, o, refl), refl))
finish_bet-cases settings turn tid say deliver (err (type_error m)) =
    inr (flip_unexpected_error_message, inl refl)
finish_bet-cases settings turn tid say deliver (err (value_error m)) =
    inr (flip_unexpected_error_message, inl refl)
finish_bet-cases settings turn tid say deliver (err (key_error m)) =
    inr (flip_unexpected_error_message, inl refl)
finish_bet-cases settings turn tid say deliver (err (compliance_violation m)) =
    inr (flip_unexpected_error_message, inl refl)
finish_bet-cases settings turn tid say deliver (err (integrity_error m)) =
    inr (flip_unexpected_error_message, inl refl)
finish_bet-cases settings turn tid say deliver (err (operational_error m)) =
    inr (flip_unexpected_error_message, inl refl)
finish_bet-cases settings turn tid say deliver (err (http_exception n m)) =
    inr (flip_unexpected_error_message, inl refl)
finish_bet-cases settings turn tid say deliver (err (http_coded n c m)) =
    inr (flip_unexpected_error_message, inl refl)
finish_bet-cases settings turn tid say deliver (err (exception c m)) =
    inr (flip_unexpected_error_message, inl refl)
