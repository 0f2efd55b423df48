-- ===== src/TelegramBot/Buttons.antt =====
-- What a button carries is what its handler reads (src/casino_bot/telegram_bot/handlers.py and
-- src/casino_bot/telegram_bot/polling.py).
use Prim.Native.String.{String, ◌++◌, [] as empty, ◌∷◌ as str_cons}
use text.Mathlib.TextLemmas.{nil-append, cons-append}
use casino_bot.Prelude.{
  if◌then◌else◌, inl, inr, Bool, ℕ, ℤ, pos, ◌≡◌, refl, ◌∙◌, ap, true, false, some, List, [], ◌∷◌,
  map,
}
use casino_bot.Python.{Result, str_ℤ}
use casino_bot.Python.Text.{digits_value, strip, lstrip, rstrip, is_space, starts_with, split_at}
use casino_bot.Python.Text.Numerals.{
  AllDigits, IsNumeral, str_ℕ-IsNumeral, numeral_value, rstrip-digits, parse_int-numeral,
}
use casino_bot.Settings.{Settings}
use casino_bot.Games.Registry.{Games}
use casino_bot.TelegramBot.Chat.{
  Turn, Bot, Button, Chat, send, answered, edit_or_reply, in_session, open_session,
}
use casino_bot.TelegramBot.Users.{callback_idempotency_key}
use casino_bot.TelegramBot.RateLimit.{allow_flip_action}
use casino_bot.TelegramBot.Sends.{
  OnlySends, finish_bet-cases, logged-OnlySends, flip_callback-OnlySends,
  deliver_wheel_callback-OnlySends,
}
use casino_bot.Database.{Tables}
use casino_bot.TelegramBot.Handlers.Work.{
  Callback, stake_buttons, Snapshot, finish_bet, bet_or_limited, telegram_game_work, action_allowed,
}
use casino_bot.TelegramBot.Handlers.Flip.{deliver_flip_callback, flip_button, callback_flip}
use casino_bot.TelegramBot.Handlers.Wheel.{
  enabled_wheel_button, is_wheel_enabled, deliver_wheel_callback, wheel_button, callback_wheel,
}
use casino_bot.TelegramBot.Polling.{pressed, handle, run_button, matches_stake, digits_to_end}

digits_to_end-digits : (w : String) → AllDigits w → digits_to_end true w ≡ true
unfolding digits_to_end
digits_to_end-digits empty h = refl
digits_to_end-digits (str_cons c w) (hc, h) = rw (hc, digits_to_end-digits w h) refl

digits_to_end-numeral :
    (n : ℕ) (w : String)
    → AllDigits w
    → digits_value w 0 false ≡ some n
    → digits_to_end false w ≡ true
unfolding digits_to_end digits_value
digits_to_end-numeral n empty h v = absurd cc
digits_to_end-numeral n (str_cons c w) (hc, h) v = rw (hc, digits_to_end-digits w h) refl

flip_text :
    (w : String)
    → "flip:" ++ w ≡ str_cons "f" (str_cons "l" (str_cons "i" (str_cons "p" (str_cons ":" w))))
flip_text w =
    rw
      (
        cons-append "f" "lip:" w,
        cons-append "l" "ip:" w,
        cons-append "i" "p:" w,
        cons-append "p" ":" w,
        cons-append ":" "" w,
        nil-append w,
      )
      refl

wheel_text :
    (w : String)
    → "wheel:" ++ w
      ≡ str_cons "w" (str_cons "h" (str_cons "e" (str_cons "e" (str_cons "l" (str_cons ":" w)))))
wheel_text w =
    rw
      (
        cons-append "w" "heel:" w,
        cons-append "h" "eel:" w,
        cons-append "e" "el:" w,
        cons-append "e" "l:" w,
        cons-append "l" ":" w,
        cons-append ":" "" w,
        nil-append w,
      )
      refl

abbrev pub press : String → ℤ → String → Callback
press id tid s = record {
  id = id;
  has_message = true;
  telegram_user_id = some tid;
  callback_data = some s;
}

module _ (settings : Settings) (games : Games) (turn : Turn) (id : String) (tid : ℤ) where
  flip_reads :
      (n : ℕ) (w : String)
      → IsNumeral n w
      → handle settings games turn (pressed (press id tid ("flip:" ++ w)))
        ≡ flip_button settings games turn id tid (some (pos n))
  unfolding handle run_button callback_flip matches_stake strip lstrip rstrip starts_with split_at
      is_space
  flip_reads n w numeral =
      let digits = digits_to_end-numeral n w numeral.all_digits (numeral_value n w numeral) in
      rw (flip_text w, digits, rstrip-digits w numeral.all_digits, parse_int-numeral n w numeral)
        refl

  wheel_reads :
      (n : ℕ) (w : String)
      → IsNumeral n w
      → handle settings games turn (pressed (press id tid ("wheel:" ++ w)))
        ≡ wheel_button settings games turn id tid (some (pos n))
  unfolding handle run_button callback_wheel matches_stake strip lstrip rstrip starts_with split_at
      is_space
  wheel_reads n w numeral =
      let digits = digits_to_end-numeral n w numeral.all_digits (numeral_value n w numeral) in
      rw (wheel_text w, digits, rstrip-digits w numeral.all_digits, parse_int-numeral n w numeral)
        refl

  flip_plays :
      (n : ℕ)
      → handle settings games turn (pressed (press id tid ("flip:" ++ str_ℤ (pos n))))
        ≡ flip_button settings games turn id tid (some (pos n))
  unfolding str_ℤ
  flip_plays n = let (w, numeral, e) = str_ℕ-IsNumeral n in rw e (flip_reads n w numeral)

  wheel_plays :
      (n : ℕ)
      → handle settings games turn (pressed (press id tid ("wheel:" ++ str_ℤ (pos n))))
        ≡ wheel_button settings games turn id tid (some (pos n))
  unfolding str_ℤ
  wheel_plays n = let (w, numeral, e) = str_ℕ-IsNumeral n in rw e (wheel_reads n w numeral)

  -- The tables after a bet of a stake: those of the work for it where the rate limit allows one, and
  -- those from before where it does not.
  abbrev pub tables_of_bet : String → ℤ → Chat → Tables
  tables_of_bet game_id stake c =
      if (allow_flip_action settings tid turn.clock c.action_buckets).0
      then (telegram_game_work settings games turn.engine tid stake
          (callback_idempotency_key tid id) game_id (open_session c.tables)).1.committed
      else c.tables

  finish-OnlySends :
      (deliver : Snapshot → Bot (Unit {0})) (r : Result Snapshot)
      → ((snap : Snapshot) → OnlySends (deliver snap))
      → OnlySends (finish_bet settings turn tid (edit_or_reply turn) deliver r)
  unfolding finish_bet
  finish-OnlySends deliver r k c =
      elim (finish_bet-cases settings turn tid (edit_or_reply turn) deliver r) [
        | inl (snap, e) ↦ rw e (k snap c)
        | inr (body, inl e) ↦ ap (λ m. (m c).1.tables) e
        | inr (body, inr (_, e)) ↦
            ap (λ m. (m c).1.tables) e
            ∙ logged-OnlySends turn tid (edit_or_reply turn body) (λ c'. refl) c
      ]

  bet_tables :
      (deliver : Snapshot → Bot (Unit {0})) (stake : ℤ) (game_id : String) (allowed : Bool)
      (c : Chat)
      → ((snap : Snapshot) → OnlySends (deliver snap))
      → (bet_or_limited settings games turn
          (edit_or_reply turn)
          deliver
          tid
          stake
          (callback_idempotency_key tid id)
          game_id
          allowed
          c).1.tables
        ≡ (if allowed
            then (telegram_game_work settings games turn.engine tid stake
                (callback_idempotency_key tid id)
                game_id
                (open_session c.tables)).1.committed
            else c.tables)
  unfolding bet_or_limited
  bet_tables deliver stake game_id false c k = refl
  bet_tables deliver stake game_id true c k =
      let work =
        in_session
          (telegram_game_work settings games turn.engine tid stake (callback_idempotency_key tid id)
            game_id)
          c in
      finish-OnlySends deliver work.0 k work.1

  flip_tables :
      (stake : ℤ) (c : Chat)
      → (flip_button settings games turn id tid (some stake) c).1.tables
        ≡ tables_of_bet "coin_flip" stake c
  unfolding flip_button action_allowed
  flip_tables stake c =
      let (allowed, buckets) = allow_flip_action settings tid turn.clock c.action_buckets in
      bet_tables (deliver_flip_callback settings turn) stake "coin_flip" allowed
        (record (send answered c).1 { action_buckets = buckets })
        (flip_callback-OnlySends settings turn)

  wheel_tables :
      (stake : ℤ) (c : Chat)
      → is_wheel_enabled settings ≡ true
      → (wheel_button settings games turn id tid (some stake) c).1.tables
        ≡ tables_of_bet "bonus_wheel" stake c
  unfolding wheel_button enabled_wheel_button action_allowed
  wheel_tables stake c enabled =
      let (allowed, buckets) = allow_flip_action settings tid turn.clock c.action_buckets in
      rw enabled (
        bet_tables (deliver_wheel_callback settings turn) stake "bonus_wheel" allowed
          (record (send answered c).1 { action_buckets = buckets })
          (deliver_wheel_callback-OnlySends settings turn))

  -- The tables after each button of a keyboard, pressed in the same state.
  abbrev pub press_each : Chat → List Button → List Tables
  press_each c =
      map (λ b. (handle settings games turn (pressed (press id tid b.callback_data)) c).1.tables)

  -- The buttons of a keyboard of either game (the wheel where it is enabled), for any stakes that
  -- are not negative, pressed in any state: pressing one commits what the work of that game commits
  -- for exactly the stake that the button was made for, under the key of the press, or nothing where
  -- the rate limit refuses it.
  pub button_plays :
      (c : Chat) (stakes : List ℕ)
      → is_wheel_enabled settings ≡ true
      → (press_each c (stake_buttons "flip:" (map pos stakes))
          ≡ map (λ n. tables_of_bet "coin_flip" (pos n) c) stakes)
        × (press_each c (stake_buttons "wheel:" (map pos stakes))
            ≡ map (λ n. tables_of_bet "bonus_wheel" (pos n) c) stakes)
  button_plays c [] enabled = (refl, refl)
  button_plays c (n ∷ stakes) enabled =
      let (flips, wheels) = button_plays c stakes enabled in
      (
        ap (λ m. (m c).1.tables ∷ press_each c (stake_buttons "flip:" (map pos stakes)))
              (flip_plays n)
            ∙ ap (λ t. t ∷ press_each c (stake_buttons "flip:" (map pos stakes)))
                (flip_tables (pos n) c)
            ∙ ap (λ ts. tables_of_bet "coin_flip" (pos n) c ∷ ts) flips,
        ap (λ m. (m c).1.tables ∷ press_each c (stake_buttons "wheel:" (map pos stakes)))
              (wheel_plays n)
            ∙ ap (λ t. t ∷ press_each c (stake_buttons "wheel:" (map pos stakes)))
                (wheel_tables (pos n) c enabled)
            ∙ ap (λ ts. tables_of_bet "bonus_wheel" (pos n) c ∷ ts) wheels,
      )
