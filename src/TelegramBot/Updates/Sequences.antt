-- ===== src/TelegramBot/Updates/Sequences.antt =====
-- The token ledger under any sequence of updates of the bot (src/casino_bot/telegram_bot/polling.py).
use Prim.Native.String.{String}
use casino_bot.Prelude.{ℕ, pos, ◌≤ℤ◌, str_eq, List, [], ◌∷◌, All}
use casino_bot.Settings.{Settings}
use casino_bot.Economy.Conservation.{IsConserved}
use casino_bot.Games.Registry.{Games}
use casino_bot.TelegramBot.Chat.{Chat, Turn}
use casino_bot.TelegramBot.Ledger.{Keeps, if-Keeps, with_user-Keeps, flip_args-Keeps}
use casino_bot.TelegramBot.Updates.{
  message-Keeps, start-Keeps, me-Keeps, balance-Keeps, wheel-Keeps, rounds-Keeps, profile-Keeps,
  flip_pressed-Keeps, wheel_pressed-Keeps,
}
use casino_bot.TelegramBot.Handlers.Work.{Command, Callback}
use casino_bot.TelegramBot.Handlers.Flip.{cmd_flip}
use casino_bot.TelegramBot.Handlers.Commands.{
  cmd_help, cmd_status, cmd_admin, cmd_support, cmd_games,
}
use casino_bot.TelegramBot.Polling.{
  Update, command, pressed, run_command, run_button, handle, data_matches, run_updates,
}

module _ (settings : Settings) (games : Games) (scale : pos 1 ≤ℤ settings.token_unit_scale) where
  module _ (turn : Turn) (others : (i : ℕ) → IsConserved (turn.engine.round.seen i)) where
    run_command-Keeps :
        (name : String) (q : Command) → Keeps (run_command settings games turn name q)
    unfolding run_command cmd_help cmd_flip cmd_games cmd_status cmd_admin cmd_support
    run_command-Keeps name q =
        if-Keeps (str_eq name "start") _ _ (start-Keeps settings games turn scale others q) (
          if-Keeps (str_eq name "help") _ _ (message-Keeps turn q.has_message q.telegram_user_id _)
            (if-Keeps (str_eq name "me") _ _ (me-Keeps settings games turn scale others q) (
              if-Keeps (str_eq name "balance") _ _
                (balance-Keeps settings games turn scale others q)
                (if-Keeps (str_eq name "flip") _ _
                  (with_user-Keeps q.has_message q.telegram_user_id _
                    (flip_args-Keeps settings games turn scale others q.update_id q.args))
                  (if-Keeps (str_eq name "wheel") _ _
                    (wheel-Keeps settings games turn scale others q)
                    (if-Keeps (str_eq name "games") _ _
                      (message-Keeps turn q.has_message q.telegram_user_id _)
                      (if-Keeps (str_eq name "rounds") _ _
                        (rounds-Keeps settings games turn scale others q)
                        (if-Keeps (str_eq name "status") _ _
                          (message-Keeps turn q.has_message q.telegram_user_id _)
                          (if-Keeps (str_eq name "profile") _ _
                            (profile-Keeps settings games turn scale others q)
                            (if-Keeps (str_eq name "admin") _ _
                              (message-Keeps turn q.has_message q.telegram_user_id _)
                              (if-Keeps (str_eq name "support") _ _
                                (message-Keeps turn q.has_message q.telegram_user_id _)
                                (λ c k. k))))))))))))

    run_button-Keeps : (q : Callback) → Keeps (run_button settings games turn q)
    unfolding run_button
    run_button-Keeps q =
        if-Keeps (data_matches "flip:" q.callback_data) _ _
          (flip_pressed-Keeps settings games turn scale others q)
          (if-Keeps (data_matches "wheel:" q.callback_data) _ _
            (wheel_pressed-Keeps settings games turn scale others q) (λ c k. k))

    handle-Keeps : (update : Update) → Keeps (handle settings games turn update)
    unfolding handle
    handle-Keeps (command name q) = run_command-Keeps name q
    handle-Keeps (pressed q) = run_button-Keeps q

  -- For a scale of at least one and any sequence of updates, whatever they are and however each is
  -- handled: the committed balances are the sums of their ledger entries, and none is negative, if
  -- that held before, and holds of every state that a wait for another caller's round sees.
  pub updates-IsConserved :
      (updates : List (Turn × Update)) (c : Chat)
      → All (λ u. (i : ℕ) → IsConserved (u.0.engine.round.seen i)) updates
      → IsConserved c.tables
      → IsConserved (run_updates settings games updates c).tables
  unfolding run_updates
  updates-IsConserved [] c others k = k
  updates-IsConserved ((turn, update) ∷ updates) c (other, others) k =
      updates-IsConserved updates (handle settings games turn update c).1 others
        (handle-Keeps turn other update c k)
