-- ===== src/TelegramBot/Delivery.antt =====
-- How a presentation is sent (src/casino_bot/telegram_bot/presentation_delivery.py).
use Prim.Native.String.{String}
use casino_bot.Prelude.{
  ℕ, suc, ℤ, Bool, true, false, not, ◌||◌, ◌==◌, str_eq, Option, none, some, List, [], ◌∷◌,
  if◌then◌else◌,
}
use casino_bot.Python.{pure, ◌>>=◌, ◌>>◌}
use casino_bot.Games.Presentation.{
  AudioCue, PresentationStep, GamePresentation, build_flip_presentation, build_wheel_presentation,
}
use casino_bot.TelegramBot.GameTexts.{wheel_audio_sequence_fallback_notice}
use casino_bot.TelegramBot.Chat.{Bot, Turn, send, reply_voice, reply, edit_or_reply}

-- `pres.steps[0].text or ""`; a presentation has a step.
abbrev pub first_text : GamePresentation → String
first_text pres = elim pres.steps [ [] ↦ "" | s ∷ _ ↦ elim s.text [ none ↦ "" | some body ↦ body ] ]

-- Whether the voice has been sent.
unfoldable pub send_voice_for_cue : Turn → String → Bot Bool
send_voice_for_cue turn asset_id =
    if turn.voice asset_id then send (reply_voice asset_id) >> pure true else pure false

unfoldable pub deliver_flip_committed_command : ℤ → String → String → Bool → Bot (Unit {0})
deliver_flip_committed_command stake_tokens outcome balance_line idempotent_replay =
    reply (first_text (build_flip_presentation stake_tokens outcome balance_line idempotent_replay))

unfoldable pub deliver_flip_committed_callback : Turn → ℤ → String → String → Bool → Bot (Unit {0})
deliver_flip_committed_callback turn stake_tokens outcome balance_line idempotent_replay =
    edit_or_reply turn
      (first_text (build_flip_presentation stake_tokens outcome balance_line idempotent_replay))

-- Whether the voice of a step, if it has one, has not been sent.
unfoldable pub voice_issue : Turn → Option AudioCue → Bot Bool
voice_issue turn none = pure false
voice_issue turn (some cue) = do sent ← send_voice_for_cue turn cue.asset_id; pure (not sent)

-- `if step.text:` around the way that a step's text is sent.
unfoldable pub send_text : (String → Bot (Unit {0})) → Option String → Bot (Unit {0})
send_text say none = pure tt
send_text say (some body) = if str_eq body "" then pure tt else say body

-- The loop over the steps from an index on: whether any voice has not been sent.
unfoldable pub deliver_steps :
    (ℕ → String → Bot (Unit {0})) → Turn → ℕ → Bool → List PresentationStep → Bot Bool
deliver_steps say turn idx any_voice_issue [] = pure any_voice_issue
deliver_steps say turn idx any_voice_issue (step ∷ steps) = do
  issue ← voice_issue turn step.audio
  send_text (say idx) step.text
  deliver_steps say turn (suc idx) (any_voice_issue || issue) steps

unfoldable pub notice_if : Bool → Bot (Unit {0})
notice_if true = reply wheel_audio_sequence_fallback_notice
notice_if false = pure tt

unfoldable pub deliver_wheel_committed_command :
    Turn → ℤ → String → String → String → Bool → Bot (Unit {0})
unfolding deliver_steps
deliver_wheel_committed_command turn stake_tokens outcome net_change_tokens balance_line replayed =
    do
      any_voice_issue ←
          deliver_steps (λ _. reply) turn 0 false
            (build_wheel_presentation stake_tokens outcome net_change_tokens balance_line
              replayed).steps
      notice_if any_voice_issue

-- The text of the second step takes the place of the message with the buttons.
abbrev pub say_step : Turn → ℕ → String → Bot (Unit {0})
say_step turn idx body = if idx == 1 then edit_or_reply turn body else reply body

unfoldable pub deliver_wheel_committed_callback :
    Turn → ℤ → String → String → String → Bool → Bot (Unit {0})
unfolding deliver_steps
deliver_wheel_committed_callback turn stake_tokens outcome net_change_tokens balance_line replayed =
    do
      any_voice_issue ←
          deliver_steps (say_step turn) turn 0 false
            (build_wheel_presentation stake_tokens outcome net_change_tokens balance_line
              replayed).steps
      notice_if any_voice_issue
