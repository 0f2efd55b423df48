-- ===== src/Games/Presentation.antt =====
-- What a round looks like, before any channel (src/casino_bot/games/application_models.py and
-- src/casino_bot/games/presentation.py).
use Prim.Native.String.{String}
use casino_bot.Prelude.{ℤ, Bool, str_eq, Option, none, some, List, [], ◌∷◌, if◌then◌else◌}
use casino_bot.TelegramBot.GameTexts.{flip_result_compact, wheel_result_compact}

pub data CueType : Type 0 where
  anticipation win lose : CueType

pub record AudioCue : Type 0 where
  pub cue_type : CueType
  pub asset_id : String

pub record PresentationStep : Type 0 where
  pub text : Option String
  pub audio : Option AudioCue

pub record GamePresentation : Type 0 where
  pub steps : List PresentationStep

abbrev pub text_step : String → PresentationStep
text_step body = record { text = some body; audio = none }

abbrev pub audio_step : CueType → String → PresentationStep
audio_step cue asset = record {
  text = none;
  audio = some (record { cue_type = cue; asset_id = asset });
}

unfoldable pub build_flip_presentation : ℤ → String → String → Bool → GamePresentation
build_flip_presentation stake_tokens outcome balance_line idempotent_replay = record {
  steps = text_step (flip_result_compact stake_tokens outcome balance_line idempotent_replay) ∷ [];
}

unfoldable pub build_wheel_presentation : ℤ → String → String → String → Bool → GamePresentation
build_wheel_presentation stake_tokens outcome net_change_tokens balance_line idempotent_replay =
    record {
      steps =
          audio_step anticipation "wheel_anticipation"
          ∷ text_step (
              wheel_result_compact stake_tokens outcome net_change_tokens balance_line
                idempotent_replay)
          ∷ (if str_eq outcome "bust"
              then audio_step lose "wheel_lose"
              else audio_step win "wheel_win")
          ∷ [];
    }
