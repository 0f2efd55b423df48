-- ===== src/TelegramBot/RateLimit.antt =====
-- The rate limits of the Telegram commands (src/casino_bot/telegram_bot/rate_limit.py): a sliding
-- window of call times for each user. Times are readings of the monotonic clock in microseconds;
-- the lock of the module makes each call one step.
pub mod Windows
pub mod Limits
use casino_bot.Prelude.{
  ℕ, ℤ, pos, ◌-ℤ◌, ltb_ℤ, leb_ℤ, Bool, true, false, ◌&&◌, List, [], ◌∷◌, ◌++◌, length,
  if◌then◌else◌,
}
use casino_bot.Settings.{Settings}

-- A dictionary of buckets, where a key that is missing has an empty one.
abbrev pub Buckets : Type 0
Buckets = ℤ → List ℤ

abbrev pub is_key : ℤ → ℤ → Bool
is_key a b = leb_ℤ a b && leb_ℤ b a

abbrev pub set_bucket : ℤ → List ℤ → Buckets → Buckets
set_bucket key dq buckets k = if is_key key k then dq else buckets k

unfoldable pub prune : ℤ → List ℤ → List ℤ
prune cutoff [] = []
prune cutoff (t ∷ dq) = let rest = prune cutoff dq in if ltb_ℤ t cutoff then rest else t ∷ dq

unfoldable pub allow : ℤ → ℤ → ℤ → ℤ → Buckets → Bool × Buckets
allow key max_events window now buckets =
    let dq = prune (now -ℤ window) (buckets key) in
    if leb_ℤ max_events (pos 0)
    then (true, buckets)
    else if leb_ℤ max_events (pos (length dq))
    then (false, set_bucket key dq buckets)
    else (true, set_bucket key (dq ++ now ∷ []) buckets)

abbrev pub minute : ℤ
minute = pos 60000000

-- `allow_flip_prompt` and `allow_flip_action`, each with buckets of its own.
unfoldable pub allow_flip_prompt : Settings → ℤ → ℤ → Buckets → Bool × Buckets
allow_flip_prompt settings telegram_user_id now buckets =
    allow telegram_user_id settings.telegram_flip_prompt_rate_limit_per_minute minute now buckets

unfoldable pub allow_flip_action : Settings → ℤ → ℤ → Buckets → Bool × Buckets
allow_flip_action settings telegram_user_id now buckets =
    allow telegram_user_id settings.telegram_flip_action_rate_limit_per_minute minute now buckets
