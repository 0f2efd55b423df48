-- ===== src/Tests/RateLimits.antt =====
-- The keyboards, and the rate limiter at a concrete sequence of calls.
use casino_bot.Prelude.{◌≡◌, refl, pos, ◌-ℤ◌, ◌≤ℤ◌, true, false, List, [], ◌∷◌, arith, select}
use casino_bot.TelegramBot.RateLimit.{minute, allow, prune}
use casino_bot.TelegramBot.RateLimit.Windows.{count_in}
use casino_bot.TelegramBot.RateLimit.Limits.{
  Call, empty, IsOrdered, answers, allowed, ideal_answers, answers-ideal, allowed_bounded,
}
use casino_bot.Games.Policy.{game_has_stake_policy}
use casino_bot.TelegramBot.Stakes.{
  quick_stake_amounts, is_offered, is_ok, check_stake, staked, presets, offers_iff_admitted,
}
use casino_bot.Tests.Data.{settings, play}

-- Two calls a minute: the third of user 7 comes too early, the fourth does not.
abbrev calls : List Call
calls =
    (pos 7, pos 1000000)
    ∷ (pos 7, pos 20000000)
    ∷ (pos 8, pos 21000000)
    ∷ (pos 7, pos 61000000)
    ∷ (pos 7, pos 61000001)
    ∷ []

answers_run : answers (pos 2) minute calls empty ≡ true ∷ true ∷ true ∷ false ∷ true ∷ []
unfolding answers allow prune ◌-ℤ◌
answers_run = refl

calls-IsOrdered : IsOrdered (pos 0) calls
unfolding IsOrdered
calls-IsOrdered = (omega arith, (omega arith, (omega arith, (omega arith, (omega arith, tt)))))

answers-ideal_example :
    answers (pos 2) minute calls empty ≡ ideal_answers (pos 2) minute calls empty
answers-ideal_example = answers-ideal (pos 2) minute (omega arith) (pos 0) calls calls-IsOrdered

allowed_bounded_example :
    pos (count_in (pos 1000000) minute (allowed (pos 2) minute calls empty empty (pos 7))) ≤ℤ pos 2
allowed_bounded_example =
    allowed_bounded (pos 2) minute (omega arith) (pos 0) calls calls-IsOrdered (pos 7) (pos 1000000)

offers_iff_admitted_example :
    quick_stake_amounts settings "bonus_wheel" (pos 7400)
    ≡ select (λ a. is_ok (check_stake settings (staked play a) (pos 7400))) presets
unfolding game_has_stake_policy
offers_iff_admitted_example = offers_iff_admitted settings play (pos 7400) (omega arith) refl

keyboard_offers : quick_stake_amounts settings "bonus_wheel" (pos 7400) ≡ pos 1 ∷ pos 5 ∷ []
unfolding quick_stake_amounts select is_offered
keyboard_offers = refl
