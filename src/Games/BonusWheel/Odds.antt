-- ===== src/Games/BonusWheel/Odds.antt =====
-- The odds of the bonus wheel (src/casino_bot/games/bonus_wheel.py) over the draws of `random()`.
use casino_bot.Prelude.{ℕ, ◌*◌, ◌^◌, ◌<◌, ◌≡◌, refl, ltb, arith, if◌then◌else◌}
use casino_bot.Games.Doubles.{double_add, double_div}
use casino_bot.Games.BonusWheel.{Tier, spun_tier}

abbrev pub bust : Tier
bust = record { name = "bust"; kind = "bust"; weight = 55 }

abbrev pub bronze : Tier
bronze = record { name = "bronze"; kind = "half"; weight = 25 }

abbrev pub silver : Tier
silver = record { name = "silver"; kind = "equal"; weight = 12 }

abbrev pub gold : Tier
gold = record { name = "gold"; kind = "two_and_half"; weight = 8 }

-- The first draws after those of a tier, out of 2^53.
abbrev pub after_bust : ℕ
after_bust = 4953959590107546

abbrev pub after_bronze : ℕ
after_bronze = 7205759403792794

abbrev pub after_silver : ℕ
after_silver = 8286623314361713

-- The four cumulative weights as the code adds them up in doubles; the last one is exactly 1.
cumulative_bust : double_add 0 (double_div 55 100) ≡ after_bust * 2 ^ 11
unfolding double_add double_div
cumulative_bust = refl

cumulative_bronze : double_add (after_bust * 2 ^ 11) (double_div 25 100) ≡ after_bronze * 2 ^ 11
unfolding double_add double_div
cumulative_bronze = refl

cumulative_silver : double_add (after_bronze * 2 ^ 11) (double_div 12 100) ≡ after_silver * 2 ^ 11
unfolding double_add double_div
cumulative_silver = refl

cumulative_gold : double_add (after_silver * 2 ^ 11) (double_div 8 100) ≡ 2 ^ 53 * 2 ^ 11
unfolding double_add double_div
cumulative_gold = refl

-- For each draw below 2^53 the loop over the cumulative weights, rounded as doubles, stops at the
-- tier whose interval of draws has it.
pub spun_tier_lem :
    (draw : ℕ)
    → draw < 2 ^ 53
    → (spun_tier draw ≡ (
        if ltb draw after_bust
        then bust
        else if ltb draw after_bronze
        then bronze
        else if ltb draw after_silver
        then silver
        else gold))
unfolding spun_tier double_add double_div
spun_tier_lem draw h = ground arith
