-- ===== src/TelegramBot/Stakes.antt =====
-- The stakes that the keyboards of the bot offer (src/casino_bot/telegram_bot/handlers.py).
use native.Mathlib.Nat.{le-div_iff_mul-le, zero-lt-suc}
use casino_bot.Prelude.{
  zero, suc, ℕ, ℤ, pos, negsuc, pos_part, leb_ℤ, ◌≤ℤ◌, ◌*ℤ◌, ◌≡◌, refl, arith, Bool, true, false,
  ◌&&◌, String, str_eq, List, [], ◌∷◌, select, if◌then◌else◌, Bool-cases, ◌∙◌, inl, inr,
}
use casino_bot.Prelude.Int.{pos-*ℤ-pos}
use casino_bot.Python.{Result, ok, err, int, bind_result}
use casino_bot.Settings.{Settings}
use casino_bot.Tokens.{floor_div, tokens_whole_to_units, validate_units}
use casino_bot.Games.Policy.{game_has_stake_policy, min_max_bet}
use casino_bot.Games.BonusWheel.{bonus_wheel_game_id}
use casino_bot.Games.Engine.{Play, check_bounds, check_balance}

abbrev pub presets : List ℤ
presets = pos 1 ∷ pos 5 ∷ pos 10 ∷ []

-- The condition of the comprehension. A scale below one is refused when the settings are read.
unfoldable pub is_offered : ℤ → ℤ → ℤ → ℤ → Bool
is_offered lo hi bal_whole a = leb_ℤ lo a && leb_ℤ a hi && leb_ℤ a bal_whole

abbrev offered : ℤ → ℤ → Settings → ℤ → List ℤ
offered lo hi settings balance_units =
    select (is_offered lo hi (floor_div balance_units (pos_part settings.token_unit_scale))) presets

unfoldable pub quick_stake_amounts : Settings → String → ℤ → List ℤ
quick_stake_amounts settings game_id balance_units =
    if str_eq game_id "coin_flip"
    then offered settings.coin_flip_min_bet settings.coin_flip_max_bet settings balance_units
    else if str_eq game_id bonus_wheel_game_id
    then offered settings.bonus_wheel_min_bet settings.bonus_wheel_max_bet settings balance_units
    else []

abbrev pub is_ok : {A : Type 0} → Result A → Bool
is_ok (ok a) = true
is_ok (err e) = false

-- A call of the engine with this stake.
abbrev pub staked : Play → ℤ → Play
staked play a = record play { bet_amount = a }

-- What the engine checks of a stake: its bounds, and the balance against its units.
abbrev pub check_stake : Settings → Play → ℤ → Result (Unit {0})
check_stake settings play balance_units = bind_result (check_bounds settings play) λ _.
    bind_result (tokens_whole_to_units (int play.bet_amount) (int settings.token_unit_scale))
      λ stake_units. check_balance play.bet_amount balance_units stake_units

-- The whole tokens of a balance cover a stake when its units do.
covers :
    (a : ℕ) (scale balance : ℤ)
    → pos 1 ≤ℤ scale
    → leb_ℤ (pos a) (floor_div balance (pos_part scale)) ≡ leb_ℤ (pos a *ℤ scale) balance
covers a (pos (suc b)) (pos n) h =
    rw (pos-*ℤ-pos a (suc b))
      (ground (arith, le-div_iff_mul-le {k = suc b} {x = a} {y = n} (zero-lt-suc b)))
covers a (pos (suc b)) (negsuc n) h = rw (pos-*ℤ-pos a (suc b)) (ground arith)
covers a (pos zero) balance h = absurd (omega arith)
covers a (negsuc b) balance h = absurd (omega arith)

is_offered-eq-is_ok :
    (settings : Settings) (play : Play) (a : ℕ) (lo hi balance : ℤ)
    → pos 1 ≤ℤ settings.token_unit_scale
    → game_has_stake_policy play.game_id ≡ true
    → min_max_bet play.game_id settings ≡ ok (lo, hi)
    → is_offered lo hi (floor_div balance (pos_part settings.token_unit_scale)) (pos a)
      ≡ is_ok (check_stake settings (staked play (pos a)) balance)
unfolding is_offered check_bounds tokens_whole_to_units validate_units check_balance
is_offered-eq-is_ok settings play a lo hi balance scale policy bounds =
    ground (arith, scale, policy, bounds, covers a settings.token_unit_scale balance scale)

offered_lem :
    (settings : Settings) (play : Play) (balance lo hi : ℤ)
    → pos 1 ≤ℤ settings.token_unit_scale
    → game_has_stake_policy play.game_id ≡ true
    → min_max_bet play.game_id settings ≡ ok (lo, hi)
    → offered lo hi settings balance
      ≡ select (λ a. is_ok (check_stake settings (staked play a) balance)) presets
unfolding select
offered_lem settings play balance lo hi scale policy bounds =
    let same = λ (a : ℕ). is_offered-eq-is_ok settings play a lo hi balance scale policy bounds in
    rw (same 1, same 5, same 10) refl

-- The keyboard knows the games with a stake and their bounds.
quick_stake_amounts_lem :
    (settings : Settings) (play : Play) (balance : ℤ)
    → game_has_stake_policy play.game_id ≡ true
    → (lo : ℤ) × (hi : ℤ) × (min_max_bet play.game_id settings ≡ ok (lo, hi))
      × (quick_stake_amounts settings play.game_id balance ≡ offered lo hi settings balance)
unfolding quick_stake_amounts game_has_stake_policy min_max_bet
quick_stake_amounts_lem settings play balance policy =
    elim (Bool-cases (str_eq play.game_id "coin_flip")) [
      | inl coin ↦ rw coin (settings.coin_flip_min_bet, settings.coin_flip_max_bet, refl, refl)
      | inr other ↦
          let wheel : str_eq play.game_id "bonus_wheel" ≡ true = ground (arith, other, policy) in
          rw (other, wheel) (settings.bonus_wheel_min_bet, settings.bonus_wheel_max_bet, refl, refl)
    ]

-- For a scale of at least one, a game with a stake and any balance: the keyboard offers exactly
-- the presets that pass the bounds of the engine and its check of the balance, in their order.
pub offers_iff_admitted :
    (settings : Settings) (play : Play) (balance : ℤ)
    → pos 1 ≤ℤ settings.token_unit_scale
    → game_has_stake_policy play.game_id ≡ true
    → quick_stake_amounts settings play.game_id balance
      ≡ select (λ a. is_ok (check_stake settings (staked play a) balance)) presets
offers_iff_admitted settings play balance scale policy =
    let (lo, hi, bounds, known) = quick_stake_amounts_lem settings play balance policy in
    known ∙ offered_lem settings play balance lo hi scale policy bounds
