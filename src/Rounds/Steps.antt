-- ===== src/Rounds/Steps.antt =====
-- The steps of a new round (src/casino_bot/services/game_round_service.py) one by one: the insert,
-- the adjustment after it, and what the settlement finds.
use text.Mathlib.TextPositions.{eq_refl}
use casino_bot.Prelude.{
  pos, ◌≡◌, true, false, none, some, [], ◌∷◌, ◌++◌, first, arith, ◌≤ℤ◌, inl, inr, Bool-cases, ◌⊎◌,
}
use casino_bot.Python.{Result, ok, err, integrity_error}
use casino_bot.Settings.{Settings}
use casino_bot.Database.{
  GameRound, TokenAccount, Tables, Session, User, has_key, has_user, has_round_id, begin_work,
  insert_round, in_block, end_block, violates_round_constraints,
}
use casino_bot.Economy.Adjust.{adjusted, Adjusts, adjust-Adjusts, Adjusts-rounds, Adjusts-committed}
use casino_bot.Rounds.{
  RoundRequest, World, Amounts, pending_round, round_reason, round_body, settle, or_fault,
  play_round, recover, execute_game_round, round_or_new, amounts,
}

-- The database has refused an insert, and nothing has changed.
abbrev pub NotInserted : Session → Result GameRound × Session → Type 0
NotInserted s (r, s') =
    (r ≡ err (integrity_error "game_rounds")) × (s'.work ≡ s.work) × (s'.committed ≡ s.committed)

module _ (settings : Settings) (req : RoundRequest) (world : World) (a : Amounts) where
  -- The session once the row is inserted.
  abbrev pub inserted : Session → Session
  inserted s =
      begin_work s (record s.work { rounds = s.work.rounds ++ pending_round req world a ∷ [] })

  abbrev pub adjusted_in : Session → Result TokenAccount × Session
  adjusted_in s =
      adjusted settings req.user_id a.attempted_delta_units (round_reason req world) req.actor false
        false (inserted s)

  -- The adjustment leaves the rounds and the last commit alone.
  module _ (scale : pos 1 ≤ℤ settings.token_unit_scale) (s : Session) where
    abbrev adjusts : Adjusts req.user_id a.attempted_delta_units (inserted s) (adjusted_in s)
    adjusts =
        adjust-Adjusts settings req.user_id a.attempted_delta_units (round_reason req world)
          req.actor false false (inserted s) scale

    pub rounds-adjusted_in : (adjusted_in s).1.work.rounds ≡ (inserted s).work.rounds
    rounds-adjusted_in =
        Adjusts-rounds req.user_id a.attempted_delta_units (inserted s) (adjusted_in s).1
          (adjusted_in s).0 adjusts

    pub committed-adjusted_in : (adjusted_in s).1.committed ≡ s.committed
    committed-adjusted_in =
        Adjusts-committed req.user_id a.attempted_delta_units (inserted s) (adjusted_in s).1
          (adjusted_in s).0 adjusts

  pub own_key :
      has_key req.user_id req.game_id req.idempotency_key (pending_round req world a) ≡ true
  unfolding pending_round
  own_key = ground (arith, eq_refl req.game_id, eq_refl req.idempotency_key)

  -- What makes the insert go through.
  pub record IsFresh (t : Tables) : Type 0 where
    pub new_key : first (has_key req.user_id req.game_id req.idempotency_key) t.rounds ≡ none
    pub new_id : first (has_round_id world.round_id) t.rounds ≡ none
    pub alone : world.conflict ≡ false
    pub healthy : world.fault ≡ none

  -- The settlement, of what the adjustment after the insert has returned.
  abbrev pub settled : Session → Result GameRound × Session
  settled s = settle req world a (or_fault world.fault (adjusted_in s).0) (adjusted_in s).1

  pub round_body_settles :
      (s : Session)
      → world.conflict ≡ false
      → violates_round_constraints (pending_round req world a) s.work ≡ false
      → round_body settings req world a s ≡ settled s
  unfolding round_body insert_round
  round_body_settles s c v = ground (arith, c, v)

  -- Past the key's lookup and the checks of the amounts the call is the transaction.
  pub execute_plays :
      (s : Session)
      → amounts settings req ≡ ok a
      → first (has_key req.user_id req.game_id req.idempotency_key) s.work.rounds ≡ none
      → execute_game_round settings req world s
        ≡ play_round settings req world a (begin_work s s.work)
  unfolding execute_game_round round_or_new
  execute_plays s parsed new = ground (arith, parsed, new)

  -- The block either inserts its row and settles, or the database refuses the insert.
  pub round_body-cases :
      (s : Session)
      → NotInserted s (round_body settings req world a s)
        ⊎ (round_body settings req world a s ≡ settled s)
  unfolding round_body insert_round
  round_body-cases s =
      by_tests (Bool-cases world.conflict)
        (Bool-cases (violates_round_constraints (pending_round req world a) s.work))
    where
      by_tests :
          (world.conflict ≡ true) ⊎ (world.conflict ≡ false)
          → (violates_round_constraints (pending_round req world a) s.work ≡ true)
            ⊎ (violates_round_constraints (pending_round req world a) s.work ≡ false)
          → NotInserted s (round_body settings req world a s)
            ⊎ (round_body settings req world a s ≡ settled s)
      by_tests (inl c) v = inl (ground (arith, c))
      by_tests (inr c) (inl v) = inl (ground (arith, c, v))
      by_tests (inr c) (inr v) = inr (round_body_settles s c v)

  pub body_fresh :
      (s : Session) {x : User}
      → IsFresh s.work
      → first (has_user req.user_id) s.work.users ≡ some x
      → round_body settings req world a s ≡ settle req world a (adjusted_in s).0 (adjusted_in s).1
  unfolding round_body insert_round pending_round
  body_fresh s {x} fresh known =
      ground (arith, fresh.new_key, fresh.new_id, fresh.alone, fresh.healthy, known)

  -- For a fresh key in the caller's transaction, the call is the settlement of the adjustment, and
  -- the handlers of what it raises.
  pub execute_fresh :
      (s : Session) {x : User}
      → amounts settings req ≡ ok a
      → IsFresh s.work
      → first (has_user req.user_id) s.work.users ≡ some x
      → execute_game_round settings req world s ≡ (
          let (r, s') =
            end_block
              (begin_work s s.work)
              (settle req world a (adjusted_in s).0 (adjusted_in s).1) in
          recover req world a r s')
  unfolding play_round in_block
  execute_fresh s {x} parsed fresh known =
      rw (execute_plays s parsed fresh.new_key)
        (ground (arith, body_fresh (begin_work s s.work) fresh known))
