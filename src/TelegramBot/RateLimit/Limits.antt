-- ===== src/TelegramBot/RateLimit/Limits.antt =====
-- The answers of src/casino_bot/telegram_bot/rate_limit.py over a sequence of calls by any users,
-- against a limiter that keeps every call it has allowed.
use casino_bot.Prelude.{
  ◌≡◌, refl, subst, ℤ, pos, ◌-ℤ◌, ◌≤ℤ◌, ltb_ℤ, leb_ℤ, Bool, true, false, List, [], ◌∷◌, ◌++◌,
  length, if◌then◌else◌, arith, Bool-cases, inl, inr,
}
use casino_bot.Prelude.Int.{eq_of_parts}
use casino_bot.TelegramBot.RateLimit.{Buckets, is_key, set_bucket, prune, allow}
use casino_bot.TelegramBot.RateLimit.Windows.{
  count_in, IsSorted, Tracks, Tracks-later, prune-Tracks, Tracks-call, count_in-call,
}

-- A call: who, and when.
abbrev pub Call : Type 0
Call = ℤ × ℤ

abbrev pub empty : Buckets
empty k = []

-- The times that were allowed so far, for each user, after one more call.
abbrev pub record_call : Call → Bool → Buckets → Buckets
record_call (key, now) a logs = if a then set_bucket key (logs key ++ now ∷ []) logs else logs

-- Times that do not go back, from `last` on.
unfoldable pub IsOrdered : ℤ → List Call → Type 0
IsOrdered last [] = Unit
IsOrdered last ((key, now) ∷ calls) = (last ≤ℤ now) × IsOrdered now calls

-- A property of each user's two lists, after the bucket of one user is set, and after both are.
module _ (P : List ℤ → List ℤ → Type 0) (key : ℤ) (logs buckets : Buckets)
    (others : (k : ℤ) → P (logs k) (buckets k)) where
  set_one : {dq : List ℤ} → P (logs key) dq → (k : ℤ) → P (logs k) (set_bucket key dq buckets k)
  set_one {dq} mine k = elim (Bool-cases (is_key key k)) [
    | inl same ↦
        let e : key ≡ k = eq_of_parts key k (ground arith) in
        rw same (subst (λ j. P (logs j) dq) e mine)
    | inr distinct ↦ rw distinct (others k)
  ]

  set_both :
      {log dq : List ℤ}
      → P log dq
      → (k : ℤ) → P (set_bucket key log logs k) (set_bucket key dq buckets k)
  set_both mine k = elim (Bool-cases (is_key key k)) [
    | inl same ↦ rw same mine
    | inr distinct ↦ rw distinct (others k)
  ]

module _ (max_events window : ℤ) where
  -- The limiter of the code: its answers, and the times that it allows.
  unfoldable pub answers : List Call → Buckets → List Bool
  answers [] buckets = []
  answers ((key, now) ∷ calls) buckets =
      let (a, buckets') = allow key max_events window now buckets in a ∷ answers calls buckets'

  unfoldable pub allowed : List Call → Buckets → Buckets → Buckets
  allowed [] buckets logs = logs
  allowed (call ∷ calls) buckets logs =
      let (a, buckets') = allow call.0 max_events window call.1 buckets in
      allowed calls buckets' (record_call call a logs)

  -- The limiter that forgets nothing: a call is allowed if fewer than `max_events` allowed calls of
  -- the user lie in the window that ends with it.
  unfoldable pub ideal : Call → Buckets → Bool
  ideal (key, now) logs = ltb_ℤ (pos (count_in (now -ℤ window) window (logs key))) max_events

  unfoldable pub ideal_answers : List Call → Buckets → List Bool
  unfolding ideal
  ideal_answers [] logs = []
  ideal_answers (call ∷ calls) logs =
      let a = ideal call logs in a ∷ ideal_answers calls (record_call call a logs)

  -- The buckets and the full logs, after a call at `last`.
  record Agrees (last : ℤ) (logs buckets : Buckets) : Type 0 where
    tracks : (k : ℤ) → Tracks window last (logs k) (buckets k)
    bounded : (k from : ℤ) → pos (count_in from window (logs k)) ≤ℤ max_events

  module _ (positive : pos 1 ≤ℤ max_events) where
    allow-ideal :
        {last : ℤ} {logs buckets : Buckets} (key now : ℤ)
        → last ≤ℤ now
        → Agrees last logs buckets
        → ((allow key max_events window now buckets).0 ≡ ideal (key, now) logs)
          × Agrees now
              (record_call (key, now) (ideal (key, now) logs) logs)
              (allow key max_events window now buckets).1
    unfolding allow ideal
    allow-ideal {last} {logs} {buckets} key now h agrees =
        let tracks : (k : ℤ) → Tracks window now (logs k) (buckets k) =
          λ k. Tracks-later h (agrees.tracks k) in
        let (kept, counted) = prune-Tracks (tracks key) in
        elim (Bool-cases (leb_ℤ max_events (pos (length (prune (now -ℤ window) (buckets key)))))) [
          | inl full ↦
              let small : leb_ℤ max_events (pos 0) ≡ false = ground arith in
              let refused : ltb_ℤ (pos (length (prune (now -ℤ window) (buckets key)))) max_events
                  ≡ false =
                ground (arith, full) in
              rw (counted, small, full, refused)
                (
                  refl,
                  record {
                    tracks = set_one (Tracks window now) key logs buckets tracks kept;
                    bounded = agrees.bounded;
                  },
                )
          | inr room ↦
              let small : leb_ℤ max_events (pos 0) ≡ false = ground arith in
              let admitted : ltb_ℤ (pos (length (prune (now -ℤ window) (buckets key)))) max_events
                  ≡ true =
                ground (arith, room) in
              let new_bound : (from : ℤ)
                  → pos (count_in from window (logs key ++ now ∷ [])) ≤ℤ max_events =
                λ from. elim (count_in-call from kept) [
                  | inl few ↦ ground (arith, room, few)
                  | inr same ↦ rw same (agrees.bounded key from)
                ] in
              rw (counted, small, room, admitted)
                (
                  refl,
                  record {
                    tracks =
                        set_both (Tracks window now) key logs buckets tracks (Tracks-call kept);
                    bounded = λ k from.
                        set_both (λ l d. pos (count_in from window l) ≤ℤ max_events) key logs
                          buckets (λ j. agrees.bounded j from) {dq = []} (new_bound from) k;
                  },
                )
        ]

    answers-from :
        (calls : List Call) {last : ℤ} {logs buckets : Buckets}
        → IsOrdered last calls
        → Agrees last logs buckets
        → answers calls buckets ≡ ideal_answers calls logs
    unfolding answers ideal_answers IsOrdered
    answers-from [] ordered agrees = refl
    answers-from (call ∷ calls) {logs = logs} {buckets = buckets} (h, hs) agrees =
        let (same, next) = allow-ideal call.0 call.1 h agrees in
        let rest = answers-from calls hs next in rw (same, rest) refl

    allowed-from :
        (calls : List Call) {last : ℤ} {logs buckets : Buckets}
        → IsOrdered last calls
        → Agrees last logs buckets
        → (k from : ℤ) → pos (count_in from window (allowed calls buckets logs k)) ≤ℤ max_events
    unfolding allowed IsOrdered
    allowed-from [] ordered agrees = agrees.bounded
    allowed-from (call ∷ calls) {logs = logs} (h, hs) agrees =
        let (same, next) = allow-ideal call.0 call.1 h agrees in
        rw same (allowed-from calls hs next)

    empty-Agrees : (last : ℤ) → Agrees last empty empty
    unfolding count_in IsSorted
    empty-Agrees last = record {
      tracks = λ k. record { old = []; split = refl; expired = tt; sorted = tt; past = tt };
      bounded = λ k from. omega arith;
    }

    -- For a limit of at least one and calls by any users whose times do not go back, beginning with
    -- empty buckets: the limiter answers each call as the one that forgets nothing does, by whether
    -- fewer calls than the limit were allowed to the user in the window that ends with the call.
    pub answers-ideal :
        (last : ℤ) (calls : List Call)
        → IsOrdered last calls
        → answers calls empty ≡ ideal_answers calls empty
    answers-ideal last calls ordered = answers-from calls ordered (empty-Agrees last)

    -- Under the same conditions, no window of the given length, wherever it begins, holds more
    -- allowed calls of a user than the limit.
    pub allowed_bounded :
        (last : ℤ) (calls : List Call)
        → IsOrdered last calls
        → (key from : ℤ) → pos (count_in from window (allowed calls empty empty key)) ≤ℤ max_events
    allowed_bounded last calls ordered = allowed-from calls ordered (empty-Agrees last)
