-- ===== src/TelegramBot/Listing.antt =====
-- Which rounds the history of a user lists (src/casino_bot/telegram_bot/handlers.py).
use Prim.Native.String.{String}
use mathlib.Core.List.{Perm}
use mathlib.Core.List.Perm
use casino_bot.Games.Registry.{is_enabled}
use casino_bot.TelegramBot.Handlers.Replies.{is_committed}
use casino_bot.Prelude.{
  All-weaken, Bool, sym, subst, ◌++◌, ◌==◌, ◌&&◌, ◌≤◌, ℕ, zero, suc, leb, pos_part, ◌≡◌, refl, ◌∙◌,
  ap, true, false, Option, none, some, List, [], ◌∷◌, All, select, length, arith, Bool-cases, inl,
  inr, if◌then◌else◌,
}
use casino_bot.Settings.{Settings}
use casino_bot.Database.{GameRound}
use casino_bot.TelegramBot.Handlers.History.{
  is_listed, not_before, insert_row, newest_first, take, history_rows,
}

-- The first time is not before the second; a round without a time comes before all others.
abbrev pub IsNoOlder : Option ℕ → Option ℕ → Type 0
IsNoOlder none b = Unit
IsNoOlder (some a) none = ⊥
IsNoOlder (some a) (some b) = b ≤ a

-- No row is older than one after it.
abbrev pub IsNewestFirst : List GameRound → Type 0
IsNewestFirst [] = Unit
IsNewestFirst (r ∷ rows) =
    All (λ q. IsNoOlder r.committed_at q.committed_at) rows × IsNewestFirst rows

-- A committed round of the user, in a game that is enabled.
abbrev pub is_wanted : List String → ℕ → GameRound → Bool
is_wanted enabled user_id r =
    r.user_id == user_id && (is_enabled r.game_id enabled && is_committed r.status)

no_older : (a b : Option ℕ) → not_before a b ≡ true → IsNoOlder a b
unfolding not_before
no_older none b h = tt
no_older (some a) none h = absurd cc
no_older (some a) (some b) h = ground (arith, h)

-- The order of the query.
abbrev IsSorted : List GameRound → Type 0
IsSorted [] = Unit
IsSorted (r ∷ rows) =
    All (λ q. not_before r.committed_at q.committed_at ≡ true) rows × IsSorted rows

not_before_total : (a b : Option ℕ) → not_before a b ≡ false → not_before b a ≡ true
unfolding not_before
not_before_total none b h = absurd (ground (arith, h))
not_before_total (some a) none h = refl
not_before_total (some a) (some b) h = ground (arith, h)

not_before_trans :
    (a b c : Option ℕ) → not_before a b ≡ true → not_before b c ≡ true → not_before a c ≡ true
unfolding not_before
not_before_trans none b c h k = refl
not_before_trans (some a) none c h k = absurd (ground (arith, h))
not_before_trans (some a) (some b) none h k = absurd (ground (arith, k))
not_before_trans (some a) (some b) (some c) h k = ground (arith, h, k)

module _ (P : GameRound → Type 0) where
  All-insert_row :
      (r : GameRound) (rows : List GameRound) → P r → All P rows → All P (insert_row r rows)
  unfolding insert_row
  All-insert_row r [] p ps = (p, tt)
  All-insert_row r (q ∷ rows) p (pq, ps) =
      elim (Bool-cases (not_before r.committed_at q.committed_at)) [
        | inl e ↦ rw e (p, (pq, ps))
        | inr e ↦ rw e (pq, All-insert_row r rows p ps)
      ]

insert_row-IsSorted :
    (r : GameRound) (rows : List GameRound) → IsSorted rows → IsSorted (insert_row r rows)
unfolding insert_row
insert_row-IsSorted r [] h = (tt, tt)
insert_row-IsSorted r (q ∷ rows) (hq, h) =
    elim (Bool-cases (not_before r.committed_at q.committed_at)) [
      | inl e ↦ rw e (
        (
          e,
          All-weaken (λ x. not_before q.committed_at x.committed_at ≡ true)
              (λ x. not_before r.committed_at x.committed_at ≡ true) rows
              (λ x. not_before_trans r.committed_at q.committed_at x.committed_at e) hq,
        ),
        (hq, h),
      )
      | inr e ↦ rw e (
        All-insert_row (λ x. not_before q.committed_at x.committed_at ≡ true) r rows
            (not_before_total r.committed_at q.committed_at e) hq,
        insert_row-IsSorted r rows h,
      )
    ]

newest_first-IsSorted : (rows : List GameRound) → IsSorted (newest_first rows)
unfolding newest_first
newest_first-IsSorted [] = tt
newest_first-IsSorted (r ∷ rows) =
    insert_row-IsSorted r (newest_first rows) (newest_first-IsSorted rows)

IsSorted-newest : (rows : List GameRound) → IsSorted rows → IsNewestFirst rows
IsSorted-newest [] h = tt
IsSorted-newest (r ∷ rows) (hr, h) = (
  All-weaken (λ q. not_before r.committed_at q.committed_at ≡ true)
      (λ q. IsNoOlder r.committed_at q.committed_at) rows
      (λ q. no_older r.committed_at q.committed_at) hr,
  IsSorted-newest rows h,
)

insert_row-Perm : (r : GameRound) (rows : List GameRound) → Perm (insert_row r rows) (r ∷ rows)
unfolding insert_row
insert_row-Perm r [] = Perm.refl _
insert_row-Perm r (q ∷ rows) = elim (Bool-cases (not_before r.committed_at q.committed_at)) [
  | inl e ↦ rw e (Perm.refl _)
  | inr e ↦ rw e (Perm.trans (Perm.cons q (insert_row-Perm r rows)) (Perm.swap r q rows))
]

newest_first-Perm : (rows : List GameRound) → Perm (newest_first rows) rows
unfolding newest_first
newest_first-Perm [] = Perm.refl _
newest_first-Perm (r ∷ rows) =
    Perm.trans (insert_row-Perm r (newest_first rows)) (Perm.cons r (newest_first-Perm rows))

-- The rows after the first ones.
drop : ℕ → List GameRound → List GameRound
drop zero rows = rows
drop (suc n) [] = []
drop (suc n) (r ∷ rows) = drop n rows

append-take-drop : (n : ℕ) (rows : List GameRound) → take n rows ++ drop n rows ≡ rows
unfolding take drop
append-take-drop zero rows = refl
append-take-drop (suc n) [] = refl
append-take-drop (suc n) (r ∷ rows) = ap (λ z. r ∷ z) (append-take-drop n rows)

length-insert_row :
    (r : GameRound) (rows : List GameRound) → length (insert_row r rows) ≡ suc (length rows)
unfolding insert_row
length-insert_row r [] = refl
length-insert_row r (q ∷ rows) = ground (arith, length-insert_row r rows)

length-newest_first : (rows : List GameRound) → length (newest_first rows) ≡ length rows
unfolding newest_first
length-newest_first [] = refl
length-newest_first (r ∷ rows) =
    length-insert_row r (newest_first rows) ∙ ap suc (length-newest_first rows)

abbrev pub smaller : ℕ → ℕ → ℕ
smaller a b = if leb a b then a else b

length-take : (n : ℕ) (rows : List GameRound) → length (take n rows) ≡ smaller n (length rows)
unfolding take
length-take zero rows = ground arith
length-take (suc n) [] = ground arith
length-take (suc n) (r ∷ rows) = ground (arith, length-take n rows)

-- The history lists as many rounds as the limit allows of the committed rounds of the user in
-- enabled games, each as often as the table has it: with the others of them, which it leaves out,
-- they are all of these rounds, and in this order no round is older than one after it, so that none
-- is left out that is newer than one listed.
pub history_rows_lem :
    (settings : Settings) (user_id : ℕ) (rounds : List GameRound)
    → (let rows = history_rows settings user_id rounds in
        let wanted = select (is_wanted settings.games_enabled user_id) rounds in
        (others : List GameRound) × Perm (rows ++ others) wanted
        × IsNewestFirst (rows ++ others)
        × (length rows ≡ smaller (pos_part settings.telegram.rounds_history_limit) (length wanted)))
unfolding history_rows is_listed
history_rows_lem settings user_id rounds =
    let limit = pos_part settings.telegram.rounds_history_limit in
    let wanted = select (is_wanted settings.games_enabled user_id) rounds in
    let sorted = newest_first wanted in
    let whole = append-take-drop limit sorted in
    (
      drop limit sorted,
      subst (λ z. Perm z wanted) (sym whole) (newest_first-Perm wanted),
      subst IsNewestFirst (sym whole) (IsSorted-newest sorted (newest_first-IsSorted wanted)),
      length-take limit sorted ∙ ap (smaller limit) (length-newest_first wanted),
    )
