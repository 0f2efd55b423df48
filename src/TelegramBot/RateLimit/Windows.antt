-- ===== src/TelegramBot/RateLimit/Windows.antt =====
-- What the sliding window of src/casino_bot/telegram_bot/rate_limit.py promises: its answers are
-- those of a limiter that never forgets a call.
use casino_bot.Prelude.{
  ℕ, ◌+◌, ◌≤◌, ◌≡◌, refl, sym, ap, ◌∙◌, ℤ, ◌+ℤ◌, ◌-ℤ◌, ◌≤ℤ◌, ◌<ℤ◌, ltb_ℤ, leb_ℤ, int_laws, ◌&&◌,
  List, [], ◌∷◌, ◌++◌, length, All, length-append, if◌then◌else◌, arith, Bool-cases, inl, inr, ◌⊎◌,
}
use mathlib.Core.List.{append_assoc}
use casino_bot.TelegramBot.RateLimit.{prune}

-- How many of the times are in the window that begins at `from` and is `window` long.
unfoldable pub count_in : ℤ → ℤ → List ℤ → ℕ
count_in from window [] = 0
count_in from window (t ∷ ts) =
    (if leb_ℤ from t && leb_ℤ t (from +ℤ window) then 1 else 0) + count_in from window ts

pub count_in-append :
    (from window : ℤ) (ts us : List ℤ)
    → count_in from window (ts ++ us) ≡ count_in from window ts + count_in from window us
unfolding count_in
count_in-append from window [] us = omega arith
count_in-append from window (t ∷ ts) us = omega (arith, count_in-append from window ts us)

pub count_in-below :
    (from window : ℤ) (ts : List ℤ) → All (λ t. t <ℤ from) ts → count_in from window ts ≡ 0
unfolding count_in
count_in-below from window [] h = refl
count_in-below from window (t ∷ ts) (h, hs) = ground (arith, count_in-below from window ts hs)

pub count_in-length : (from window : ℤ) (ts : List ℤ) → count_in from window ts ≤ length ts
unfolding count_in
count_in-length from window [] = omega arith
count_in-length from window (t ∷ ts) = ground (arith, count_in-length from window ts)

count_in-inside :
    (from window : ℤ) (ts : List ℤ)
    → All (λ t. from ≤ℤ t) ts
    → All (λ t. t ≤ℤ from +ℤ window) ts
    → count_in from window ts ≡ length ts
unfolding count_in
count_in-inside from window [] h k = refl
count_in-inside from window (t ∷ ts) (h, hs) (k, ks) =
    ground (arith, count_in-inside from window ts hs ks)

-- Ascending times.
unfoldable pub IsSorted : List ℤ → Type 0
IsSorted [] = Unit
IsSorted (t ∷ ts) = All (λ u. t ≤ℤ u) ts × IsSorted ts

pub All-map : {P Q : ℤ → Type 0} → ((t : ℤ) → P t → Q t) → (ts : List ℤ) → All P ts → All Q ts
All-map f [] h = tt
All-map f (t ∷ ts) (h, hs) = (f t h, All-map f ts hs)

pub All-append : (P : ℤ → Type 0) (ts us : List ℤ) → All P ts → All P us → All P (ts ++ us)
All-append P [] us h k = k
All-append P (t ∷ ts) us (h, hs) k = (h, All-append P ts us hs k)

pub IsSorted-append :
    (ts : List ℤ) (now : ℤ) → IsSorted ts → All (λ t. t ≤ℤ now) ts → IsSorted (ts ++ now ∷ [])
unfolding IsSorted
IsSorted-append [] now s b = (tt, tt)
IsSorted-append (t ∷ ts) now (a, s) (b, bs) =
    (All-append (λ u. t ≤ℤ u) ts (now ∷ []) a (b, tt), IsSorted-append ts now s bs)

-- What pruning does to ascending times: a prefix goes, the rest is not before the cutoff.
record Pruned (cutoff : ℤ) (dq dq' : List ℤ) : Type 0 where
  dropped : List ℤ
  split : dq ≡ dropped ++ dq'
  expired : All (λ t. t <ℤ cutoff) dropped
  live : All (λ t. cutoff ≤ℤ t) dq'
  sorted : IsSorted dq'

prune-Pruned : (cutoff : ℤ) (dq : List ℤ) → IsSorted dq → Pruned cutoff dq (prune cutoff dq)
unfolding prune IsSorted
prune-Pruned cutoff [] s = record {
  dropped = [];
  split = refl;
  expired = tt;
  live = tt;
  sorted = tt;
}
prune-Pruned cutoff (t ∷ dq) (a, s) = elim (Bool-cases (ltb_ℤ t cutoff)) [
  | inl old ↦
      let p = prune-Pruned cutoff dq s in
      rw old (record {
        dropped = t ∷ p.dropped;
        split = ap (λ ts. t ∷ ts) p.split;
        expired = (ground arith, p.expired);
        live = p.live;
        sorted = p.sorted;
      })
  | inr new ↦ rw new (record {
    dropped = [];
    split = refl;
    expired = tt;
    live = (ground arith, All-map (λ u h. ground arith) dq a);
    sorted = (a, s);
  })
]

All-prune : (P : ℤ → Type 0) (cutoff : ℤ) (dq : List ℤ) → All P dq → All P (prune cutoff dq)
unfolding prune
All-prune P cutoff [] h = tt
All-prune P cutoff (t ∷ dq) (h, hs) = elim (Bool-cases (ltb_ℤ t cutoff)) [
  | inl old ↦ rw old (All-prune P cutoff dq hs)
  | inr new ↦ rw new (h, hs)
]

-- A bucket at the time of its latest call, and all the calls that were allowed.
pub record Tracks (window last : ℤ) (log dq : List ℤ) : Type 0 where
  pub old : List ℤ
  pub split : log ≡ old ++ dq
  pub expired : All (λ t. t <ℤ last -ℤ window) old
  pub sorted : IsSorted dq
  pub past : All (λ t. t ≤ℤ last) dq

pub Tracks-later :
    {window last now : ℤ} {log dq : List ℤ}
    → last ≤ℤ now
    → Tracks window last log dq
    → Tracks window now log dq
Tracks-later {window} {last} {now} {log} {dq} h t = record {
  old = t.old;
  split = t.split;
  expired = All-map (λ u k. omega int_laws) t.old t.expired;
  sorted = t.sorted;
  past = All-map (λ u k. omega int_laws) dq t.past;
}

-- Pruning a bucket at the time of a call keeps track, and leaves exactly the calls of the window.
pub prune-Tracks :
    {window now : ℤ} {log dq : List ℤ}
    → Tracks window now log dq
    → Tracks window now log (prune (now -ℤ window) dq)
      × (count_in (now -ℤ window) window log ≡ length (prune (now -ℤ window) dq))
prune-Tracks {window} {now} {log} {dq} t =
    let p = prune-Pruned (now -ℤ window) dq t.sorted in
    let gone = All-append (λ u. u <ℤ now -ℤ window) t.old p.dropped t.expired p.expired in
    let split : log ≡ (t.old ++ p.dropped) ++ prune (now -ℤ window) dq =
      t.split
      ∙ (ap (λ r. t.old ++ r) p.split
          ∙ sym (append_assoc t.old p.dropped (prune (now -ℤ window) dq))) in
    let past : All (λ u. u ≤ℤ now) (prune (now -ℤ window) dq) =
      All-prune (λ u. u ≤ℤ now) (now -ℤ window) dq t.past in
    (
      record {
        old = t.old ++ p.dropped;
        split = split;
        expired = gone;
        sorted = p.sorted;
        past = past;
      },
      rw
          (
            split,
            count_in-append,
            count_in-below (now -ℤ window) window (t.old ++ p.dropped) gone,
            count_in-inside (now -ℤ window) window (prune (now -ℤ window) dq) p.live
                (All-map (λ u k. omega int_laws) (prune (now -ℤ window) dq) past),
          )
          (omega arith),
    )

-- An allowed call is added to both.
pub Tracks-call :
    {window now : ℤ} {log dq : List ℤ}
    → Tracks window now log dq
    → Tracks window now (log ++ now ∷ []) (dq ++ now ∷ [])
Tracks-call {window} {now} {log} {dq} t = record {
  old = t.old;
  split = ap (λ l. l ++ now ∷ []) t.split ∙ append_assoc t.old dq (now ∷ []);
  expired = t.expired;
  sorted = IsSorted-append dq now t.sorted t.past;
  past = All-append (λ u. u ≤ℤ now) dq (now ∷ []) t.past (omega arith, tt);
}

-- A window that an allowed call falls in holds nothing but the bucket; any other window is as
-- before.
pub count_in-call :
    {window now : ℤ} {log dq : List ℤ} (from : ℤ)
    → Tracks window now log dq
    → (count_in from window (log ++ now ∷ []) ≤ length dq + 1)
      ⊎ (count_in from window (log ++ now ∷ []) ≡ count_in from window log)
unfolding count_in
count_in-call {window} {now} {log} {dq} from t = elim (Bool-cases (leb_ℤ now (from +ℤ window))) [
  | inl inside ↦
      let reach : now ≤ℤ from +ℤ window = ground (arith, inside) in
      let late : now -ℤ window ≤ℤ from = omega int_laws in
      let before : All (λ u. u <ℤ from) t.old = All-map (λ u k. omega arith) t.old t.expired in
      let some_dq = count_in-length from window (dq ++ now ∷ []) in
      inl (
        rw
          (
            t.split,
            append_assoc,
            count_in-append from window t.old,
            count_in-below from window t.old before,
          )
          (omega (arith, length-append dq (now ∷ []), some_dq)))
  | inr outside ↦ inr (rw count_in-append (ground arith))
]
