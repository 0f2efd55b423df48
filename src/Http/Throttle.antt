-- ===== src/Http/Throttle.antt =====
-- How many failed logins of one address pass the rate limit of
-- src/casino_bot/core/security_middleware.py in one window.
use Prim.Native.String.{String}
use casino_bot.Prelude.{
  ℕ, suc, ◌==◌, if◌then◌else◌, true, ◌+◌, ℤ, pos, ◌+ℤ◌, ◌-ℤ◌, ◌≤ℤ◌, leb_ℤ, int_laws, ◌≡◌, refl,
  eq_iff, some, List, [], ◌∷◌, ◌++◌, length, length-append, All, All-append_one, arith, Bool-cases,
  inl, inr, ◌⊎◌,
}
use casino_bot.Settings.{Settings}
use casino_bot.Http.{
  Request, or_text, joined, Hits, Answer, refused, passed, unlimited, window, get_limit,
  is_login_path, prune, counted_queue, limited, keyed, admit, finish, dispatch, set_queue,
}

-- The calls of a window that begins at a time.
pub record IsWithin (start now : ℤ) : Type 0 where
  pub began : start ≤ℤ now
  pub ends : now ≤ℤ start +ℤ window

prune_none :
    (start now : ℤ) (queue : List ℤ)
    → now ≤ℤ start +ℤ window
    → All (λ t. start ≤ℤ t) queue
    → prune now queue ≡ queue
unfolding prune
prune_none start now [] soon all = refl
prune_none start now (t ∷ queue) soon all =
    let began : start ≤ℤ t = all.0 in
    let late : now -ℤ t ≤ℤ window = omega int_laws in ground (arith, late)

-- Whether a request was passed on, as a number.
unfoldable pub passes : Answer → ℕ
passes (unlimited status) = 1
passes (refused limit) = 0
passes (passed status limit left) = 1

-- A login that is sent at a time, and the status with which the application would answer it.
pub record Attempt : Type 0 where
  pub request : Request
  pub at : ℤ
  pub status : ℕ

-- Whether the application has answered an attempt with 401, as a number.
unfoldable pub failures : Attempt → Answer → ℕ
unfolding passes
failures a answer = if a.status == 401 then passes answer else 0

-- How many of the attempts the application has answered with 401.
unfoldable pub failed_logins : Settings → List Attempt → Hits → ℕ
failed_logins settings [] hits = 0
failed_logins settings (a ∷ attempts) hits =
    let out = dispatch settings a.request a.at a.status hits in
    failures a out.0 + failed_logins settings attempts out.1

-- A login from an address by either path, whatever its method and its headers are, in the window.
pub record IsLoginFrom (ip : String) (start : ℤ) (a : Attempt) : Type 0 where
  pub address : or_text "unknown" a.request.client_host ≡ ip
  pub path : (a.request.path ≡ "/api/v1/admin/login") ⊎ (a.request.path ≡ "/admin/login")
  pub within : IsWithin start a.at

module _ (settings : Settings) (ip : String) where
  abbrev key : String
  key = joined "login" ip

  abbrev limit : ℤ
  limit = settings.login_rate_limit_per_minute

  is_login :
      (r : Request)
      → (r.path ≡ "/api/v1/admin/login") ⊎ (r.path ≡ "/admin/login")
      → is_login_path r ≡ true
  unfolding is_login_path
  is_login r (inl e) = rw e refl
  is_login r (inr e) = rw e refl

  limits :
      (r : Request)
      → or_text "unknown" r.client_host ≡ ip
      → is_login_path r ≡ true
      → get_limit settings r ≡ (some key, limit)
  unfolding get_limit
  limits r e login = rw (login, e) refl

  own_key : (queue : List ℤ) (hits : Hits) → set_queue key queue hits key ≡ queue
  own_key queue hits = ground (arith, (eq_iff key key).1 refl)

  -- One login: it fails if the queue is short enough, and is then counted, or counts for nothing.
  step :
      (start : ℤ) (a : Attempt) (hits : Hits)
      → IsLoginFrom ip start a
      → All (λ t. start ≤ℤ t) (hits key)
      → (let out = dispatch settings a.request a.at a.status hits in
          ((failures a out.0 ≡ 0) × (out.1 key ≡ hits key))
          ⊎ ((failures a out.0 ≡ 1)
              × (pos (suc (length (hits key))) ≤ℤ limit)
              × (out.1 key ≡ hits key ++ a.at ∷ [])))
  unfolding dispatch keyed limited admit finish counted_queue passes failures
  step start a hits from all =
      let now = a.at in
      let login = is_login a.request from.path in
      let keys = limits a.request from.address login in
      let kept = prune_none start now (hits key) from.within.ends all in
      let own = own_key (hits key) hits in
      elim (Bool-cases (leb_ℤ limit (pos (length (hits key))))) [
        | inl full ↦ inl (rw (keys, kept, full) (ground arith), rw (keys, kept, full) own)
        | inr room ↦ elim (Bool-cases (a.status == 401)) [
          | inr other ↦ inl (
            ground (arith, other),
            ground (
              arith,
              keys,
              kept,
              room,
              login,
              other,
              own,
              own_key (hits key) (set_queue key (hits key) hits),
            ),
          )
          | inl failed ↦ inr (
            ground (arith, keys, kept, room, login, failed),
            ground (arith, room),
            ground (
              arith,
              keys,
              kept,
              room,
              login,
              failed,
              own,
              own_key (hits key ++ now ∷ []) (set_queue key (hits key) hits),
            ),
          )
        ]
      ]

  counted_from :
      (start : ℤ) (attempts : List Attempt) (hits : Hits)
      → All (IsLoginFrom ip start) attempts
      → All (λ t. start ≤ℤ t) (hits key)
      → pos (length (hits key)) ≤ℤ limit
      → pos (failed_logins settings attempts hits + length (hits key)) ≤ℤ limit
  unfolding failed_logins
  counted_from start [] hits from all short = omega (arith, short)
  counted_from start (a ∷ attempts) hits from all short =
      let out = dispatch settings a.request a.at a.status hits in
      elim (step start a hits from.0 all) [
        | inl (none_failed, same) ↦
            let rest = counted_from start attempts out.1 from.1 (rw same all) (rw same short) in
            ground (arith, none_failed, same, rest)
        | inr (one_failed, room, more) ↦
            let longer : length (out.1 key) ≡ suc (length (hits key)) =
              rw (more, length-append (hits key) (a.at ∷ [])) (omega arith) in
            let rest =
              counted_from start attempts out.1 from.1
                (rw more (All-append_one (λ t. start ≤ℤ t) (hits key) a.at all from.0.within.began))
                (rw longer room) in
            ground (arith, one_failed, longer, rest)
      ]

  -- For a limit that is not negative, and any logins of one address within a minute, one after the
  -- other, by either path, with any method and headers, from a state without earlier ones: the
  -- application answers no more than the limit of them with 401.
  pub failed_logins_bounded :
      (start : ℤ) (attempts : List Attempt) (hits : Hits)
      → pos 0 ≤ℤ settings.login_rate_limit_per_minute
      → All (IsLoginFrom ip start) attempts
      → hits (joined "login" ip) ≡ []
      → pos (failed_logins settings attempts hits) ≤ℤ settings.login_rate_limit_per_minute
  failed_logins_bounded start attempts hits positive from fresh =
      let bound = counted_from start attempts hits from (rw fresh tt) (rw fresh positive) in
      ground (arith, fresh, bound)
