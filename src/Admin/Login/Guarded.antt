-- ===== src/Admin/Login/Guarded.antt =====
-- When a login of src/casino_bot/admin/security_service.py can succeed.
use Prim.Native.String.{String}
use casino_bot.Prelude.{
  ℤ, ltb_ℤ, ◌≡◌, refl, Bool, true, ◌||◌, str_eq, if◌then◌else◌, List, [], ◌∷◌, ◌++◌, Option, none,
  some, first, arith, Option-cases, Bool-cases, inl, inr,
}
use casino_bot.Python.{Result, ok, err, http_exception, text}
use casino_bot.Settings.{Settings}
use casino_bot.Database.{AdminUser, AdminLoginLock, Session, audit_log, is_found}
use casino_bot.Admin.Security.{Crypto}
use casino_bot.Admin.Sessions.{IssuedTokens}
use casino_bot.Admin.Lockout.{
  active_lock, assert_not_locked, blocked_or_pass, concerns_address, is_locked, actor_name,
}
use casino_bot.Admin.Login.{
  LoginWorld, has_email, safe_ip, authenticated, fail_or_pass, fail_login, perform_admin_login,
}

first-append-found :
    {A : Type 0} (p : A → Bool) (before after : List A) (x : A)
    → p x ≡ true
    → is_found (first p (before ++ x ∷ after)) ≡ true
unfolding first
first-append-found p [] after x h = rw h refl
first-append-found p (y ∷ before) after x h = elim (Bool-cases (p y)) [
  | inl e ↦ rw e refl
  | inr e ↦ rw e (first-append-found p before after x h)
]

module _ (settings : Settings) (crypto : Crypto) (world : LoginWorld) (identity password : String)
    (ip_address user_agent : Option String) (s : Session) where
  abbrev login : Result IssuedTokens × Session
  login = perform_admin_login settings crypto world identity password ip_address user_agent s

  -- A row of the locks that holds at a time, for the address or for every one.
  pub record Holds (lock : AdminLoginLock) : Type 0 where
    pub until : ℤ
    pub own : str_eq lock.identity identity ≡ true
    pub here : (str_eq lock.ip_address (safe_ip ip_address) || str_eq lock.ip_address "*") ≡ true
    pub locked : lock.locked_until ≡ some until
    pub later : ltb_ℤ world.checked_at until ≡ true

  held_found :
      (before after : List AdminLoginLock) (lock : AdminLoginLock)
      → s.work.login_locks ≡ before ++ lock ∷ after
      → Holds lock
      → is_found (active_lock identity (some (safe_ip ip_address)) world.checked_at s.work) ≡ true
  unfolding active_lock concerns_address is_locked
  held_found before after lock e h =
      let until = h.locked in
      let own = h.own in
      let here = h.here in
      let later = h.later in
      rw e (first-append-found _ before after lock (ground (arith, until, own, here, later)))

  -- Where the table of the locks has a row of the identity, for the address or for every address,
  -- whose time is not over, a login is refused with status 429 whatever its password: the audit log
  -- has one more row, which says so, no session, no lock, no balance and no user changes, and all of
  -- this is committed.
  pub login_locked :
      (before after : List AdminLoginLock) (lock : AdminLoginLock)
      → s.work.login_locks ≡ before ++ lock ∷ after
      → Holds lock
      → (login.0 ≡ err (http_exception 429 "Too many login attempts"))
        × (login.1.work ≡ record s.work {
          audit_logs =
              s.work.audit_logs
              ++ record {
                actor = if str_eq identity "" then "unknown" else identity;
                action = "login_lockout_blocked";
                details =
                    some (
                      ("identity", text identity) ∷ ("ip_address", text (safe_ip ip_address)) ∷ []);
              }
                ∷ [];
        })
        × (login.1.committed ≡ login.1.work)
  unfolding perform_admin_login assert_not_locked blocked_or_pass audit_log actor_name
  login_locked before after lock e h =
      let found = held_found before after lock e h in
      elim (Option-cases
        (active_lock identity (some (safe_ip ip_address)) world.checked_at s.work)) [
          | inl none_locked ↦ absurd (ground (arith, found, none_locked))
          | inr (row, locked) ↦
              (ground (arith, locked), ground (arith, locked), ground (arith, locked))
        ]

  -- A login that succeeds is that of an active administrator of this identity, whose password the
  -- check accepts, and finds no lock.
  pub login_authenticates :
      {issued : IssuedTokens}
      → login.0 ≡ ok issued
      → (u : AdminUser) × (first (has_email identity) s.work.admin_users ≡ some u)
        × (u.is_active ≡ true)
        × (crypto.verify password u.password_hash ≡ true)
        × (active_lock identity (some (safe_ip ip_address)) world.checked_at s.work ≡ none)
  unfolding perform_admin_login assert_not_locked blocked_or_pass audit_log authenticated
      fail_or_pass fail_login
  login_authenticates done =
      elim (Option-cases
        (active_lock identity (some (safe_ip ip_address)) world.checked_at s.work)) [
          | inr (lock, locked) ↦ absurd (ground (arith, done, locked))
          | inl unlocked ↦ elim (Option-cases (first (has_email identity) s.work.admin_users)) [
            | inl nobody ↦ absurd (ground (arith, done, unlocked, nobody))
            | inr (u, known) ↦ elim (Bool-cases u.is_active) [
              | inr idle ↦ absurd (ground (arith, done, unlocked, known, idle))
              | inl active ↦ elim (Bool-cases (crypto.verify password u.password_hash)) [
                | inr wrong ↦ absurd (ground (arith, done, unlocked, known, active, wrong))
                | inl right ↦ (u, known, active, right, unlocked)
              ]
            ]
          ]
        ]
