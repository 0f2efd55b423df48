-- ===== src/Admin/Lockout/Attempts.antt =====
-- Enough failures in src/casino_bot/admin/security_service.py lock an identity for an address.
use Prim.Native.String.{String}
use casino_bot.Prelude.{
  ℕ, ◌≡◌, refl, ◌∙◌, ℤ, pos, ◌+ℤ◌, ◌-ℤ◌, ◌*ℤ◌, ◌≤ℤ◌, ◌<ℤ◌, leb_ℤ, ltb_ℤ, int_laws, true, false,
  some, List, [], ◌∷◌, length, All, first, first-holds, first-update_first, update_first, arith,
  Bool-cases, inl, inr,
}
use casino_bot.Settings.{Settings}
use casino_bot.Database.{AdminLoginLock, Session, is_found, first-is_found, audit_log}
use casino_bot.Admin.Security.{second}
use casino_bot.Admin.Lockout.{
  active_lock, concerns_address, is_locked, has_pair, lock_or_new, count_failure, is_over,
  lock_if_over, log_lockout, record_login_failure,
}

module _ (settings : Settings) (identity ip_address : String) where
  abbrev window : ℤ
  window = settings.attempt_window_seconds *ℤ pos second

  -- The session after failures at these times, each with the time that the database would give a
  -- new row.
  unfoldable pub failures : List (ℤ × ℤ) → Session → Session
  failures [] s = s
  failures ((now, created_at) ∷ times) s =
      failures times (record_login_failure settings identity ip_address now created_at s).1

  abbrev plain : ℤ → AdminLoginLock → AdminLoginLock
  plain now row = record row { attempts_count = row.attempts_count +ℤ pos 1; last_attempt_at = now }

  -- The row after a failure in its window.
  counted_at : ℤ → AdminLoginLock → AdminLoginLock
  counted_at now row = lock_if_over settings now (plain now row)

  module _ (now created_at : ℤ) (s : Session) {row : AdminLoginLock}
      (found : first (has_pair identity ip_address) s.work.login_locks ≡ some row)
      (soon : now ≤ℤ row.first_attempt_at +ℤ window) where
    counted_at_own : has_pair identity ip_address (counted_at now row) ≡ true
    unfolding counted_at lock_if_over
    counted_at_own =
        let held = first-holds (has_pair identity ip_address) s.work.login_locks row found in
        elim (Bool-cases (is_over settings (plain now row))) [
          | inl over ↦ rw over held
          | inr under ↦ rw under held
        ]

    locks_after :
        (record_login_failure settings identity ip_address now created_at s).1.work.login_locks
        ≡ update_first (has_pair identity ip_address) (λ _. counted_at now row) s.work.login_locks
    unfolding counted_at record_login_failure lock_or_new count_failure log_lockout audit_log
    locks_after =
        let late : now -ℤ window ≤ℤ row.first_attempt_at = omega int_laws in
        let in_window : ltb_ℤ row.first_attempt_at (now -ℤ window) ≡ false = ground (arith, late) in
        elim (Bool-cases (is_over settings (plain now row))) [
          | inl over ↦ ground (arith, found, in_window, over)
          | inr under ↦ ground (arith, found, in_window, under)
        ]

    failure_counts :
        first
          (has_pair identity ip_address)
          (record_login_failure settings identity ip_address now created_at s).1.work.login_locks
        ≡ some (counted_at now row)
    failure_counts = rw locks_after (
        first-update_first (has_pair identity ip_address) (counted_at now row) s.work.login_locks
          counted_at_own found)

  counted_at_keeps :
      (now : ℤ) (row : AdminLoginLock)
      → ((counted_at now row).attempts_count ≡ row.attempts_count +ℤ pos 1)
        × ((counted_at now row).first_attempt_at ≡ row.first_attempt_at)
  unfolding counted_at lock_if_over is_over
  counted_at_keeps now row = (ground arith, ground arith)

  -- Failures in the window of the first are all counted.
  record Counted (n : ℕ) (row : AdminLoginLock) (s : Session) : Type 0 where
    last : AdminLoginLock
    found : first (has_pair identity ip_address) s.work.login_locks ≡ some last
    attempts : last.attempts_count ≡ row.attempts_count +ℤ pos n
    same_start : last.first_attempt_at ≡ row.first_attempt_at

  failures-Counted :
      (times : List (ℤ × ℤ)) (s : Session) (row : AdminLoginLock)
      → first (has_pair identity ip_address) s.work.login_locks ≡ some row
      → All (λ t. t.0 ≤ℤ row.first_attempt_at +ℤ window) times
      → Counted (length times) row (failures times s)
  unfolding failures
  failures-Counted [] s row found soon = record {
    last = row;
    found = found;
    attempts = omega int_laws;
    same_start = refl;
  }
  failures-Counted ((now, created_at) ∷ times) s row found (soon, rest) =
      let (more, start) = counted_at_keeps now row in
      let next =
        failures-Counted times
          (record_login_failure settings identity ip_address now created_at s).1
          (counted_at now row) (failure_counts now created_at s found soon) (rw start rest) in
      record {
        last = next.last;
        found = next.found;
        attempts = next.attempts ∙ (rw more (omega int_laws));
        same_start = next.same_start ∙ start;
      }

  -- From a row of the identity and the address on, failures none of which is later than the window
  -- after its first attempt, the last of which brings the count to the maximum: until the lockout
  -- after the last failure has passed, a lock is found for the pair.
  pub enough_failures_lock :
      (times : List (ℤ × ℤ)) (now created_at check : ℤ) (s : Session) (row : AdminLoginLock)
      → first (has_pair identity ip_address) s.work.login_locks ≡ some row
      → All (λ t. t.0 ≤ℤ row.first_attempt_at +ℤ window) times
      → now ≤ℤ row.first_attempt_at +ℤ window
      → settings.max_login_attempts ≤ℤ row.attempts_count +ℤ pos (length times) +ℤ pos 1
      → check <ℤ now +ℤ settings.lockout_seconds *ℤ pos second
      → is_found (
          active_lock identity
            (some ip_address)
            check
            (record_login_failure settings identity ip_address now created_at
              (failures times s)).1.work)
        ≡ true
  unfolding active_lock counted_at lock_if_over is_over concerns_address is_locked
  enough_failures_lock times now created_at check s row found soon last_soon enough early =
      let c = failures-Counted times s row found soon in
      let counted =
        failure_counts now created_at (failures times s) c.found (rw c.same_start last_soon) in
      let reached : settings.max_login_attempts ≤ℤ c.last.attempts_count +ℤ pos 1 =
        rw c.attempts enough in
      let over : leb_ℤ settings.max_login_attempts (c.last.attempts_count +ℤ pos 1) ≡ true =
        ground (arith, reached) in
      let held =
        first-holds (has_pair identity ip_address) (failures times s).work.login_locks c.last
          c.found in
      first-is_found (has_pair identity ip_address) _ _ counted
        (rw over (ground (arith, held, early)))
