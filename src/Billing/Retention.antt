-- ===== src/Billing/Retention.antt =====
-- The clean-up of webhook events (`cleanup_old_webhook_events` of
-- src/casino_bot/services/billing_service.py).
use casino_bot.Prelude.{
  ℕ, ◌+◌, ℤ, pos, pos_part, ◌-ℤ◌, ◌*ℤ◌, leb_ℤ, ◌||◌, ◌≡◌, Bool, true, false, All, length, select,
}
use casino_bot.Settings.{Settings}
use casino_bot.Database.{Session, EventStatus, received, processed, ignored, failed_event}

-- A row whose event is still to be dealt with, and one whose event has been.
abbrev pub is_open : EventStatus → Bool
is_open received = true
is_open failed_event = true
is_open processed = false
is_open ignored = false

module _ (settings : Settings) (now : ℤ) where
  -- The time from which on every row is kept: the days of the settings, in microseconds.
  abbrev pub keep_from : ℤ
  keep_from = now -ℤ pos (pos_part settings.billing.webhook_retention_days) *ℤ pos 86400000000

  -- What a clean-up leaves: it says how many rows it took, every row that is left is open or
  -- recent, every open row is still there, however old it is, and so is every recent row, whatever
  -- its status.
  pub record Cleans (s s' : Session) (deleted : ℕ) : Type 0 where
    pub counts : deleted + length s'.committed.webhook_events ≡ length s.work.webhook_events
    pub open_or_recent :
        All
          (λ row. (is_open row.status || leb_ℤ keep_from row.received_at) ≡ true)
          s'.committed.webhook_events
    pub still_open :
        select (λ row. is_open row.status) s'.committed.webhook_events
        ≡ select (λ row. is_open row.status) s.work.webhook_events
    pub recent :
        select (λ row. leb_ℤ keep_from row.received_at) s'.committed.webhook_events
        ≡ select (λ row. leb_ℤ keep_from row.received_at) s.work.webhook_events
