-- ===== src/Billing/Reachable.antt =====
-- The calls that change webhook events, as steps (src/casino_bot/billing/api_v1.py and
-- src/casino_bot/services/billing_service.py), and what every reachable state keeps.
use Prim.Native.String.{String}
use casino_bot.Prelude.{ℕ, ℤ, Option}
use casino_bot.Python.Documents.{Value}
use casino_bot.Settings.{Settings}
use casino_bot.Database.{Session, rollback}
use casino_bot.Billing.Events.{BillingClock}
use casino_bot.Billing.Operations.{
  undelete_dead_letter, cleanup_old_webhook_events, replay_webhook_event, replay_failed_events,
}
use casino_bot.Billing.Lifecycle.Calls.{
  webhook-OrderlyIn, replay-OrderlyIn, failed-OrderlyIn, undelete-OrderlyIn, cleanup-OrderlyIn,
}
use casino_bot.Billing.Lifecycle.{OrderlyIn}
use casino_bot.Billing.Routes.{Delivery, billing_webhook}

-- One call, or the rollback at the end of a request that raised.
pub data Step (settings : Settings) : Session → Session → Type 0 where
  delivered : (d : Delivery) (s : Session) → Step settings s (billing_webhook settings d s).1
  replayed_one :
      (clock : BillingClock) (dumps : Value → String) (id : ℕ) (s : Session)
      → Step settings s (replay_webhook_event settings clock dumps id s).1
  replayed_failed :
      (clocks : ℕ → BillingClock) (dumps : Value → String) (provider : Option String) (limit : ℕ)
      (s : Session)
      → Step settings s (replay_failed_events settings clocks dumps provider limit s).1
  undeleted : (id : ℕ) (s : Session) → Step settings s (undelete_dead_letter id s).1
  cleaned_up :
      (now : ℤ) (s : Session) → Step settings s (cleanup_old_webhook_events settings now s).1
  rolled_back : (s : Session) → Step settings s (rollback s).1

pub data Reaches (settings : Settings) : Session → Session → Type 0 where
  here : {s : Session} → Reaches settings s s
  after :
      {s s' s'' : Session} → Reaches settings s s' → Step settings s' s'' → Reaches settings s s''

module _ (settings : Settings) where
  Step-OrderlyIn :
      {s s' : Session} → Step settings s s' → OrderlyIn settings s → OrderlyIn settings s'
  Step-OrderlyIn (delivered d s) all = webhook-OrderlyIn settings d s all
  Step-OrderlyIn (replayed_one clock dumps id s) all =
      replay-OrderlyIn settings clock dumps id s all
  Step-OrderlyIn (replayed_failed clocks dumps provider limit s) all =
      failed-OrderlyIn settings clocks dumps provider limit s all
  Step-OrderlyIn (undeleted id s) all = undelete-OrderlyIn settings id s all
  Step-OrderlyIn (cleaned_up now s) all = cleanup-OrderlyIn settings now s all
  Step-OrderlyIn (rolled_back s) all = (all.1, all.1)

  -- Whatever deliveries, replays, releases, clean-ups and rollbacks have come, in whatever order, if
  -- it held before: of the rows that the transaction sees and of those that are committed, each that
  -- is processed, ignored or failed counts at least one attempt, each dead letter has had as many of
  -- them as the settings allow, and each row that is processed or ignored says when.
  pub reached-OrderlyIn :
      {s s' : Session} → Reaches settings s s' → OrderlyIn settings s → OrderlyIn settings s'
  reached-OrderlyIn here all = all
  reached-OrderlyIn (after r step) all = Step-OrderlyIn step (reached-OrderlyIn r all)
