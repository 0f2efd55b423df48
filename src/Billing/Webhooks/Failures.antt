-- ===== src/Billing/Webhooks/Failures.antt =====
-- What an attempt that raises leaves of a new event
-- (`safe_process_webhook` of src/casino_bot/services/billing_service.py).
use Prim.Native.String.{String}
use casino_bot.Prelude.{
  ◌≡◌, refl, ap, sym, subst, ◌∙◌, Bool, true, false, str_eq, ℕ, Option, none, some, List, [], ◌∷◌,
  ◌++◌, first, update_first, first-append_one, arith,
}
use casino_bot.Python.{err, exception, http_exception}
use casino_bot.Settings.{Settings}
use casino_bot.Database.{User, BillingWebhookEvent, received, Tables, Session, is_found, begin_work}
use casino_bot.Billing.Events.{BillingClock, NormalizedBillingEvent}
use casino_bot.Billing.Sync.{
  upsert_subscription, save_subscription, subscription_or_new, synced, resolve_user,
  is_entitlement_active, text_or,
}
use casino_bot.Billing.Operations.{is_retryable}
use casino_bot.Billing.Webhooks.{
  has_external_id, has_event_id, received_event, start_attempt, current_row, processing_failed,
  safe_process_webhook, commit_or_fail, record_failure, process_normalized_event, is_unsupported,
  sync_event, mark_processed, bury_if_exhausted,
}
use casino_bot.Billing.Webhooks.Idempotent.{is_taken, bury-id, bury-held, upsert-SameEvents}
use casino_bot.Billing.Webhooks.Redelivery.{
  IsEvent, webhook-taken_in, row_for, row_for-held, added, attempt, new-handled,
}
use casino_bot.Billing.Routes.{Delivery, billing_webhook}

-- An update reaches the row that was added last, where no other row has its identifier.
update_first-append_one :
    {A : Type 0} (q : A → Bool) (y z : A) (xs : List A)
    → q z ≡ true
    → first q xs ≡ none
    → update_first q (λ _. y) (xs ++ z ∷ []) ≡ xs ++ y ∷ []
unfolding first update_first
update_first-append_one q y z [] h k = ground (arith, h)
update_first-append_one q y z (x ∷ xs) h k = ground (arith, k, update_first-append_one q y z xs h)

users-resolve :
    (event : NormalizedBillingEvent) (t t' : Tables)
    → t'.users ≡ t.users
    → resolve_user event t' ≡ resolve_user event t
unfolding resolve_user
users-resolve event t t' e = ground (arith, e)

module _ (settings : Settings) (clock : BillingClock) (row y : BillingWebhookEvent)
    (es : List BillingWebhookEvent) (fresh : first (has_event_id row.id) es ≡ none)
    (same : y.id ≡ row.id) where
  current-last : (t : Tables) → t.webhook_events ≡ es ++ y ∷ [] → current_row row t ≡ y
  current-last t e = ground (arith, e, fresh, same, first-append_one (has_event_id row.id) es y)

  failed-id : (processing_failed settings clock y).id ≡ row.id
  unfolding processing_failed
  failed-id = bury-id settings _ ∙ same

  record_failure-last :
      (s : Session)
      → s.work.webhook_events ≡ es ++ y ∷ []
      → ((record_failure settings clock row s).1.committed.webhook_events
          ≡ es ++ processing_failed settings clock y ∷ [])
  unfolding record_failure
  record_failure-last s e =
      let failed = processing_failed settings clock in
      subst
        (λ c.
          update_first (has_event_id (failed c).id) (λ _. failed c) s.work.webhook_events
          ≡ es ++ failed y ∷ [])
        (sym (current-last s.work e))
        (ap (update_first (has_event_id (failed y).id) (λ _. failed y)) e
          ∙ update_first-append_one (has_event_id (failed y).id) (failed y) y es
              (ground (arith, same, failed-id)) (ground (arith, fresh, failed-id)))

module _ (settings : Settings) (clock : BillingClock) (event : NormalizedBillingEvent)
    {n m : String}
    (bad : is_entitlement_active settings clock.entitled_at
        (text_or "unknown" event.status)
        event.current_period_end
      ≡ err (exception n m)) where
  upsert_raises :
      (user_id : ℕ) (s : Session)
      → (upsert_subscription settings clock event user_id s).0 ≡ err (exception n m)
  unfolding upsert_subscription save_subscription subscription_or_new synced
  upsert_raises user_id s = ground (arith, bad)

  process_raises :
      (row : BillingWebhookEvent) (s : Session) {user : User}
      → str_eq event.external_event_id "" ≡ false
      → is_unsupported event ≡ false
      → resolve_user event s.work ≡ some user
      → (let after = process_normalized_event settings clock row event s in
          (after.0 ≡ err (exception n m))
          × (after.1.work.webhook_events
              ≡ update_first
                  (has_event_id (start_attempt clock row).id)
                  (λ _. start_attempt clock row)
                  s.work.webhook_events))
  unfolding process_normalized_event sync_event mark_processed
  process_raises row s {user} i u r =
      let begun = begin_work s (record s.work {
        webhook_events =
            update_first (has_event_id (start_attempt clock row).id) (λ _. start_attempt clock row)
              s.work.webhook_events;
      }) in
      let r' : resolve_user event begun.work ≡ some user =
        users-resolve event s.work begun.work refl ∙ r in
      (
        ground (arith, i, u, r', upsert_raises user.id begun),
        ground (
          arith,
          i,
          u,
          r',
          upsert_raises user.id begun,
          upsert-SameEvents settings clock event user.id begun,
        ),
      )

module _ (settings : Settings) (d : Delivery) (event : NormalizedBillingEvent) {n m : String}
    (bad : is_entitlement_active settings d.clock.entitled_at
        (text_or "unknown" event.status)
        event.current_period_end
      ≡ err (exception n m)) where
  -- The row that the failure leaves.
  pub stranded : Session → BillingWebhookEvent
  stranded s =
      processing_failed settings d.clock (start_attempt d.clock (row_for settings d event s))

  attempt_strands :
      (s : Session) {user : User}
      → first (has_event_id s.work.next_event_id) s.work.webhook_events ≡ none
      → str_eq event.external_event_id "" ≡ false
      → is_unsupported event ≡ false
      → resolve_user event s.work ≡ some user
      → ((attempt settings d event s).0 ≡ err (http_exception 500 "Webhook processing failed"))
        × ((attempt settings d event s).1.committed.webhook_events
            ≡ s.work.webhook_events ++ stranded s ∷ [])
  unfolding safe_process_webhook commit_or_fail record_failure stranded added received_event
      start_attempt
  attempt_strands s {user} fresh i u r =
      let row = row_for settings d event s in
      let s' = added settings d event s in
      let ended =
        process_raises settings d.clock event bad row s' {user = user} i u
          (users-resolve event s.work s'.work refl ∙ r) in
      let row' = start_attempt d.clock row in
      let events =
        ended.1
        ∙ update_first-append_one (has_event_id row.id) row' row s.work.webhook_events
            (ground arith) fresh in
      let recorded =
        record_failure-last settings d.clock row row' s.work.webhook_events fresh refl
          (process_normalized_event settings d.clock row event s').1 events in
      (ground (arith, ended.0), ground (arith, ended.0, recorded))

  stranded-status : (s : Session) → (stranded s).status ≡ received
  unfolding stranded processing_failed bury_if_exhausted start_attempt received_event
  stranded-status s = ground arith

  stranded-held :
      (s : Session) → has_external_id event.provider event.external_event_id (stranded s) ≡ true
  unfolding stranded processing_failed start_attempt
  stranded-held s = bury-held settings event _ (row_for-held settings d event s)

  -- For a new event with an identifier, a status and a known user, whose identifier no row has,
  -- where the sum of the period's end and the grace period overflows: the delivery is answered with
  -- status 500, and the row that is committed for the event stays `received`, which no retry of
  -- failed events selects, whatever the provider that it is asked for.
  pub overflow_strands :
      (s : Session) {user : User}
      → IsEvent settings d event
      → is_taken event s.work ≡ false
      → first (has_event_id s.work.next_event_id) s.work.webhook_events ≡ none
      → str_eq event.external_event_id "" ≡ false
      → is_found event.status ≡ true
      → resolve_user event s.work ≡ some user
      → ((billing_webhook settings d s).0 ≡ err (http_exception 500 "Webhook processing failed"))
        × (first
              (has_external_id event.provider event.external_event_id)
              (billing_webhook settings d s).1.committed.webhook_events
            ≡ some (stranded s))
        × ((stranded s).status ≡ received)
        × ((provider : Option String) → is_retryable provider (stranded s) ≡ false)
  unfolding is_retryable is_unsupported
  overflow_strands s e untaken fresh i u r =
      let same = webhook-taken_in settings d event s e ∙ new-handled settings d event s untaken in
      let ended = attempt_strands s fresh i (ground (arith, u)) r in
      (
        ap (λ p. p.0) same ∙ ended.0,
        ap
              (λ p.
                first (has_external_id event.provider event.external_event_id)
                  p.1.committed.webhook_events)
              same
            ∙ (ap (first (has_external_id event.provider event.external_event_id)) ended.1
                ∙ ground (
                  arith,
                  first-append_one (has_external_id event.provider event.external_event_id)
                      s.work.webhook_events (stranded s),
                  untaken,
                  stranded-held s,
                )),
        stranded-status s,
        λ provider. ground (arith, stranded-status s),
      )
