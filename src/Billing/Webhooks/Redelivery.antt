-- ===== src/Billing/Webhooks/Redelivery.antt =====
-- Deliveries of one event to src/casino_bot/billing/api_v1.py: the second one finds the row of the
-- first.
use casino_bot.Prelude.{
  ◌≡◌, refl, ap, sym, subst, ◌∙◌, true, false, eq_iff, some, first-append_one, arith, Bool-cases,
  inl, inr,
}
use casino_bot.Python.{
  Result, ok, err, Result-cases, ◌>>=◌, pure, http_exception, http_coded, integrity_error,
  type_error, value_error, key_error, compliance_violation, operational_error, engine_rejected,
  exception,
}
use casino_bot.Settings.{Settings}
use casino_bot.Database.{BillingWebhookEvent, EventStatus, Session, begin_work, write}
use casino_bot.Billing.Events.{BillingClock, NormalizedBillingEvent}
use casino_bot.Billing.Providers.{Adapter, provider_adapter, parse_and_verify_webhook}
use casino_bot.Billing.Webhooks.{
  has_external_id, create_webhook_event, flushed_or_none, received_event, add_event,
  safe_process_webhook, commit_or_fail, record_failure, process_normalized_event,
}
use casino_bot.Billing.Webhooks.Idempotent.{is_taken, process-Kept}
use casino_bot.Billing.Routes.{
  WebhookReply, handled, idempotent, Delivery, reply_to, take_delivery, billing_webhook,
}

-- What a delivery that is handled leaves.
pub record IsTakenFor (event : NormalizedBillingEvent) (s : Session) : Type 0 where
  pub taken : is_taken event s.work ≡ true
  pub committed : s.committed ≡ s.work

module _ (settings : Settings) (clock : BillingClock) (event : NormalizedBillingEvent)
    (row : BillingWebhookEvent)
    (held : has_external_id event.provider event.external_event_id row ≡ true) where
  only_ok_returns :
      (r : Result EventStatus) (s : Session) {status : EventStatus}
      → (commit_or_fail settings clock row r s).0 ≡ ok status
      → r ≡ ok status
  unfolding commit_or_fail record_failure
  only_ok_returns (ok st) s h = h
  only_ok_returns (err (http_exception code detail)) s h = absurd (ground (arith, h))
  only_ok_returns (err (http_coded code detail message)) s h = absurd (ground (arith, h))
  only_ok_returns (err (integrity_error message)) s h = absurd (ground (arith, h))
  only_ok_returns (err (type_error m)) s h = absurd (ground (arith, h))
  only_ok_returns (err (value_error m)) s h = absurd (ground (arith, h))
  only_ok_returns (err (key_error m)) s h = absurd (ground (arith, h))
  only_ok_returns (err (compliance_violation m)) s h = absurd (ground (arith, h))
  only_ok_returns (err (operational_error m)) s h = absurd (ground (arith, h))
  only_ok_returns (err (engine_rejected c m w)) s h = absurd (ground (arith, h))
  only_ok_returns (err (exception n m)) s h = absurd (ground (arith, h))

  safe-IsTakenFor :
      (s : Session) {status : EventStatus}
      → is_taken event s.work ≡ true
      → (safe_process_webhook settings clock row event s).0 ≡ ok status
      → IsTakenFor event (safe_process_webhook settings clock row event s).1
  unfolding safe_process_webhook commit_or_fail
  safe-IsTakenFor s there h =
      let p = process_normalized_event settings clock row event s in
      let returned = only_ok_returns p.0 p.1 h in
      let k = process-Kept event row held settings clock event s there in
      rw returned (record { taken = k.there; committed = refl })

-- The delivery once its event is known.
abbrev pub taken_in :
    Settings → Delivery → NormalizedBillingEvent → Session → Result WebhookReply × Session
taken_in settings d event =
    create_webhook_event d.sha256 d.clock event d.body >>= reply_to settings d event

module _ (settings : Settings) (d : Delivery) (event : NormalizedBillingEvent) where
  abbrev pub row_for : Session → BillingWebhookEvent
  row_for s = received_event (d.sha256 d.body.bytes) d.clock s.work.next_event_id event

  pub row_for-held :
      (s : Session) → has_external_id event.provider event.external_event_id (row_for s) ≡ true
  unfolding received_event
  row_for-held s = ground (
    arith,
    (eq_iff event.provider event.provider).1 refl,
    (eq_iff event.external_event_id event.external_event_id).1 refl,
  )

  unfoldable pub added : Session → Session
  added s = (write (add_event (row_for s)) (begin_work s s.work)).1

  added-taken : (s : Session) → is_taken event (added s).work ≡ true
  unfolding added
  added-taken s = ground (
    arith,
    first-append_one (has_external_id event.provider event.external_event_id) s.work.webhook_events
        (row_for s),
    row_for-held s,
  )

  -- A taken event is answered at once, and nothing but the transaction ends.
  taken-idempotent :
      (s : Session)
      → is_taken event s.work ≡ true
      → s.committed ≡ s.work
      → taken_in settings d event s ≡ (ok idempotent, record s { in_transaction = false })
  unfolding create_webhook_event flushed_or_none reply_to
  taken-idempotent s t c = ground (arith, t, c)

  taken-answer :
      (s : Session) → is_taken event s.work ≡ true → (taken_in settings d event s).0 ≡ ok idempotent
  unfolding create_webhook_event flushed_or_none reply_to
  taken-answer s t = ground (arith, t)

  abbrev pub attempt : Session → Result WebhookReply × Session
  attempt s =
      (safe_process_webhook settings d.clock (row_for s) event >>= λ status. pure (handled status))
        (added s)

  handled-IsTakenFor :
      (s : Session) {status : EventStatus}
      → (attempt s).0 ≡ ok (handled status)
      → IsTakenFor event (attempt s).1
  handled-IsTakenFor s {status} h =
      elim (Result-cases (safe_process_webhook settings d.clock (row_for s) event (added s)).0) [
        | inl (st, o) ↦
            let after =
              safe-IsTakenFor settings d.clock event (row_for s) (row_for-held s) (added s)
                (added-taken s) o in
            record {
              taken = ground (arith, o, after.taken);
              committed = ground (arith, o, after.committed);
            }
        | inr (x, o) ↦ absurd (ground (arith, o, h))
      ]

  pub new-handled :
      (s : Session) → is_taken event s.work ≡ false → taken_in settings d event s ≡ attempt s
  unfolding create_webhook_event flushed_or_none reply_to added
  new-handled s f = ground (arith, f)

  reply-IsTakenFor :
      (s : Session) {status : EventStatus}
      → (taken_in settings d event s).0 ≡ ok (handled status)
      → IsTakenFor event (taken_in settings d event s).1
  reply-IsTakenFor s {status} h = elim (Bool-cases (is_taken event s.work)) [
    | inl t ↦ absurd (ground (arith, taken-answer s t, h))
    | inr f ↦
        subst (λ p. IsTakenFor event p.1) (sym (new-handled s f))
          (handled-IsTakenFor s (sym (ap (λ p. p.0) (new-handled s f)) ∙ h))
  ]

-- What the adapter of the provider makes of a delivery.
pub record IsEvent (settings : Settings) (d : Delivery) (event : NormalizedBillingEvent)
    : Type 0 where
  pub adapter : Adapter
  pub known : provider_adapter d.provider ≡ some adapter
  pub parsed : parse_and_verify_webhook adapter settings d.hmac d.now d.headers d.body ≡ ok event

pub webhook-taken_in :
    (settings : Settings) (d : Delivery) (event : NormalizedBillingEvent) (s : Session)
    → IsEvent settings d event
    → billing_webhook settings d s ≡ taken_in settings d event s
unfolding billing_webhook take_delivery
webhook-taken_in settings d event s e = rw (e.known, e.parsed) refl

-- Two deliveries of one event, by provider and identifier, whatever else they carry: when the first
-- has been handled, whatever the status that its attempt ended with, the second is answered
-- `idempotent`, and neither what the transaction sees nor what is committed changes.
pub redelivery_idem :
    (settings : Settings) (d again : Delivery) (event event' : NormalizedBillingEvent) (s : Session)
    {status : EventStatus}
    → IsEvent settings d event
    → IsEvent settings again event'
    → event'.provider ≡ event.provider
    → event'.external_event_id ≡ event.external_event_id
    → (billing_webhook settings d s).0 ≡ ok (handled status)
    → (let s' = (billing_webhook settings d s).1 in
        billing_webhook settings again s' ≡ (ok idempotent, record s' { in_transaction = false }))
redelivery_idem settings d again event event' s is_event is_event' ep ee h =
    let same = webhook-taken_in settings d event s is_event in
    let s' = (billing_webhook settings d s).1 in
    let after : IsTakenFor event s' =
      subst (λ p. IsTakenFor event p.1) (sym same)
        (reply-IsTakenFor settings d event s (sym (ap (λ p. p.0) same) ∙ h)) in
    webhook-taken_in settings again event' s' is_event'
    ∙ taken-idempotent settings again event' s' (rw (ep, ee) after.taken) after.committed
