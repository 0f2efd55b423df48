-- ===== src/Billing/Webhooks/Idempotent.antt =====
-- One effect for each event of a provider (src/casino_bot/services/billing_service.py): the unique
-- index of the events, and the attempts that keep a row under it.
use Prim.Native.String.{String}
use casino_bot.Prelude.{
  ℕ, ◌≡◌, refl, subst, Bool, true, ◌==◌, str_eq, Option, none, some, List, [], ◌∷◌, first,
  update_first, arith, Bool-cases, inl, inr, ◌⊎◌,
}
use casino_bot.Python.{bind-keeps}
use casino_bot.Settings.{Settings}
use casino_bot.Database.{
  User, Subscription, BillingWebhookEvent, Tables, Session, write, begin_work, is_found, audit_log,
  failed_event, processed,
}
use casino_bot.Billing.Events.{BillingClock, NormalizedBillingEvent}
use casino_bot.Billing.Sync.{
  upsert_subscription, save_subscription, subscription_or_new, resolve_user,
}
use casino_bot.Billing.Webhooks.{
  has_external_id, has_event_id, put_event, current_row, start_attempt, end_attempt,
  bury_if_exhausted, is_exhausted, ignore_event, fail_mapping, sync_event, mark_processed,
  is_unsupported, process_normalized_event,
}

-- The events are those of another state.
abbrev pub SameEvents : Tables → Tables → Type 0
SameEvents t t' = t'.webhook_events ≡ t.webhook_events

module _ (settings : Settings) (clock : BillingClock) (event : NormalizedBillingEvent)
    (user_id : ℕ) where
  pub upsert-SameEvents :
      (s : Session) → SameEvents s.work (upsert_subscription settings clock event user_id s).1.work
  unfolding upsert_subscription save_subscription subscription_or_new
  upsert-SameEvents s = ground arith

found-update_first :
    {A : Type 0} (p q : A → Bool) (y : A) (xs : List A)
    → p y ≡ true
    → is_found (first p xs) ≡ true
    → is_found (first p (update_first q (λ _. y) xs)) ≡ true
unfolding first update_first
found-update_first p q y [] h k = k
found-update_first p q y (x ∷ xs) h k = ground (arith, found-update_first p q y xs h)

-- An update of the row that a query finds makes it the row that the query finds.
first-updated :
    {A : Type 0} (q : A → Bool) (y : A) (xs : List A)
    → q y ≡ true
    → (first q (update_first q (λ _. y) xs) ≡ none)
      ⊎ (first q (update_first q (λ _. y) xs) ≡ some y)
unfolding first update_first
first-updated q y [] h = inl refl
first-updated q y (x ∷ xs) h = elim (Bool-cases (q x)) [
  | inl t ↦ inr (ground (arith, t, h))
  | inr f ↦ ground (arith, f, first-updated q y xs h)
]

-- A row of the event is in the tables, and what the session has of `row` is one.
pub record Kept (event : NormalizedBillingEvent) (row : BillingWebhookEvent) (t : Tables)
    : Type 0 where
  pub there :
      is_found (first (has_external_id event.provider event.external_event_id) t.webhook_events)
      ≡ true
  pub own : has_external_id event.provider event.external_event_id (current_row row t) ≡ true

abbrev pub is_taken : NormalizedBillingEvent → Tables → Bool
is_taken event t =
    is_found (first (has_external_id event.provider event.external_event_id) t.webhook_events)

same_id : (n : ℕ) → (n == n) ≡ true
same_id n = ground arith

pub bury-id :
    (settings : Settings) (y : BillingWebhookEvent) → (bury_if_exhausted settings y).id ≡ y.id
unfolding bury_if_exhausted
bury-id settings y = ground arith

pub bury-held :
    (settings : Settings) (event : NormalizedBillingEvent) (y : BillingWebhookEvent)
    → has_external_id event.provider event.external_event_id y ≡ true
    → has_external_id event.provider event.external_event_id (bury_if_exhausted settings y) ≡ true
unfolding bury_if_exhausted
bury-held settings event y h = elim (Bool-cases (is_exhausted settings y)) [
  | inl b ↦ rw b h
  | inr b ↦ rw b h
]

module _ (event : NormalizedBillingEvent) (row : BillingWebhookEvent)
    (held : has_external_id event.provider event.external_event_id row ≡ true) where
  put-Kept :
      (y : BillingWebhookEvent) (t : Tables)
      → y.id ≡ row.id
      → has_external_id event.provider event.external_event_id y ≡ true
      → is_taken event t ≡ true
      → Kept event row (put_event y t)
  put-Kept y t same h there = record {
    there = found-update_first _ (has_event_id y.id) y t.webhook_events h there;
    own =
        subst
          (λ i.
            has_external_id event.provider event.external_event_id
              (elim (first (has_event_id i)
                (update_first (has_event_id y.id) (λ _. y) t.webhook_events)) [
                  | none ↦ row
                  | some r ↦ r
                ])
            ≡ true)
          same
          (elim (first-updated (has_event_id y.id) y t.webhook_events (same_id y.id)) [
            | inl e ↦ rw e held
            | inr e ↦ rw e h
          ]);
  }

  Kept-SameEvents : {t t' : Tables} → SameEvents t t' → Kept event row t → Kept event row t'
  Kept-SameEvents {t} {t'} e k = record { there = rw e k.there; own = rw e k.own }

  module _ (settings : Settings) (clock : BillingClock) where
    begun : Session → Session
    begun s = (write (put_event (start_attempt clock row)) s).1

    begun-Kept : (s : Session) → is_taken event s.work ≡ true → Kept event row (begun s).work
    unfolding begun start_attempt
    begun-Kept s there = put-Kept (start_attempt clock row) s.work refl held there

    ignore-Kept :
        (code message : String) (s : Session)
        → is_taken event s.work ≡ true
        → Kept event row (ignore_event clock code message (start_attempt clock row) s).1.work
    unfolding ignore_event start_attempt end_attempt
    ignore-Kept code message s there = put-Kept _ s.work refl held there

    fail-Kept :
        (e : NormalizedBillingEvent) (s : Session)
        → is_taken event s.work ≡ true
        → Kept event row (fail_mapping settings clock e (start_attempt clock row) s).1.work
    unfolding fail_mapping start_attempt end_attempt audit_log
    fail-Kept e s there =
        let y = bury_if_exhausted settings (
          end_attempt failed_event "mapping_failed" "Unable to map event to user" clock
            (start_attempt clock row)) in
        let same : y.id ≡ row.id = bury-id settings _ in
        let k : Kept event row (put_event y s.work) =
          put-Kept y s.work same (bury-held settings event _ held) there in
        Kept-SameEvents refl k

    mark-Kept :
        (e : NormalizedBillingEvent) (user : User) (sub : Subscription) (s : Session)
        → is_taken event s.work ≡ true
        → Kept event row (mark_processed clock e (start_attempt clock row) user sub s).1.work
    unfolding mark_processed start_attempt audit_log
    mark-Kept e user sub s there =
        let k =
          put-Kept
            (record (start_attempt clock row) {
              status = processed;
              processed_at = some clock.processed_at;
            })
            s.work refl held there in
        record { there = k.there; own = k.own }

    sync-Kept :
        (e : NormalizedBillingEvent) (user : Option User) (s : Session)
        → Kept event row s.work
        → Kept event row (sync_event settings clock e (start_attempt clock row) user s).1.work
    unfolding sync_event
    sync-Kept e none s k = fail-Kept e s k.there
    sync-Kept e (some user) s k =
        let k' =
          Kept-SameEvents {t = s.work}
            {t' = (upsert_subscription settings clock e user.id s).1.work}
            (upsert-SameEvents settings clock e user.id s) k in
        bind-keeps (λ s. Kept event row s.work) (upsert_subscription settings clock e user.id)
          (mark_processed clock e (start_attempt clock row) user) s k'
          λ sub s' k. mark-Kept e user sub s' k.there

    pub process-Kept :
        (e : NormalizedBillingEvent) (s : Session)
        → is_taken event s.work ≡ true
        → Kept event row (process_normalized_event settings clock row e s).1.work
    unfolding process_normalized_event begun
    process-Kept e s there =
        let k = begun-Kept s there in
        elim (Bool-cases (str_eq e.external_event_id "")) [
          | inl u ↦ ground (
            arith,
            u,
            ignore-Kept "missing_external_event_id" "Missing external_event_id" (begun s) k.there,
          )
          | inr i ↦ elim (Bool-cases (is_unsupported e)) [
            | inl u ↦ ground (
              arith,
              i,
              u,
              ignore-Kept "unsupported_event" "Unsupported event type" (begun s) k.there,
            )
            | inr o ↦ ground (
              arith,
              i,
              o,
              sync-Kept e (resolve_user e (begun s).work) (begin_work (begun s) (begun s).work) k,
            )
          ]
        ]
