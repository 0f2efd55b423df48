-- ===== src/Billing/Upserts.antt =====
-- The subscription that an event stores (`_upsert_subscription` of
-- src/casino_bot/services/billing_service.py).
use casino_bot.Prelude.{
  ℕ, ◌≡◌, refl, true, Option, none, some, List, [], ◌∷◌, first, update_first, first-append_one,
  arith, Option-cases, inl, inr,
}
use casino_bot.Python.{ok, ◌>>=◌}
use casino_bot.Settings.{Settings}
use casino_bot.Database.{Subscription, Session, is_found, first-is_found, begin_work}
use casino_bot.Billing.Events.{BillingClock, NormalizedBillingEvent}
use casino_bot.Billing.Signatures.{given}
use casino_bot.Billing.Sync.{
  add_subscription, sub_found_by, is_subscription, is_of_customer, save_subscription,
  new_subscription, put_subscription, upsert_subscription, subscription_or_new, synced,
  is_entitlement_active, has_subscription_id, text_or, matching_subscription,
}

-- What is stored is what is returned, with the fields of the event, and the entitlement is the one
-- that the status and the end of the period give.
pub record Stores (settings : Settings) (clock : BillingClock) (event : NormalizedBillingEvent)
    (user_id : ℕ) (s : Session) (sub : Subscription) : Type 0 where
  pub stored : first (has_subscription_id sub.id) s.work.subscriptions ≡ some sub
  pub owner : sub.user_id ≡ user_id
  pub status : sub.status ≡ text_or "unknown" event.status
  pub period_end : sub.current_period_end ≡ event.current_period_end
  pub entitled :
      is_entitlement_active settings clock.entitled_at sub.status sub.current_period_end
      ≡ ok sub.entitlement_active

-- A row of this identifier is replaced and found, where there is one.
put-found :
    (sub : Subscription) (xs : List Subscription)
    → is_found (first (has_subscription_id sub.id) xs) ≡ true
    → first (has_subscription_id sub.id) (update_first (has_subscription_id sub.id) (λ _. sub) xs)
      ≡ some sub
unfolding first update_first
put-found sub [] h = absurd (ground (arith, h))
put-found sub (x ∷ xs) h = ground (arith, h, put-found sub xs)

module _ (settings : Settings) (clock : BillingClock) (event : NormalizedBillingEvent)
    (user_id : ℕ) where
  save-Stores :
      (old : Subscription) (s : Session) {sub : Subscription}
      → is_found (first (has_subscription_id old.id) s.work.subscriptions) ≡ true
      → (save_subscription settings clock event user_id old s).0 ≡ ok sub
      → Stores settings clock event user_id
          (save_subscription settings clock event user_id old s).1
          sub
  unfolding save_subscription synced
  save-Stores old s {sub} there h =
      let first_put = put-found (synced event user_id old) s.work.subscriptions there in
      let second_put =
        put-found sub (put_subscription (synced event user_id old) s.work).subscriptions in
      let same : sub.id ≡ old.id = ground (arith, h) in
      record {
        stored = ground (arith, same, first_put, second_put, h);
        owner = ground (arith, h);
        status = ground (arith, h);
        period_end = ground (arith, h);
        entitled = ground (arith, h);
      }

  matching-found :
      (s : Session) {sub : Subscription}
      → matching_subscription event user_id s.work ≡ some sub
      → is_found (first (has_subscription_id sub.id) s.work.subscriptions) ≡ true
  unfolding matching_subscription
  matching-found s {sub} h =
      elim (Option-cases
        (sub_found_by (given event.subscription_id) (is_subscription event.provider) s.work)) [
          | inl e ↦ elim (Option-cases (given event.customer_id)) [
            | inl f ↦ absurd (ground (arith, e, f, h))
            | inr (c, f) ↦
                first-is_found (is_of_customer user_id event.provider c)
                  (has_subscription_id sub.id) s.work.subscriptions {x = sub}
                  (ground (arith, e, f, h)) (ground arith)
          ]
          | inr (found, e) ↦ elim (Option-cases (given event.subscription_id)) [
            | inl f ↦ absurd (ground (arith, e, f, h))
            | inr (c, f) ↦
                first-is_found (is_subscription event.provider c) (has_subscription_id sub.id)
                  s.work.subscriptions {x = sub} (ground (arith, e, f, h)) (ground arith)
          ]
        ]

  found-Stores :
      (found : Option Subscription) (s : Session) {sub : Subscription}
      → matching_subscription event user_id s.work ≡ found
      → ((subscription_or_new clock s.work.next_subscription_id event user_id found
            >>= save_subscription settings clock event user_id)
          s).0
        ≡ ok sub
      → Stores settings clock event user_id
          ((subscription_or_new clock s.work.next_subscription_id event user_id found
              >>= save_subscription settings clock event user_id)
            s).1
          sub
  unfolding subscription_or_new
  found-Stores none s {sub} e h =
      let new = new_subscription clock s.work.next_subscription_id user_id event in
      save-Stores new (begin_work s (add_subscription new s.work)) {sub = sub}
        (ground (arith, first-append_one (has_subscription_id new.id) s.work.subscriptions new)) h
  found-Stores (some old) s {sub} e h = save-Stores old s {sub = sub} (matching-found s e) h

  -- An event that is stored: what is returned is the row of its identifier in the tables, it belongs
  -- to the user, has the status and the end of the period that the event gives, and its entitlement
  -- is the one that these give at the time.
  pub upsert-Stores :
      (s : Session) {sub : Subscription}
      → (upsert_subscription settings clock event user_id s).0 ≡ ok sub
      → Stores settings clock event user_id
          (upsert_subscription settings clock event user_id s).1
          sub
  unfolding upsert_subscription
  upsert-Stores s {sub} h =
      found-Stores (matching_subscription event user_id s.work) (begin_work s s.work) {sub = sub}
        refl h
