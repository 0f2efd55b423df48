-- ===== src/Billing/Operations.antt =====
-- What administrators do with webhook events (src/casino_bot/services/billing_service.py): listing,
-- replay, release of dead letters, clean-up and the metrics.
use Prim.Native.String.{String}
use casino_bot.Prelude.{
  ℕ, suc, ℤ, pos, pos_part, ◌-ℤ◌, ◌*ℤ◌, ltb_ℤ, Bool, true, false, not, ◌&&◌, str_eq, Option, none,
  some, List, [], ◌∷◌, ◌++◌, length, first, select, if◌then◌else◌,
}
use casino_bot.Python.{Result, ok, err, http_exception, http_coded, lift, pure, ◌>>=◌, ◌>>◌}
use casino_bot.Python.Documents.{Value, is_true}
use casino_bot.Settings.{Settings}
use casino_bot.Database.{
  BillingWebhookEvent, EventStatus, received, ignored, failed_event, processed, Db, query, write,
  commit,
}
use casino_bot.Billing.Events.{BillingClock, NormalizedBillingEvent}
use casino_bot.Billing.Providers.{Adapter, provider_adapter}
use casino_bot.Billing.Signatures.{given}
use casino_bot.Billing.Webhooks.{
  has_event_id, put_event, process_normalized_event, current_row, bury_if_exhausted,
}

abbrev pub matches : {A : Type 0} → (A → Bool) → Option A → Bool
matches p none = true
matches p (some a) = p a

abbrev pub same_flag : Bool → Bool → Bool
same_flag true b = b
same_flag false b = not b

unfoldable pub status_name : EventStatus → String
status_name received = "received"
status_name ignored = "ignored"
status_name failed_event = "failed"
status_name processed = "processed"

unfoldable pub is_listed : Option String → Option String → Option Bool → BillingWebhookEvent → Bool
unfolding status_name
is_listed provider status dead_letter row =
    matches (str_eq row.provider) (given provider)
    && (matches (str_eq (status_name row.status)) (given status)
        && matches (same_flag row.dead_letter) dead_letter)

-- The rows of a table, the newest identifier first: rows are added at the end.
unfoldable pub reversed : {A : Type 0} → List A → List A
reversed [] = []
reversed (x ∷ xs) = reversed xs ++ x ∷ []

unfoldable pub take : {A : Type 0} → ℕ → List A → List A
take ℕ.zero xs = []
take (suc n) [] = []
take (suc n) (x ∷ xs) = x ∷ take n xs

unfoldable pub drop : {A : Type 0} → ℕ → List A → List A
drop ℕ.zero xs = xs
drop (suc n) [] = []
drop (suc n) (x ∷ xs) = drop n xs

unfoldable pub list_billing_events :
    Option String → Option String → Option Bool → ℕ → ℕ → Db (List BillingWebhookEvent × ℕ)
unfolding is_listed reversed take drop
list_billing_events provider status dead_letter skip limit = query λ t.
    let rows = select (is_listed provider status dead_letter) t.webhook_events in
    (take limit (drop skip (reversed rows)), length rows)

unfoldable pub event_or_404 : Option BillingWebhookEvent → Result BillingWebhookEvent
event_or_404 none = err (http_exception 404 "Billing event not found")
event_or_404 (some row) = ok row

unfoldable pub replayable : BillingWebhookEvent → Result Adapter
replayable row =
    if not (is_true row.raw_payload)
    then err (http_exception 400 "Replay payload unavailable")
    else elim (provider_adapter row.provider) [
      | none ↦ err (http_exception 400 "Unknown provider")
      | some adapter ↦ ok adapter
    ]

pub record ReplayResult : Type 0 where
  pub status : EventStatus
  pub attempts_count : ℤ
  pub dead_letter : Bool

-- The row after the attempt of a replay.
unfoldable pub replayed : Settings → BillingClock → BillingWebhookEvent → BillingWebhookEvent
unfolding bury_if_exhausted
replayed settings clock row =
    bury_if_exhausted settings (record row { last_replayed_at = some clock.replayed_at })

-- The end of a replay, after its attempt.
unfoldable pub finish_replay :
    Settings → BillingClock → BillingWebhookEvent → EventStatus → Db ReplayResult
finish_replay settings clock row status = do
  current ← query (current_row row)
  let after = replayed settings clock current
  write (put_event after)
  commit
  pure (record {
    status = status;
    attempts_count = after.attempts_count;
    dead_letter = after.dead_letter;
  })

unfoldable pub replay_event :
    Settings → BillingClock → BillingWebhookEvent → NormalizedBillingEvent → Db ReplayResult
replay_event settings clock row event =
    process_normalized_event settings clock row event >>= finish_replay settings clock row

-- `dumps` is `json.dumps`, of which the adapter reads the document again.
unfoldable pub replay_by :
    Settings
    → BillingClock
    → (dumps : Value → String) → BillingWebhookEvent
    → Adapter
    → Db ReplayResult
replay_by settings clock dumps row adapter =
    lift (
      adapter.parse_event
        (record { bytes = dumps row.raw_payload; document = some row.raw_payload }))
    >>= replay_event settings clock row

-- The part of a replay that has the row.
unfoldable pub replay_row :
    Settings → BillingClock → (dumps : Value → String) → BillingWebhookEvent → Db ReplayResult
unfolding replayable
replay_row settings clock dumps row = lift (replayable row) >>= replay_by settings clock dumps row

unfoldable pub replay_webhook_event :
    Settings → BillingClock → (dumps : Value → String) → ℕ → Db ReplayResult
unfolding event_or_404
replay_webhook_event settings clock dumps event_id = do
  found ← query (λ t. first (has_event_id event_id) t.webhook_events)
  row ← lift (event_or_404 found)
  replay_row settings clock dumps row

abbrev pub released : BillingWebhookEvent → BillingWebhookEvent
released row = record row { dead_letter = false; last_error_code = none; last_error_message = none }

unfoldable pub release : BillingWebhookEvent → Db Bool
release row = do write (put_event (released row)); commit; pure false

unfoldable pub undelete_dead_letter : ℕ → Db Bool
unfolding event_or_404
undelete_dead_letter event_id = do
  found ← query (λ t. first (has_event_id event_id) t.webhook_events)
  row ← lift (event_or_404 found)
  release row

unfoldable pub is_finished : EventStatus → Bool
is_finished processed = true
is_finished ignored = true
is_finished received = false
is_finished failed_event = false

abbrev pub day : ℤ
day = pos 86400000000

unfoldable pub cutoff : Settings → ℤ → ℤ
cutoff settings now = now -ℤ pos (pos_part settings.billing.webhook_retention_days) *ℤ day

unfoldable pub is_old : ℤ → BillingWebhookEvent → Bool
unfolding is_finished
is_old cutoff row = ltb_ℤ row.received_at cutoff && is_finished row.status

unfoldable pub cleanup_old_webhook_events : Settings → ℤ → Db (ℕ × ℤ)
cleanup_old_webhook_events settings now = do
  let limit = cutoff settings now
  deleted ← query (λ t. length (select (is_old limit) t.webhook_events))
  write λ t. record t { webhook_events = select (λ row. not (is_old limit row)) t.webhook_events }
  commit
  pure (deleted, limit)

unfoldable pub is_retryable : Option String → BillingWebhookEvent → Bool
is_retryable provider row = elim row.status [
  | failed_event ↦ not row.dead_letter && matches (str_eq row.provider) (given provider)
  | _ ↦ false
]

-- What one event of a batch has come to: its result, or the detail of the `HTTPException`.
unfoldable pub settled_item : Result ReplayResult → Result (Option ReplayResult)
settled_item (ok r) = ok (some r)
settled_item (err (http_exception code detail)) = ok none
settled_item (err (http_coded code detail message)) = ok none
settled_item (err e) = err e

abbrev pub add_item :
    ℕ → Option ReplayResult → List (ℕ × Option ReplayResult) → List (ℕ × Option ReplayResult)
add_item id r items = (id, r) ∷ items

-- The items of a batch; an exception that is no `HTTPException` ends it.
unfoldable pub replay_each :
    Settings
    → (ℕ → BillingClock)
    → (Value → String)
    → List BillingWebhookEvent
    → Db (List (ℕ × Option ReplayResult))
replay_each settings clocks dumps [] s = (ok [], s)
replay_each settings clocks dumps (row ∷ rows) s =
    let rest = replay_each settings clocks dumps rows in
    let (r, s') = replay_webhook_event settings (clocks row.id) dumps row.id s in
    (lift (settled_item r) >>= λ item. rest >>= λ items. pure (add_item row.id item items)) s'

unfoldable pub replay_failed_events :
    Settings
    → (ℕ → BillingClock)
    → (Value → String)
    → Option String
    → ℕ
    → Db (List (ℕ × Option ReplayResult))
unfolding is_retryable take
replay_failed_events settings clocks dumps provider limit = do
  rows ← query (λ t. take limit (select (is_retryable provider) t.webhook_events))
  replay_each settings clocks dumps rows
