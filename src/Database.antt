-- ===== src/Database.antt =====
-- The tables that the components share (src/casino_bot/db/models.py,
-- src/casino_bot/admin/models.py), and the session over them.
--
-- A table is the list of its rows in the order of their insertion; a `query.first()` that gives no
-- order returns the first row that matches. Rows that were added are seen by the later queries of
-- the session: the code flushes before it reads what it added. A primary key that no code reads is
-- left out. Times are microseconds on one clock.
use casino_bot.Prelude.{
  ℕ, ℤ, Bool, true, false, String, str_eq, Option, none, some, List, [], ◌∷◌, ◌++◌, ◌&&◌, ◌||◌,
  ◌==◌, first, not, ◌≡◌, arith,
}
use casino_bot.Python.Documents.{Value}
use casino_bot.Python.{
  Action, Result, ok, err, integrity_error, Dict, StorageFloat, raise_if, ◌>>=◌, ◌>>◌,
}

pub record User : Type 0 where
  pub id : ℕ
  pub is_active : Bool
  pub internal_note : Option String
  pub telegram_user_id : Option ℤ
  pub whatsapp_phone_e164 : Option String
  pub billing_customer_id : Option String

pub record TokenAccount : Type 0 where
  pub user_id : ℕ
  pub balance : StorageFloat
  pub balance_units : ℤ

pub record LedgerEntry : Type 0 where
  pub user_id : ℕ
  pub delta : StorageFloat
  pub delta_units : ℤ
  pub reason : String

-- The values of the column `status`.
pub data RoundStatus : Type 0 where
  committed rejected failed : RoundStatus

pub record GameRound : Type 0 where
  pub round_id : String
  pub user_id : ℕ
  pub game_id : String
  pub idempotency_key : String
  pub bet_amount : StorageFloat
  pub bet_units : ℤ
  pub payout_delta : StorageFloat
  pub payout_units : ℤ
  pub status : RoundStatus
  pub details_json : Option Dict
  pub committed_at : Option ℕ

pub record AuditLog : Type 0 where
  pub actor : String
  pub action : String
  pub details : Option Dict

pub record AdminUser : Type 0 where
  pub id : ℕ
  pub email : String
  pub password_hash : String
  pub role : String
  pub is_active : Bool

pub record AdminSession : Type 0 where
  pub id : String
  pub admin_user_id : ℕ
  pub refresh_token_hash : String
  pub user_agent : Option String
  pub ip_address : Option String
  pub expires_at : ℤ
  pub revoked_at : Option ℤ
  pub last_used_at : Option ℤ
  pub rotated_from_session_id : Option String

pub record AdminLoginLock : Type 0 where
  pub identity : String
  pub ip_address : String
  pub attempts_count : ℤ
  pub first_attempt_at : ℤ
  pub last_attempt_at : ℤ
  pub locked_until : Option ℤ

pub record Subscription : Type 0 where
  pub id : ℕ
  pub user_id : ℕ
  pub provider : String
  pub external_subscription_id : Option String
  pub provider_customer_id : Option String
  pub provider_subscription_id : Option String
  pub status : String
  pub plan_code : String
  pub current_period_end : Option ℤ
  pub cancel_at_period_end : Bool
  pub entitlement_active : Bool
  pub created_at : ℤ
  pub updated_at : ℤ

-- The values of the column `status` of a webhook event.
pub data EventStatus : Type 0 where
  received ignored failed_event processed : EventStatus

pub record BillingWebhookEvent : Type 0 where
  pub id : ℕ
  pub provider : String
  pub external_event_id : String
  pub event_type : String
  pub payload_hash : String
  pub received_at : ℤ
  pub processed_at : Option ℤ
  pub status : EventStatus
  pub error_message : Option String
  pub raw_payload : Value
  pub attempts_count : ℤ
  pub dead_letter : Bool
  pub last_replayed_at : Option ℤ
  pub last_attempt_at : Option ℤ
  pub last_error_code : Option String
  pub last_error_message : Option String

pub record Tables : Type 0 where
  pub users : List User
  pub accounts : List TokenAccount
  pub ledger : List LedgerEntry
  pub rounds : List GameRound
  pub audit_logs : List AuditLog
  pub next_user_id : ℕ
  pub admin_users : List AdminUser
  pub admin_sessions : List AdminSession
  pub login_locks : List AdminLoginLock
  pub subscriptions : List Subscription
  pub webhook_events : List BillingWebhookEvent
  pub next_subscription_id : ℕ
  pub next_event_id : ℕ

-- `work` is what the transaction sees, `committed` what a rollback returns to.
pub record Session : Type 0 where
  pub work : Tables
  pub committed : Tables
  pub in_transaction : Bool

abbrev pub Db : Type 0 → Type 0
Db = Action Session

-- A query or a write begins a transaction.
abbrev pub begin_work : Session → Tables → Session
begin_work s t = record s { work = t; in_transaction = true }

abbrev pub query : {A : Type 0} → (Tables → A) → Db A
query f s = (ok (f s.work), begin_work s s.work)

abbrev pub write : (Tables → Tables) → Db (Unit {0})
write f s = (ok tt, begin_work s (f s.work))

abbrev pub commit : Db (Unit {0})
commit s = (ok tt, record { work = s.work; committed = s.work; in_transaction = false })

abbrev pub rollback : Db (Unit {0})
rollback s = (ok tt, record { work = s.committed; committed = s.committed; in_transaction = false })

abbrev pub has_user : ℕ → User → Bool
has_user user_id u = u.id == user_id

abbrev pub has_account : ℕ → TokenAccount → Bool
has_account user_id a = a.user_id == user_id

-- The columns of the unique index `uq_game_rounds_user_game_idempotency_key`.
abbrev pub has_key : ℕ → String → String → GameRound → Bool
has_key user_id game_id idempotency_key r =
    r.user_id == user_id && (str_eq r.game_id game_id && str_eq r.idempotency_key idempotency_key)

abbrev pub has_round_id : String → GameRound → Bool
has_round_id round_id r = str_eq r.round_id round_id

abbrev pub is_found : {A : Type 0} → Option A → Bool
is_found none = false
is_found (some _) = true

-- A row that one query finds is one that another finds, or comes after one.
pub first-is_found :
    {A : Type 0} (p q : A → Bool) (xs : List A) {x : A}
    → first p xs ≡ some x
    → q x ≡ true
    → is_found (first q xs) ≡ true
unfolding first
first-is_found p q [] h k = absurd (ground (arith, h))
first-is_found p q (y ∷ xs) {x} h k = ground (arith, first-is_found p q xs {x = x}, h, k)

-- The constraints that an insert into `game_rounds` can break: the two unique indexes and the
-- foreign key to the users.
unfoldable pub violates_round_constraints : GameRound → Tables → Bool
violates_round_constraints r t =
    is_found (first (has_key r.user_id r.game_id r.idempotency_key) t.rounds)
    || (is_found (first (has_round_id r.round_id) t.rounds)
        || not (is_found (first (has_user r.user_id) t.users)))

-- `db.add(round); db.flush()`.
unfoldable pub insert_round : GameRound → Db (Unit {0})
unfolding violates_round_constraints
insert_round r = do
  violated ← query (violates_round_constraints r)
  raise_if violated (integrity_error "game_rounds")
  write λ t. record t { rounds = t.rounds ++ r ∷ [] }

-- `audit_log` of src/casino_bot/services/audit_service.py.
unfoldable pub audit_log : String → String → Option Dict → Db (Unit {0})
audit_log actor action details = write λ t. record t {
  audit_logs = t.audit_logs ++ record { actor = actor; action = action; details = details } ∷ [];
}

-- The state after a block that began with the tables `t`, inside a transaction or not.
abbrev pub close_block : {A : Type 0} → Bool → Tables → Result A → Session → Session
close_block true t (ok a) s = s
close_block true t (err e) s = record s { work = t }
close_block false t (ok a) s = (commit s).1
close_block false t (err e) s = (rollback s).1

-- `with db.begin_nested() if db.in_transaction() else db.begin():` around a block: an exception
-- undoes the block's writes, and the outermost block commits.
abbrev pub end_block : {A : Type 0} → Session → Result A × Session → Result A × Session
end_block s (r, s') = (r, close_block s.in_transaction s.work r s')

unfoldable pub in_block : {A : Type 0} → Db A → Db A
in_block m s = end_block s (m (begin_work s s.work))
