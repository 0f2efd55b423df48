-- ===== src/Lib.antt =====
-- casino_bot: a Telegram games bot with an internal, non-gambling token economy.
--
-- The parts of the program and how they interact. The Telegram handlers and the HTTP routes call
-- the game engine (src/casino_bot/games/service.py), which checks stake, access, cooldown and
-- balance, asks the game for its outcome, and hands the payout to the round service
-- (src/casino_bot/services/game_round_service.py). The round service writes one row per idempotency
-- key and moves the tokens through the ledger (src/casino_bot/services/economy_service.py), which
-- asks the compliance rules (src/casino_bot/compliance/) before it changes a balance. Beside them,
-- payment providers deliver events to the billing routes (src/casino_bot/billing/), whose adapters
-- check and read them, and the billing service turns them into subscriptions, which the gate of
-- paid operations (src/casino_bot/services/entitlement.py) reads.
--
-- Which file models which part:
--   Python      exceptions as values, calls on a state that may raise, dynamic values, dictionaries,
--               the text of integers, storage floats (kept as the quotient they are computed from);
--               Text (methods of texts, `int`), Numerals (what `str`
--               writes, `int` reads), Documents (what `json.loads` returns) and Decimal (quotients
--               and times as text)
--   Settings    src/casino_bot/settings.py, the fields that the rest reads and two methods
--   Tokens      src/casino_bot/services/token_amounts.py; Format prints amounts, Units has the laws
--   Compliance  src/casino_bot/compliance/{context,registry,constraints}.py; Checks has its laws
--   Database    src/casino_bot/db/models.py, src/casino_bot/admin/models.py (AuditLog) and
--               src/casino_bot/services/audit_service.py, with the session: the tables that the
--               transaction sees, the committed ones, and whether a transaction has begun
--   Economy     src/casino_bot/services/economy_service.py; Balances (balances and ledger sums),
--               Adjust (each way an adjustment ends) and Conservation (the token invariant)
--   Rounds      src/casino_bot/services/game_round_service.py; Requests, Steps (the call taken apart),
--               Outcomes, Found, Replay, Atomicity, Solvency, Polling, Sees and Users (its properties)
--   Games       src/casino_bot/games/: Types, Doubles (the floats of the draws), CoinFlip,
--               BonusWheel (and Odds), Policy, Registry, Outcomes (what a game pays), Presentation,
--               and Engine for service.py (and Engine/Admitted for a round that passes its checks,
--               Engine/Replay for a repeated call, Engine/Users for the users it leaves)
--   TelegramBot RateLimit for src/casino_bot/telegram_bot/rate_limit.py, with Windows (what pruning
--               keeps) and Limits (sequences of calls); Users for user_ops.py and flip_idempotency.py;
--               GameTexts and Texts for game_texts.py and texts.py; Delivery for
--               presentation_delivery.py; Polling for polling.py and preflight.py; for handlers.py
--               Stakes (what a keyboard offers), Chat (the state behind a handler) and Handlers:
--               Work (what runs in a session), Replies, Flip, Wheel, History and Commands. Of their
--               properties Sends (a handler that only sends), Sound, Ledger and Updates (the ledger
--               under updates), Redelivery, Keys, Buttons, Answered and Listing
--   Admin       Security for src/casino_bot/core/security.py; for
--               src/casino_bot/admin/security_service.py Lockout (and Attempts), Login (and Guarded,
--               when a login succeeds) and Sessions (with Steps, Rotation and Revocation);
--               Guards for src/casino_bot/admin/{deps,auth}.py, Accounts for
--               src/casino_bot/services/admin_accounts_service.py, Staff, Users and Logout for the
--               routes of src/casino_bot/admin/api_v1/{admins,me,users,login}.py; Books and Locked
--               have the properties of these routes
--   Http        src/casino_bot/core/security_middleware.py, the rate limits; Throttle counts logins
--   Billing     src/casino_bot/billing/ and src/casino_bot/services/billing_service.py: Events (what
--               adapters give), Signatures, Stripe, Paddle and Providers (the adapters), Masking
--               (src/casino_bot/core/pii.py), Sync (subscriptions), Webhooks (events and attempts),
--               Requests (of users), Operations (of administrators), Routes and Metrics; of their
--               properties Webhooks/Idempotent, Redelivery and Failures, Lifecycle (Attempts, Calls)
--               and Reachable (the rows over sequences of calls), Authentic, Readings, Retention and Upserts
--   Entitlements  src/casino_bot/services/{entitlement,entitlement_policy,subscription_admin_service}.py;
--               Gate has their properties
--   Backups     scripts/ops/verify_backup_manifest.py, with Artifact (the file and its sidecar) and
--               Report (the report and the exit code); of its properties Checks (what each check finds),
--               Sealed, Kinds (the fields by their kinds), Manifest and Exit
--   Tests       runs at concrete inputs
--
-- How the code is read. A Python function that touches the database is a function from a session to
-- a result and a session; a keyword argument is an argument or a field of a request record. What a
-- call reads of the world is an argument too: new identifiers, the clock, the draw of `random()`, a
-- conflict that the database reports, a failure of the database at the end of the adjustment, and
-- what the polls of a waiting call see and how late they wake. Times are microseconds, the wait of
-- the round service counts milliseconds. A draw is a number below 2^53, and a double of the bonus
-- wheel is its multiple of 2^-64 with rounding to the nearest even one.
--
-- Loops. The wait for another caller's round recurs on the accessibility of the time that is left;
-- every sleep takes at least ten of five hundred milliseconds. The digits of a number and the
-- normalisation of a double run on fuel: a number has no more digits than its successor counts, and
-- a quotient of the wheel is normalised in fewer than 64 doublings.
--
-- Updates of Telegram. A handler is a function on the committed tables, the buckets of the rate
-- limits and the messages sent so far. It opens a session where the code does; an exception of the
-- code outside a `try` ends it, and the library goes on with the next update. What it reads of the
-- world (a turn) is the clock, whether an edit fails, which voice files are delivered, whether the
-- database answers, what the reading of a user for the log raises, the text of the time a user was
-- created, and what a game reads.
--
-- What is not modelled. Rows that are added are seen at once by the session (the code flushes
-- before it reads them). The range of BIGINT columns, column lengths, isolation between
-- connections beyond what a call is told of them, logging and metrics are left out; a balance
-- column of floats is never read back. `repr` of a text adds quotes and no escapes. The libraries
-- for passwords, signed tokens and digests are parameters (Admin.Security.Crypto, and fields of a
-- delivery). Documents of JSON have no floats, and the text of an array or an object in them is
-- not written out; times beyond the clock of the platform and the counters of the metrics are
-- left out; the functions on texts know ASCII only; the host of a URL and the serialisation of a
-- document are arguments. Exceptions of the Telegram library other than a failed edit, and two
-- updates handled at the same time, are left out of the handlers; a payout is printed from its exact quotient, not from the float that stores it. The queries of
-- administrators, the validators of the settings, the legacy routes, the other middleware and the
-- other scripts of operations are outside this development.
pub mod Prelude
pub mod Python
pub mod Settings
pub mod Tokens
pub mod Compliance
pub mod Database
pub mod Economy
pub mod Rounds
pub mod Games
pub mod TelegramBot
pub mod Admin
pub mod Backups
pub mod Billing
pub mod Entitlements
pub mod Http
mod Tests
