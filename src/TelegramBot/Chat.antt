-- ===== src/TelegramBot/Chat.antt =====
-- The state behind the handlers of the bot (src/casino_bot/telegram_bot/handlers.py): the committed
-- tables, the buckets of the two rate limits, and what has been sent. `SessionLocal` of
-- src/casino_bot/db/session.py begins each session on the committed tables, and closing it drops
-- what is not committed.
use Prim.Native.String.{String}
use casino_bot.Prelude.{ℕ, ℤ, Bool, false, Option, List, [], ◌∷◌, ◌++◌, if◌then◌else◌}
use casino_bot.Python.{Action, Error, Result, ok, err}
use casino_bot.Database.{Tables, Session, Db, rollback}
use casino_bot.Games.Engine.{EngineWorld}
use casino_bot.TelegramBot.RateLimit.{Buckets}

pub record Button : Type 0 where
  pub label : String
  pub callback_data : String

-- The calls of the library that a user can see. `answered` is the answer to a callback, which
-- carries no text.
pub data Sent : Type 0 where
  reply_text : String → List Button → Sent
  edit_message_text reply_voice : String → Sent
  answered : Sent

pub record Chat : Type 0 where
  pub tables : Tables
  pub prompt_buckets : Buckets
  pub action_buckets : Buckets
  pub sent : List Sent

abbrev pub Bot : Type 0 → Type 0
Bot = Action Chat

-- What an update reads of the world: the monotonic clock, whether an edit of the message raises
-- `BadRequest`, whether a voice file exists and is delivered, whether the database answers a ping,
-- the text of the time at which a user was created (a column that the tables leave out), what the
-- reading of a user for the log raises, if anything, and what a game reads.
pub record Turn : Type 0 where
  pub clock : ℤ
  pub edit_fails : Bool
  pub voice : String → Bool
  pub database_answers : Bool
  pub created_at : ℕ → Option String
  pub log_lookup_raises : Option Error
  pub engine : EngineWorld

abbrev pub send : Sent → Bot (Unit {0})
send m c = (ok tt, record c { sent = c.sent ++ m ∷ [] })

abbrev pub reply : String → Bot (Unit {0})
reply body = send (reply_text body [])

-- `try: edit … except BadRequest: reply …`.
abbrev pub edit_or_reply : Turn → String → Bot (Unit {0})
edit_or_reply turn body =
    send (if turn.edit_fails then reply_text body [] else edit_message_text body)

-- `try: … except Exception as exc: …`, with the exception as a value.
abbrev pub attempt : {A : Type 0} → Bot A → Bot (Result A)
attempt m c = let (r, c') = m c in (ok r, c')

abbrev pub open_session : Tables → Session
open_session t = record { work = t; committed = t; in_transaction = false }

abbrev pub in_session : {A : Type 0} → Db A → Bot A
in_session m c = let (r, s) = m (open_session c.tables) in (r, record c { tables = s.committed })

-- `except Exception: db.rollback(); raise`.
abbrev pub or_rollback : {A : Type 0} → Result A × Session → Result A × Session
or_rollback (ok a, s) = (ok a, s)
or_rollback (err e, s) = (err e, (rollback s).1)

abbrev pub rolled_back : {A : Type 0} → Db A → Db A
rolled_back m s = or_rollback (m s)
