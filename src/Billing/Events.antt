-- ===== src/Billing/Events.antt =====
-- What the adapters of the payment providers give (src/casino_bot/billing/providers/base.py), and
-- the conversions that they share. Times are microseconds since 1970.
use Prim.Native.String.{String}
use casino_bot.Prelude.{ℤ, pos, negsuc, ◌*ℤ◌, leb_ℤ, Bool, ◌&&◌, Option, none, some, if◌then◌else◌}
use casino_bot.Python.{Result, ok, err, operational_error, str_ℤ}
use casino_bot.Python.Text.{parse_int}
use casino_bot.Python.Documents.{Value, nothing, numeral, string, boolean, array, object, is_true}

pub record NormalizedBillingEvent : Type 0 where
  pub provider : String
  pub external_event_id : String
  pub event_type : String
  pub occurred_at : Option ℤ
  pub customer_id : Option String
  pub subscription_id : Option String
  pub status : Option String
  pub plan_code : Option String
  pub current_period_end : Option ℤ
  pub cancel_at_period_end : Bool
  pub user_hint : Option ℤ
  pub raw : Value

pub record CheckoutSessionResult : Type 0 where
  pub provider : String
  pub checkout_url : String
  pub session_id : String
  pub customer_id : String

pub record PortalSessionResult : Type 0 where
  pub provider : String
  pub portal_url : String

-- The dictionary that `cancel_subscription` and `resume_subscription` return.
pub record ProviderSubscription : Type 0 where
  pub status : String
  pub cancel_at_period_end : Bool
  pub provider_subscription_id : String

-- The body of a webhook: its bytes, and what `json.loads` makes of them, which is nothing where it
-- raises.
pub record RawBody : Type 0 where
  pub bytes : String
  pub document : Option Value

-- The readings of the clock, by what they are for; `created_at` is the clock of the database.
pub record BillingClock : Type 0 where
  pub created_at : ℤ
  pub attempted_at : ℤ
  pub entitled_at : ℤ
  pub updated_at : ℤ
  pub processed_at : ℤ
  pub failed_at : ℤ
  pub replayed_at : ℤ

-- A value for a text column. The driver of the database refuses one of another type when it is
-- bound; here it is refused when it is read.
unfoldable pub text_or_none : Value → Result (Option String)
text_or_none nothing = ok none
text_or_none (string s) = ok (some s)
text_or_none _ = err (operational_error "type not supported by the database driver")

-- `str(value or "")`; the text of an array or an object is not written out.
unfoldable pub str_or_empty : Value → String
str_or_empty nothing = ""
str_or_empty (string s) = s
str_or_empty (numeral n) = if leb_ℤ n (pos 0) && leb_ℤ (pos 0) n then "" else str_ℤ n
str_or_empty (boolean b) = if b then "True" else ""
str_or_empty (array xs) = if is_true (array xs) then "[…]" else ""
str_or_empty (object fs) = if is_true (object fs) then "{…}" else ""

-- `_to_int` of src/casino_bot/billing/providers/stripe_adapter.py.
unfoldable pub to_int : Value → Option ℤ
to_int (numeral n) = some n
to_int (string s) = parse_int s
to_int (boolean b) = some (if b then pos 1 else pos 0)
to_int _ = none

-- The times that a `datetime` can hold, in seconds: those of the years 1 to 9999.
unfoldable pub is_date : ℤ → Bool
is_date n = leb_ℤ (negsuc 62135596799) n && leb_ℤ n (pos 253402300799)

abbrev pub max_datetime : ℤ
max_datetime = pos 253402300799999999

unfoldable pub of_timestamp : Option ℤ → Option ℤ
unfolding is_date
of_timestamp none = none
of_timestamp (some n) = if is_date n then some (n *ℤ pos 1000000) else none

-- `_to_dt`, for numbers that the clock of the platform can hold.
unfoldable pub to_dt : Value → Option ℤ
unfolding to_int of_timestamp
to_dt v = of_timestamp (to_int v)
