-- ===== src/Outside.antt =====
-- What the service calls and does not implement: the clock, UUIDs, HTTP, Redis, the payment
-- provider's SDK, Fernet, and the texts that Python's libraries print. `State` is the state of
-- all that; a call takes it and returns the one after.
use hotels_aggregator.Prelude.{ℕ, String, Bool, Option, List}
use hotels_aggregator.Prelude.Int.{ℤ}
use hotels_aggregator.Json.{Json, Fields, Decimal}

-- The arguments of `httpx.AsyncClient.request`.
pub record HttpRequest : Type 0 where
  pub method : String
  pub url : String
  pub params : Option Json
  pub json : Option Json
  pub headers : List (String × String)

pub data Content : Type 0 where
  no_content : Content
  -- `response.json()` raises
  not_json : Content
  json_body : Json → Content

pub record Response : Type 0 where
  pub status_code : ℕ
  pub content : Content

-- `httpx.TimeoutException` and `httpx.TransportError`, by the name of their type.
pub data HttpOutcome : Type 0 where
  response : Response → HttpOutcome
  transport_failure : String → HttpOutcome

-- What `stripe`'s calls do: an object with its id and status, a CardError that carries the id of
-- the declined intent (or the empty text), or another StripeError.
pub data StripeOutcome : Type 0 where
  object : (id status : String) → StripeOutcome
  card_error : (payment_intent message : String) → StripeOutcome
  stripe_error : (message : String) → StripeOutcome

pub record Outside : Type 1 where
  pub State : Type 0
  -- `datetime.now(timezone.utc)`, in microseconds
  pub now : State → ℕ × State
  pub uuid4 : State → ℕ × State
  -- `asyncio.sleep`, in microseconds
  pub sleep : ℕ → State → State
  pub http_request : HttpRequest → State → HttpOutcome × State
  pub redis_get : String → State → Option String × State
  pub redis_set : (key value : String) (ex : ℕ) → State → State
  pub redis_delete : String → State → State
  pub stripe_create_intent :
      (amount : Json) (currency payment_method : String) → State → StripeOutcome × State
  pub stripe_capture : String → State → StripeOutcome × State
  pub stripe_refund : (payment_intent : String) (amount : ℤ) → State → StripeOutcome × State
  -- Fernet; `none` is InvalidToken
  pub decrypt_secret : String → Option String
  -- `str(uuid)`
  pub uuid_text : ℕ → String
  -- `date.isoformat()`
  pub date_text : ℕ → String
  -- `datetime.fromisoformat`; `none` is ValueError
  pub parse_datetime : String → Option ℕ
  -- `json.dumps` and `json.loads`; `none` is JSONDecodeError
  pub dumps : Json → String
  pub loads : String → Option Json
  -- `str(n)` of a number
  pub int_text : ℕ → String
  -- `float(x)`; `none` is TypeError or ValueError
  pub to_float : Json → Option Decimal
  -- `x > 0` on a float
  pub is_positive : Decimal → Bool
  -- `int(round(amount * percentage / 100.0))` in floating point
  pub percent_of : ℤ → Decimal → ℤ
  -- `s.lower()` and `s.upper()`
  pub lower : String → String
  pub upper : String → String
  -- `datetime.isoformat()`
  pub datetime_text : ℕ → String
  -- `int(s)`; `none` is ValueError
  pub parse_int : String → Option ℤ
  -- `str(n)` of a signed number
  pub signed_text : ℤ → String
  -- `uuid.UUID(s)`; `none` is ValueError
  pub parse_uuid : String → Option ℕ
  -- `hmac.new(secret, message, hashlib.sha256).hexdigest()`
  pub hmac_sha256_hex : (secret message : String) → String
  -- whether the database refuses the next statement: a lost connection, a value out of range
  pub database_fails : State → Bool × State
  -- whether reading an attribute of an object that a session's rollback has passed over raises
  -- MissingGreenlet, as SQLAlchemy does when the rollback expired the object
  pub expired_read_fails : State → Bool × State
  -- Fernet's `encrypt`, which takes a new initialisation vector
  pub encrypt_secret : String → State → String × State
  -- `bcrypt.hashpw` with a new salt, and `bcrypt.checkpw`; `none` is ValueError
  pub bcrypt_hashpw : String → State → String × State
  pub bcrypt_checkpw : (plaintext hashed : String) → Option Bool
  -- `jwt.encode` under the service's key, and `jwt.decode`, which looks at the time; `none` is
  -- JWTError
  pub jwt_encode : Fields → String
  pub jwt_decode : String → State → Option Fields × State
