-- ===== src/Exceptions.antt =====
-- The exceptions that cross the code's functions: OrchestratorError of app/services/orchestrator.py,
-- the typed errors of app/clients/hotel_erp_client.py, FastAPI's HTTPException, and the errors
-- of Python and of the database driver that no handler names.
use hotels_aggregator.Prelude.{ℕ, String}
use hotels_aggregator.Json.{Json}

pub record OrchestratorError : Type 0 where
  pub code : String
  pub message : String
  pub status : ℕ

-- The subclasses of HotelERPError; `base` is the class itself.
pub data HotelErpKind : Type 0 where
  base hotel_unavailable rooms_unavailable hold_expired idempotency_key_conflict not_found
        cancellation_not_allowed unauthorized rate_limited :
      HotelErpKind

pub record HotelErpError : Type 0 where
  pub kind : HotelErpKind
  pub status : ℕ
  pub code : Json
  pub message : Json
  pub details : Json
  pub trace_id : Json

-- `detail` is a text, or a dict with a code and a message.
pub data Detail : Type 0 where
  plain : String → Detail
  coded : (code message : Json) → Detail
  coded_with : (code message details : Json) → Detail

pub record HttpException : Type 0 where
  pub status_code : ℕ
  pub detail : Detail

pub data Exn : Type 0 where
  orchestrator_error : OrchestratorError → Exn
  hotel_erp_error : HotelErpError → Exn
  http_exception : HttpException → Exn
  -- raised by the driver when a unique constraint is violated
  integrity_error : Exn
  -- any other failure of a statement
  database_error : Exn
  -- KeyError, TypeError, AttributeError and ValueError on a malformed reply
  key_error : String → Exn
  type_error : Exn
  value_error : Exn
  -- raised by Fernet on a ciphertext of another key
  invalid_token : Exn
  -- raised by SQLAlchemy on reading an object that a rollback has expired
  missing_greenlet : Exn
