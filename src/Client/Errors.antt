-- ===== src/Client/Errors.antt =====
-- app/clients/hotel_erp_client.py: how a response becomes a typed exception.
use hotels_aggregator.Prelude.{ℕ, String, Option, none, some, ◌&&◌}
use hotels_aggregator.Prelude.Tests.{◌==◌, string_eq, if◌then◌else◌, leb, ltb}
use hotels_aggregator.Text.{◌<>◌}
use hotels_aggregator.Json.{Json, null, text, array, object, nil, Fields, member, truthy}
use hotels_aggregator.Exceptions.{
  hotel_erp_error, type_error, HotelErpError, HotelErpKind, base, hotel_unavailable,
  rooms_unavailable, hold_expired, idempotency_key_conflict, not_found, cancellation_not_allowed,
  unauthorized, rate_limited,
}
use hotels_aggregator.Outside.{Outside, Response, Content, json_body}
use hotels_aggregator.Exec.{Exec, pure, throw}

-- `HotelERPUnavailable(message, status)`
abbrev pub unavailable : Json → ℕ → HotelErpError
unavailable message status = record {
  kind = hotel_unavailable;
  status = status;
  code = text "HOTEL_UNAVAILABLE";
  message = message;
  details = object nil;
  trace_id = null;
}

-- `_CODE_EXCEPTIONS.get(code, HotelERPError)`
unfoldable pub code_exceptions : String → HotelErpKind
code_exceptions code =
    if code == "ROOMS_UNAVAILABLE"
    then rooms_unavailable
    else if code == "HOLD_EXPIRED"
    then hold_expired
    else if code == "IDEMPOTENCY_KEY_CONFLICT"
    then idempotency_key_conflict
    else if code == "NOT_FOUND"
    then not_found
    else if code == "CANCELLATION_NOT_ALLOWED"
    then cancellation_not_allowed
    else if code == "UNAUTHORIZED"
    then unauthorized
    else if code == "RATE_LIMITED"
    then rate_limited
    else base

-- The look-up with a key of any type: a list or a dict cannot be hashed.
unfoldable pub kind_of_code : Json → Option HotelErpKind
unfolding code_exceptions
kind_of_code (text code) = some (code_exceptions code)
kind_of_code (array _) = none
kind_of_code (object _) = none
kind_of_code _ = some base

-- `d.get(key, default)`
abbrev pub get_or : String → Json → Fields → Json
get_or k d fs = elim (member k fs) [ none ↦ d | some j ↦ j ]

-- What the body says of the error, over the defaults of the code and the message.
pub record ErrorFields : Type 0 where
  pub code : Json
  pub message : Json
  pub details : Json
  pub trace_id : Json

abbrev pub default_fields : Json → ErrorFields
default_fields message = record {
  code = text "INTERNAL_ERROR";
  message = message;
  details = object nil;
  trace_id = null;
}

abbrev pub fields_of_error : Json → Json → ErrorFields
fields_of_error message (object err) = record {
  code = get_or "code" (text "INTERNAL_ERROR") err;
  message = get_or "message" message err;
  details = get_or "details" (object nil) err;
  trace_id = get_or "trace_id" null err;
}
fields_of_error message _ = default_fields message

-- The `try` block of `_raise_for_error`. Where `error` is no dict, `.get` raises at once and the
-- defaults stay; a body that is no dict counts as an empty error.
unfoldable pub error_fields : Json → Content → ErrorFields
error_fields message (json_body (object body)) =
    fields_of_error message (get_or "error" (object nil) body)
error_fields message _ = default_fields message

abbrev pub or_empty : Json → Json
or_empty j = if truthy j then j else object nil

module _ (O : Outside) where
  open O use {State, int_text}

  abbrev pub throw_typed : ℕ → ErrorFields → Option HotelErpKind → Exec State (Unit {0})
  throw_typed status f none = throw type_error
  throw_typed status f (some kind) = throw (
      hotel_erp_error (record {
        kind = kind;
        status = status;
        code = f.code;
        message = f.message;
        details = or_empty f.details;
        trace_id = f.trace_id;
      }))

  -- `HotelERPClient._raise_for_error`
  unfoldable pub raise_for_error : Response → Exec State (Unit {0})
  unfolding error_fields kind_of_code
  raise_for_error r =
      let f = error_fields (text ("HTTP " <> int_text r.status_code)) r.content in
      if leb 200 r.status_code && ltb r.status_code 300
      then pure tt
      else if leb 500 r.status_code
      then throw (hotel_erp_error (unavailable f.message r.status_code))
      else throw_typed r.status_code f (kind_of_code f.code)
