-- ===== src/Payment/Webhook.antt =====
-- app/api/routes/payments.py: the status endpoint and the receiver of Stripe's webhooks. Stripe's
-- `construct_event` is a parameter: it gives the event of a body with a good signature.
use hotels_aggregator.Prelude.{ℕ, String, Bool, Option, none, some, List}
use hotels_aggregator.Prelude.Tests.{◌==◌, ◌!=◌, nat_eq, string_eq, if◌then◌else◌}
use hotels_aggregator.Text.{nonempty}
use hotels_aggregator.Json.{Json, text, object, member, truthy}
use hotels_aggregator.Table.{get, scalar, select}
use hotels_aggregator.Models.Bookings.{
  BookingReference, PaymentTransaction, PaymentStatus, failed, refunded,
}
use hotels_aggregator.Exceptions.{Exn, http_exception, plain, type_error}
use hotels_aggregator.Outside.{Outside}
use hotels_aggregator.Exec.{
  Exec, pure, throw, reads, modifies, commit, ◌>>=◌, ◌>>◌, subscript, as_text,
}
use hotels_aggregator.Payment.Service.{write_payment}

-- The filter on the gateway's reference.
unfoldable pub has_ref : String → PaymentTransaction → Bool
has_ref ref p = p.gateway_ref == ref

unfoldable pub pays_for : ℕ → PaymentTransaction → Bool
pays_for agg_booking_id p = p.agg_booking_id == agg_booking_id

abbrev pub not_found : Exn
not_found = http_exception (record { status_code = 404; detail = plain "Booking not found" })

module _ (O : Outside) where
  open O use {State}

  unfoldable pub mark_found : PaymentStatus → Option PaymentTransaction → Exec State (Unit {0})
  mark_found status none = pure tt
  mark_found status (some payment) =
      modifies (write_payment (record payment { status = status })) >> commit

  -- `_mark_payment_status`
  unfoldable pub mark_payment_status : String → PaymentStatus → Exec State (Unit {0})
  unfolding mark_found
  mark_payment_status gateway_ref status = do
    payment ← reads (λ d. scalar (has_ref gateway_ref) d.payments)
    mark_found status payment

  -- `data.get("payment_intent")` and its test.
  unfoldable pub mark_refunded : Option Json → Exec State (Unit {0})
  mark_refunded none = pure tt
  mark_refunded (some intent) =
      if truthy intent then (do ref ← as_text intent; mark_payment_status ref refunded) else pure tt

  unfoldable pub on_refund : Json → Exec State (Unit {0})
  unfolding mark_refunded
  on_refund (object fs) = mark_refunded (member "payment_intent" fs)
  on_refund _ = throw type_error

  unfoldable pub handle_event : (data_object event_type : Json) → Exec State (Unit {0})
  handle_event data_object (text event_type) =
      if event_type == "payment_intent.payment_failed"
      then (do id ← subscript "id" data_object; ref ← as_text id; mark_payment_status ref failed)
      else if event_type == "charge.refunded"
      then on_refund data_object
      else pure tt
  handle_event data_object _ = pure tt

  -- The verified event, or the answer 401.
  unfoldable pub apply_event : Option Json → Exec State ℕ
  apply_event none = pure 401
  apply_event (some event) = do
    data_ ← subscript "data" event
    data_object ← subscript "object" data_
    event_type ← subscript "type" event
    handle_event data_object event_type
    pure 200

  -- `receive_stripe_webhook`, on the configured secret.
  unfoldable pub receive_stripe_webhook :
      (construct_event : (raw_body : String)
        → (signature : Option String) → (secret : String) → Option Json)
      → (secret : Option String) → (raw_body : String) → (signature : Option String) → Exec State ℕ
  receive_stripe_webhook construct_event none raw_body signature = pure 200
  receive_stripe_webhook construct_event (some secret) raw_body signature =
      if nonempty secret then apply_event (construct_event raw_body signature secret) else pure 200

  unfoldable pub own_payments :
      ℕ → ℕ → Option BookingReference → Exec State (List PaymentTransaction)
  own_payments agg_booking_id traveler_id none = throw not_found
  own_payments agg_booking_id traveler_id (some booking) =
      if booking.traveler_id != traveler_id
      then throw not_found
      else reads (λ d. select (pays_for agg_booking_id) d.payments)

  -- `payment_status`
  unfoldable pub payment_status :
      (agg_booking_id traveler_id : ℕ) → Exec State (List PaymentTransaction)
  unfolding own_payments
  payment_status agg_booking_id traveler_id = do
    booking ← reads (λ d. get agg_booking_id d.bookings)
    own_payments agg_booking_id traveler_id booking
