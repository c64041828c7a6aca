-- ===== src/Orchestrator/Confirm.antt =====
-- app/services/orchestrator.py: confirm.
use hotels_aggregator.Prelude.{ℕ, zero, suc, String, Option, none, some}
use hotels_aggregator.Prelude.Tests.{leb, if◌then◌else◌}
use hotels_aggregator.Text.{◌<>◌}
use hotels_aggregator.Json.{Json, text, object, nil, field}
use hotels_aggregator.Models.Bookings.{
  BookingReference, PaymentTransaction, confirmed, cancelled, expired, is_held, is_confirmed,
  is_succeeded,
}
use hotels_aggregator.Exceptions.{Exn, hotel_erp_error}
use hotels_aggregator.Outside.{Outside}
use hotels_aggregator.Exec.{
  Exec, pure, throw, calls, tells, modifies, commit, catch, ◌>>=◌, ◌>>◌, subscript,
  as_nullable_text,
}
use hotels_aggregator.Client.{HotelErpClient, from_credential}
use hotels_aggregator.Client.Endpoints.{confirm_hold}
use hotels_aggregator.Cache.{get_hold_quote}
use hotels_aggregator.Payment.Gateways.{PaymentGateway}
use hotels_aggregator.Payment.Service.{write_booking, create_and_capture}
use hotels_aggregator.Orchestrator.Common.{orchestrator, resolve_hotel, get_booking, on_unavailable}
use hotels_aggregator.Orchestrator.Release.{status_text, release_on_hotel, set_status}

abbrev pub confirm_max_attempts : ℕ
confirm_max_attempts = 3

-- CONFIRM_RETRY_BACKOFF_SECONDS, in microseconds
abbrev pub confirm_retry_backoff : ℕ
confirm_retry_backoff = 500000

abbrev pub hold_has_expired : Exn
hold_has_expired = orchestrator "HOLD_EXPIRED" "Hold has expired" 409

abbrev pub quote_gone : Exn
quote_gone = orchestrator "HOLD_EXPIRED" "Hold quote no longer available" 409

abbrev pub payment_declined : Exn
payment_declined = orchestrator "PAYMENT_FAILED" "Payment was declined" 402

abbrev pub confirm_unresolved : Exn
confirm_unresolved =
    orchestrator "BOOKING_CONFIRM_UNRESOLVED"
      "Payment captured but the hold could not be confirmed with the hotel; escalated for reconciliation."
      502

abbrev pub cannot_confirm : BookingReference → Exn
cannot_confirm booking =
    orchestrator "HOLD_EXPIRED" ("Booking is " <> status_text booking.status <> ", cannot confirm")
      409

module _ (O : Outside) where
  open O use {State, now, sleep, uuid_text}

  unfoldable pub confirm_body : PaymentTransaction → Json → Json
  confirm_body payment guests =
      object (field "payment_reference" (text payment.gateway_ref) (field "guests" guests nil))

  -- The `try` block of an attempt.
  unfoldable pub try_confirm :
      HotelErpClient → BookingReference → Json → Exec State BookingReference
  try_confirm client booking body = do
    resp ←
        confirm_hold O client booking.hotel_hold_id body
          (some ("confirm-" <> uuid_text booking.agg_booking_id))
    reservation ← subscript "reservation_id" resp
    reservation_text ← as_nullable_text reservation
    let booking' = record booking { status = confirmed; hotel_reservation_id = reservation_text }
    modifies (write_booking booking')
    commit
    pure booking'

  -- `except HotelERPUnavailable`: give up once the hold has expired, else wait and go on.
  unfoldable pub after_failure :
      BookingReference → Exec State BookingReference → Exn → Exec State BookingReference
  after_failure booking rest (hotel_erp_error e) =
      on_unavailable e.kind
        (do
          t ← calls now
          if leb booking.hold_expires_at t
              then throw confirm_unresolved
              else tells (sleep confirm_retry_backoff) >> rest)
        (throw (hotel_erp_error e))
  after_failure booking rest e = throw e

  -- The loop over the attempts, by the number that are left.
  unfoldable pub confirm_attempts :
      ℕ → HotelErpClient → BookingReference → Json → Exec State BookingReference
  unfolding after_failure
  confirm_attempts zero client booking body = throw confirm_unresolved
  confirm_attempts (suc n) client booking body =
      let rest = confirm_attempts n client booking body in
      catch (try_confirm client booking body) (after_failure booking rest)

  -- Confirmation with the hotel, under one idempotency key for all attempts.
  unfoldable pub confirm_with_hotel :
      Json → PaymentTransaction → BookingReference → Exec State BookingReference
  confirm_with_hotel guests payment booking = do
    (_, cred) ← resolve_hotel O booking.global_room_type_id
    client ← from_credential O cred
    confirm_attempts confirm_max_attempts client booking (confirm_body payment guests)

  -- Payment failed: release the hold, mirror the cancelled state.
  unfoldable pub decline : BookingReference → Exec State BookingReference
  decline booking = do
    release_on_hotel O booking
    set_status O booking cancelled
    throw payment_declined

  unfoldable pub settle : Json → PaymentTransaction → BookingReference → Exec State BookingReference
  unfolding confirm_with_hotel decline
  settle guests payment booking =
      if is_succeeded payment.status
      then confirm_with_hotel guests payment booking
      else decline booking

  module _ (G : PaymentGateway State) where
    unfoldable pub pay_and_settle :
        String → Json → BookingReference → Option Json → Exec State BookingReference
    pay_and_settle token guests booking none = throw quote_gone
    pay_and_settle token guests booking (some quote) = do
      total ← subscript "total_amount_minor" quote
      currency ← subscript "currency" quote
      (payment, booking') ← create_and_capture O G booking total currency token
      settle guests payment booking'

    unfoldable pub confirm_held : String → Json → BookingReference → Exec State BookingReference
    confirm_held token guests booking = do
      t ← calls now
      if leb booking.hold_expires_at t
          then set_status O booking expired >> throw hold_has_expired
          else (do
            quote ← get_hold_quote O booking.agg_booking_id
            pay_and_settle token guests booking quote)

    -- `BookingOrchestrator.confirm`
    unfoldable pub confirm :
        (agg_booking_id traveler_id : ℕ)
        → (payment_method_token : String) → (guests : Json) → Exec State BookingReference
    confirm agg_booking_id traveler_id token guests = do
      booking ← get_booking O agg_booking_id traveler_id
      if is_confirmed booking.status
          then pure booking
          else if is_held booking.status
          then confirm_held token guests booking
          else throw (cannot_confirm booking)
