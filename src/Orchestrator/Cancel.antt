-- ===== src/Orchestrator/Cancel.antt =====
-- app/services/orchestrator.py: cancel.
use hotels_aggregator.Prelude.{ℕ, String, Bool, ◌&&◌, Option, none, some}
use hotels_aggregator.Prelude.Int.{pos}
use hotels_aggregator.Prelude.Tests.{◌==◌, nat_eq, if◌then◌else◌}
use hotels_aggregator.Text.{◌<>◌, nonempty}
use hotels_aggregator.Json.{Json, Decimal, int, object, member, truthy}
use hotels_aggregator.Table.{scalar}
use hotels_aggregator.Models.Bookings.{
  BookingReference, PaymentTransaction, cancelled, is_confirmed, is_succeeded,
}
use hotels_aggregator.Exceptions.{Exn, type_error, value_error}
use hotels_aggregator.Outside.{Outside}
use hotels_aggregator.Exec.{Exec, pure, throw, reads, some_or, ◌>>=◌, ◌>>◌}
use hotels_aggregator.Client.{from_credential}
use hotels_aggregator.Client.Endpoints.{cancel_reservation}
use hotels_aggregator.Payment.Gateways.{PaymentGateway}
use hotels_aggregator.Payment.Service.{refund}
use hotels_aggregator.Orchestrator.Common.{orchestrator, resolve_hotel, get_booking}
use hotels_aggregator.Orchestrator.Release.{set_status}

abbrev pub cannot_cancel : Exn
cannot_cancel = orchestrator "CONFLICT" "Only a confirmed reservation can be cancelled" 409

-- The filter of the payment to refund.
unfoldable pub succeeded_of : ℕ → PaymentTransaction → Bool
succeeded_of agg_booking_id p = (p.agg_booking_id == agg_booking_id) && is_succeeded p.status

-- The reservation of a confirmed booking; the empty text is falsy.
unfoldable pub cancellable : BookingReference → Option String
cancellable b = elim (b.hotel_reservation_id) [
  | none ↦ none
  | some r ↦ if is_confirmed b.status && nonempty r then some r else none
]

module _ (O : Outside) where
  open O use {State, uuid_text, to_float, is_positive, percent_of}

  -- `float(resp.get("refund_percentage", 0) or 0)`; an answer that is no dict has no `.get`.
  unfoldable pub refund_percentage : Json → Exec State Decimal
  refund_percentage (object fs) = some_or value_error (
      to_float (elim (member "refund_percentage" fs) [
        | none ↦ int (pos 0)
        | some j ↦ if truthy j then j else int (pos 0)
      ]))
  refund_percentage _ = throw type_error

  module _ (G : PaymentGateway State) where
    unfoldable pub refund_share : Decimal → Option PaymentTransaction → Exec State (Unit {0})
    refund_share percentage none = pure tt
    refund_share percentage (some payment) =
        if is_positive percentage
        then refund O G payment (percent_of payment.amount_minor percentage)
        else pure tt

    unfoldable pub cancel_reserved :
        BookingReference → String → Exec State (BookingReference × Decimal)
    unfolding refund_share
    cancel_reserved booking reservation_id = do
      (_, cred) ← resolve_hotel O booking.global_room_type_id
      client ← from_credential O cred
      resp ←
          cancel_reservation O client reservation_id
            (some ("cancel-" <> uuid_text booking.agg_booking_id))
      percentage ← refund_percentage resp
      payment ← reads (λ d. scalar (succeeded_of booking.agg_booking_id) d.payments)
      refund_share percentage payment
      booking' ← set_status O booking cancelled
      pure (booking', percentage)

    unfoldable pub cancel_if :
        BookingReference → Option String → Exec State (BookingReference × Decimal)
    cancel_if booking none = throw cannot_cancel
    cancel_if booking (some reservation_id) = cancel_reserved booking reservation_id

    -- `BookingOrchestrator.cancel`
    unfoldable pub cancel :
        (agg_booking_id traveler_id : ℕ) → Exec State (BookingReference × Decimal)
    unfolding cancellable cancel_if
    cancel agg_booking_id traveler_id = do
      booking ← get_booking O agg_booking_id traveler_id
      cancel_if booking (cancellable booking)
