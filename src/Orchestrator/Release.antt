-- ===== src/Orchestrator/Release.antt =====
-- app/services/orchestrator.py: release.
use hotels_aggregator.Prelude.{ℕ, String, some}
use hotels_aggregator.Prelude.Tests.{if◌then◌else◌}
use hotels_aggregator.Text.{◌<>◌}
use hotels_aggregator.Models.Bookings.{
  BookingReference, BookingReferenceStatus, pending_payment, held, confirmed, cancelled, expired,
  is_held, is_closed,
}
use hotels_aggregator.Exceptions.{Exn, hotel_erp_error}
use hotels_aggregator.Outside.{Outside}
use hotels_aggregator.Exec.{Exec, pure, throw, modifies, commit, catch, ◌>>=◌, ◌>>◌}
use hotels_aggregator.Client.{from_credential}
use hotels_aggregator.Client.Endpoints.{release_hold}
use hotels_aggregator.Payment.Service.{write_booking}
use hotels_aggregator.Orchestrator.Common.{orchestrator, resolve_hotel, get_booking, on_unavailable}

-- `status.value`
unfoldable pub status_text : BookingReferenceStatus → String
status_text pending_payment = "pending_payment"
status_text held = "held"
status_text confirmed = "confirmed"
status_text cancelled = "cancelled"
status_text expired = "expired"

module _ (O : Outside) where
  open O use {State, uuid_text}

  unfoldable pub send_release : BookingReference → Exec State (Unit {0})
  send_release booking = do
    (_, cred) ← resolve_hotel O booking.global_room_type_id
    client ← from_credential O cred
    release_hold O client booking.hotel_hold_id
        (some ("release-" <> uuid_text booking.agg_booking_id))
    pure tt

  -- Only an unreachable hotel is passed over.
  unfoldable pub pass_over_unavailable : Exn → Exec State (Unit {0})
  pass_over_unavailable (hotel_erp_error e) =
      on_unavailable e.kind (pure tt) (throw (hotel_erp_error e))
  pass_over_unavailable e = throw e

  -- `_release_on_hotel`
  unfoldable pub release_on_hotel : BookingReference → Exec State (Unit {0})
  unfolding send_release pass_over_unavailable
  release_on_hotel booking = catch (send_release booking) pass_over_unavailable

  -- `booking.status = ...; await session.commit()`
  unfoldable pub set_status :
      BookingReference → BookingReferenceStatus → Exec State BookingReference
  set_status booking status = do
    modifies (write_booking (record booking { status = status }))
    commit
    pure (record booking { status = status })

  abbrev pub cannot_release : BookingReference → Exn
  cannot_release booking =
      orchestrator "CONFLICT" ("Cannot release a " <> status_text booking.status <> " booking") 409

  -- `BookingOrchestrator.release`
  unfoldable pub release : (agg_booking_id traveler_id : ℕ) → Exec State BookingReference
  unfolding set_status
  release agg_booking_id traveler_id = do
    booking ← get_booking O agg_booking_id traveler_id
    if is_closed booking.status
        then pure booking
        else if is_held booking.status
        then release_on_hotel booking >> set_status booking cancelled
        else throw (cannot_release booking)
