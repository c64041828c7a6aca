-- ===== src/Orchestrator/Access.antt =====
-- app/services/orchestrator.py: a traveler only reaches bookings of their own.
use hotels_aggregator.Prelude.{ℕ, String, ◌≡◌, ◌≢◌, some}
use hotels_aggregator.Prelude.Tests.{nat_eq, beq_ne}
use hotels_aggregator.Json.{Json}
use hotels_aggregator.Table.{get}
use hotels_aggregator.Models.Bookings.{BookingReference}
use hotels_aggregator.Outside.{Outside}
use hotels_aggregator.Exec.{World, raised, ◌>>=◌}
use hotels_aggregator.Payment.Gateways.{PaymentGateway}
use hotels_aggregator.Orchestrator.Common.{get_booking, own_booking, booking_not_found}
use hotels_aggregator.Orchestrator.Confirm.{confirm}
use hotels_aggregator.Orchestrator.Release.{release}
use hotels_aggregator.Orchestrator.Cancel.{cancel}

module _ (O : Outside) where
  open O use {State}

  get_booking-foreign :
      (id traveler_id : ℕ) (b : BookingReference) (w : World State)
      → get id w.db.bookings ≡ some b
      → b.traveler_id ≢ traveler_id
      → get_booking O id traveler_id w ≡ (raised booking_not_found, w)
  unfolding get_booking own_booking ◌>>=◌
  get_booking-foreign id traveler_id b w found foreign =
      rw (found, beq_ne b.traveler_id traveler_id foreign)

  -- For a traveler who does not own the booking, confirming, releasing and cancelling it all raise
  -- the error of a booking that does not exist, and neither the database nor anything outside is
  -- touched.
  pub foreign-booking :
      (G : PaymentGateway State) (id traveler_id : ℕ) (token : String) (guests : Json)
      (b : BookingReference) (w : World State)
      → get id w.db.bookings ≡ some b
      → b.traveler_id ≢ traveler_id
      → (confirm O G id traveler_id token guests w ≡ (raised booking_not_found, w))
        × (release O id traveler_id w ≡ (raised booking_not_found, w))
        × (cancel O G id traveler_id w ≡ (raised booking_not_found, w))
  unfolding confirm release cancel ◌>>=◌
  foreign-booking G id traveler_id token guests b w found foreign =
      let e = get_booking-foreign id traveler_id b w found foreign in (rw e, rw e, rw e)
