-- ===== src/Routes/Bookings.antt =====
-- app/api/routes/bookings.py: the booking endpoints over the orchestrator.
pub mod Foreign
use hotels_aggregator.Prelude.{ℕ, String, Option}
use hotels_aggregator.Json.{text}
use hotels_aggregator.Models.Hotels.{TravelerAccount}
use hotels_aggregator.Exceptions.{
  Exn, orchestrator_error, hotel_erp_error, http_exception, Detail, coded, coded_with,
}
use hotels_aggregator.Outside.{Outside}
use hotels_aggregator.Exec.{Exec, pure, throw, catch, ◌>>=◌}
use hotels_aggregator.Payment.Gateways.{PaymentGateway}
use hotels_aggregator.Orchestrator.Hold.{HoldArgs, hold}
use hotels_aggregator.Orchestrator.Confirm.{confirm}
use hotels_aggregator.Orchestrator.Release.{release}
use hotels_aggregator.Orchestrator.Cancel.{cancel}
use hotels_aggregator.Schemas.Bookings.{
  HoldRequest, BookingOut, booking_out, ConfirmRequest, guests_of, CancelResponse,
}
use hotels_aggregator.Security.Deps.{get_current_traveler}

abbrev http : ℕ → Detail → Exn
http status detail = http_exception (record { status_code = status; detail = detail })

-- `_handle` on the exceptions that the endpoints catch; the others leave as they are.
unfoldable pub handle_error : Exn → Exn
handle_error (orchestrator_error e) = http e.status (coded (text e.code) (text e.message))
handle_error (hotel_erp_error e) = http e.status (coded_with e.code e.message e.details)
handle_error e = e

abbrev pub hold_args : HoldRequest → (traveler_id : ℕ) → HoldArgs
hold_args p traveler_id = record {
  traveler_id = traveler_id;
  global_room_type_id = p.global_room_type_id;
  rate_plan_code = p.rate_plan_code;
  check_in = p.check_in;
  check_out = p.check_out;
  rooms_requested = p.rooms_requested;
  adults = p.adults;
  children = p.children;
}

-- `try: ... except (OrchestratorError, HotelERPError) as exc: raise _handle(exc)`
unfoldable pub handled : {S A : Type 0} → Exec S A → Exec S A
handled m = catch m (λ e. throw (handle_error e))

module _ (O : Outside) (G : PaymentGateway O.State) where
  open O use {State}

  unfoldable pub hold_for : HoldRequest → TravelerAccount → Exec State BookingOut
  unfolding handled
  hold_for p t = do
    booking ← handled (hold O (hold_args p t.traveler_id))
    pure (booking_out booking)

  -- `create_hold`
  unfoldable pub create_hold : HoldRequest → (credentials : Option String) → Exec State BookingOut
  unfolding hold_for
  create_hold p credentials = get_current_traveler O credentials >>= hold_for p

  unfoldable pub confirm_for : ℕ → ConfirmRequest → TravelerAccount → Exec State BookingOut
  unfolding handled
  confirm_for id p t = do
    booking ← handled (confirm O G id t.traveler_id p.payment_method_token (guests_of p.guests))
    pure (booking_out booking)

  -- `confirm`
  unfoldable pub confirm_booking :
      (agg_booking_id : ℕ) → ConfirmRequest → (credentials : Option String) → Exec State BookingOut
  unfolding confirm_for
  confirm_booking id p credentials = get_current_traveler O credentials >>= confirm_for id p

  unfoldable pub release_for : ℕ → TravelerAccount → Exec State BookingOut
  unfolding handled
  release_for id t = do booking ← handled (release O id t.traveler_id); pure (booking_out booking)

  -- `release`
  unfoldable pub release_booking :
      (agg_booking_id : ℕ) → (credentials : Option String) → Exec State BookingOut
  unfolding release_for
  release_booking id credentials = get_current_traveler O credentials >>= release_for id

  unfoldable pub cancel_for : ℕ → TravelerAccount → Exec State CancelResponse
  unfolding handled
  cancel_for id t = do
    (booking, refund) ← handled (cancel O G id t.traveler_id)
    pure (record { booking = booking_out booking; refund_percentage = refund })

  -- `cancel`
  unfoldable pub cancel_booking :
      (agg_booking_id : ℕ) → (credentials : Option String) → Exec State CancelResponse
  unfolding cancel_for
  cancel_booking id credentials = get_current_traveler O credentials >>= cancel_for id
