-- ===== src/Routes/Bookings/Foreign.antt =====
-- app/api/routes/bookings.py and app/main.py: what a traveler is told of another traveler's booking.
use hotels_aggregator.Prelude.{ℕ, String, ◌≡◌, ◌≢◌, refl, sym, subst, Option, some, inr}
use hotels_aggregator.Prelude.Tests.{nat_eq}
use hotels_aggregator.Json.{Json, text}
use hotels_aggregator.Table.{get}
use hotels_aggregator.Models.Hotels.{TravelerAccount}
use hotels_aggregator.Models.Bookings.{BookingReference}
use hotels_aggregator.Outside.{Outside}
use hotels_aggregator.Exec.{World, ok, raised, Exec, catch, ◌>>=◌}
use hotels_aggregator.Exec.Hoare.{Frozen}
use hotels_aggregator.Payment.Gateways.{PaymentGateway}
use hotels_aggregator.Orchestrator.Common.{booking_not_found}
use hotels_aggregator.Orchestrator.Access.{foreign-booking}
use hotels_aggregator.Schemas.Bookings.{ConfirmRequest, guests_of}
use hotels_aggregator.Security.Deps.{get_current_traveler}
use hotels_aggregator.Security.Frozen.{get_current_traveler-Frozen}
use hotels_aggregator.Routes.Bookings.{
  handle_error, handled, confirm_for, confirm_booking, release_for, release_booking, cancel_for,
  cancel_booking,
}
use hotels_aggregator.Routes.Errors.{
  ErrorAnswer, error_answer, told, http_exception_handler, on_http_exception, answered,
}

module _ (O : Outside) (str : Json → String) where
  open O use {State}

  -- The answer 404 with the code NOT_FOUND, and both states of the database as they were.
  pub record IsNotFound {A : Type 0} (m : Exec State A) (w : World State) : Type 0 where
    pub answer : ErrorAnswer
    pub answers : (answered O str m w).0 ≡ ok (inr answer)
    pub status : answer.status_code ≡ 404
    pub code : answer.code ≡ "NOT_FOUND"
    pub same_db : (answered O str m w).1.db ≡ w.db
    pub same_durable : (answered O str m w).1.durable ≡ w.durable

  told-IsNotFound :
      {A : Type 0} (m : Exec State A) (w v : World State)
      → ((s : String) → str (text s) ≡ s)
      → m w ≡ (raised (handle_error booking_not_found), v)
      → Frozen w v
      → IsNotFound m w
  unfolding answered http_exception_handler on_http_exception told error_answer handle_error catch
      ◌>>=◌
  told-IsNotFound m w v texts raises f = record {
    answer = record {
      status_code = 404;
      code = str (text "NOT_FOUND");
      message = str (text "Booking not found");
      trace_id = O.uuid_text (O.uuid4 v.outside).0;
    };
    answers = rw raises refl;
    status = refl;
    code = texts "NOT_FOUND";
    same_db = rw raises f.same_db;
    same_durable = rw raises f.same_durable;
  }

  -- An endpoint that authenticates and whose operation does not find the booking.
  after_auth :
      {A : Type 0} (credentials : Option String) (k : TravelerAccount → Exec State A)
      (t : TravelerAccount) (w : World State)
      → ((s : String) → str (text s) ≡ s)
      → (get_current_traveler O credentials w).0 ≡ ok t
      → k t (get_current_traveler O credentials w).1
        ≡ (raised (handle_error booking_not_found), (get_current_traveler O credentials w).1)
      → IsNotFound (get_current_traveler O credentials >>= k) w
  unfolding ◌>>=◌
  after_auth credentials k t w texts auth missing =
      told-IsNotFound _ w (get_current_traveler O credentials w).1 texts (rw auth missing)
        ((get_current_traveler-Frozen O credentials).at w)

  -- For a traveler who is logged in and does not own the booking, the endpoints that confirm,
  -- release and cancel it answer 404 with the code NOT_FOUND, if a text is printed as it is, and
  -- leave the session's tables and the committed ones as they were.
  pub endpoints-foreign :
      (G : PaymentGateway State) (id : ℕ) (p : ConfirmRequest) (credentials : Option String)
      (t : TravelerAccount) (b : BookingReference) (w : World State)
      → ((s : String) → str (text s) ≡ s)
      → (get_current_traveler O credentials w).0 ≡ ok t
      → get id w.db.bookings ≡ some b
      → b.traveler_id ≢ t.traveler_id
      → IsNotFound (confirm_booking O G id p credentials) w
        × IsNotFound (release_booking O G id credentials) w
        × IsNotFound (cancel_booking O G id credentials) w
  unfolding confirm_booking release_booking cancel_booking confirm_for release_for cancel_for
      handled ◌>>=◌ catch
  endpoints-foreign G id p credentials t b w texts auth found foreign =
      let v = (get_current_traveler O credentials w).1 in
      let f = (get_current_traveler-Frozen O credentials).at w in
      let e =
        foreign-booking O G id t.traveler_id p.payment_method_token (guests_of p.guests) b v
          (subst (λ d. get id d.bookings ≡ some b) (sym f.same_db) found) foreign in
      (
        after_auth credentials _ t w texts auth (rw e.0 refl),
        after_auth credentials _ t w texts auth (rw e.1 refl),
        after_auth credentials _ t w texts auth (rw e.2 refl),
      )
