-- ===== src/Orchestrator/Hold.antt =====
-- app/services/orchestrator.py: hold.
use hotels_aggregator.Prelude.{ℕ, ◌-◌, ◌/◌, String, none, some, max, Bool, true, false, Option}
use hotels_aggregator.Prelude.Int.{pos}
use hotels_aggregator.Prelude.Tests.{nat_eq}
use hotels_aggregator.Json.{Json, int, text, object, nil, field}
use hotels_aggregator.Table.{get, exists}
use hotels_aggregator.Models.Bookings.{BookingReference, held}
use hotels_aggregator.Exceptions.{integrity_error}
use hotels_aggregator.Outside.{Outside}
use hotels_aggregator.Database.{same_hold}
use hotels_aggregator.Exec.{
  Exec, pure, throw, reads, calls, modifies, commit, ◌>>=◌, ◌>>◌, subscript, as_text,
}
use hotels_aggregator.Client.{from_credential}
use hotels_aggregator.Client.Endpoints.{create_hold}
use hotels_aggregator.Cache.{store_hold_quote}
use hotels_aggregator.Payment.Service.{write_booking}
use hotels_aggregator.Orchestrator.Common.{resolve_hotel, parse_dt}

-- The arguments of `hold`, which are the fields of `HoldRequest` in app/schemas/api.py and the
-- traveler.
pub record HoldArgs : Type 0 where
  pub traveler_id : ℕ
  pub global_room_type_id : String
  pub rate_plan_code : String
  pub check_in : ℕ
  pub check_out : ℕ
  pub rooms_requested : ℕ
  pub adults : ℕ
  pub children : ℕ

-- The seconds from one instant to a later one; the code's negative difference counts as 0 under
-- the `max` with 60.
abbrev pub seconds_until : (expires now : ℕ) → ℕ
seconds_until expires now = (expires - now) / 1000000

module _ (O : Outside) where
  open O use {State, now, uuid4, date_text}

  unfoldable pub hold_body : HoldArgs → Json
  hold_body a = object (
      field "room_type_id" (text a.global_room_type_id) (
        field "rate_plan_code" (text a.rate_plan_code) (
          field "check_in" (text (date_text a.check_in)) (
            field "check_out" (text (date_text a.check_out)) (
              field "rooms_requested" (int (pos a.rooms_requested)) (
                field "occupancy"
                  (object (
                    field "adults" (int (pos a.adults))
                      (field "children" (int (pos a.children)) nil)))
                  (field "requested_by" (text "aggregator") nil)))))))

  -- The insert is refused when the id is taken or when the hotel's hold is in the ledger already.
  unfoldable pub insert_unless :
      BookingReference → Option BookingReference → Bool → Exec State (Unit {0})
  insert_unless b (some _) _ = throw integrity_error
  insert_unless b none true = throw integrity_error
  insert_unless b none false = modifies (write_booking b)

  -- `session.add(booking)` and the flush.
  unfoldable pub insert_booking : BookingReference → Exec State (Unit {0})
  unfolding insert_unless
  insert_booking b = do
    taken ← reads (λ d. get b.agg_booking_id d.bookings)
    duplicate ← reads (λ d. exists (same_hold b) d.bookings)
    insert_unless b taken duplicate

  abbrev pub new_booking :
      HoldArgs
      → (hotel_id : ℕ) → (hold_id : String) → (expires_at id created : ℕ) → BookingReference
  new_booking a hotel_id hold_id expires_at id created = record {
    agg_booking_id = id;
    traveler_id = a.traveler_id;
    hotel_id = hotel_id;
    hotel_hold_id = hold_id;
    hotel_reservation_id = none;
    global_room_type_id = a.global_room_type_id;
    check_in = a.check_in;
    check_out = a.check_out;
    status = held;
    payment_id = none;
    hold_expires_at = expires_at;
    created_at = created;
  }

  -- The quote that the hotel's answer carries, kept for the payment step.
  unfoldable pub keep_quote : HoldArgs → Json → BookingReference → Exec State (Unit {0})
  keep_quote a resp booking = do
    t ← calls now
    total ← subscript "total_amount_minor" resp
    currency ← subscript "currency" resp
    store_hold_quote O booking.agg_booking_id
        (object (
          field "total_amount_minor" total
            (field "currency" currency (field "rate_plan_code" (text a.rate_plan_code) nil))))
        (max (seconds_until booking.hold_expires_at t) 60)

  -- The row of the ledger that records the hotel's hold.
  unfoldable pub record_hold : HoldArgs → (hotel_id : ℕ) → Json → Exec State BookingReference
  unfolding insert_booking
  record_hold a hotel_id resp = do
    expires ← subscript "expires_at" resp
    expires_text ← as_text expires
    expires_at ← parse_dt O expires_text
    hold_id ← subscript "hold_id" resp
    hold_text ← as_text hold_id
    id ← calls uuid4
    created ← calls now
    insert_booking (new_booking a hotel_id hold_text expires_at id created)
    commit
    pure (new_booking a hotel_id hold_text expires_at id created)

  -- `BookingOrchestrator.hold`
  unfoldable pub hold : HoldArgs → Exec State BookingReference
  unfolding record_hold keep_quote
  hold a = do
    (hotel, cred) ← resolve_hotel O a.global_room_type_id
    client ← from_credential O cred
    resp ← create_hold O client (hold_body a) none
    booking ← record_hold a hotel.hotel_id resp
    keep_quote a resp booking
    pure booking
