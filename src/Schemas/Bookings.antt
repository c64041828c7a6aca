-- ===== src/Schemas/Bookings.antt =====
-- app/schemas/api.py: bookings.
use hotels_aggregator.Prelude.{ℕ, String, Option, none, some, List, [], ◌∷◌}
use hotels_aggregator.Json.{
  Json, Items, end, item, Fields, nil, field, object, array, text, Decimal,
}
use hotels_aggregator.Models.Bookings.{BookingReference}
use hotels_aggregator.Orchestrator.Release.{status_text}

pub record HoldRequest : Type 0 where
  pub global_room_type_id : String
  pub rate_plan_code : String
  pub check_in : ℕ
  pub check_out : ℕ
  pub rooms_requested : ℕ
  pub adults : ℕ
  pub children : ℕ

pub record BookingOut : Type 0 where
  pub agg_booking_id : ℕ
  pub hotel_id : ℕ
  pub global_room_type_id : String
  pub hotel_hold_id : String
  pub hotel_reservation_id : Option String
  pub check_in : ℕ
  pub check_out : ℕ
  pub status : String
  pub hold_expires_at : ℕ
  pub created_at : ℕ

pub record GuestIn : Type 0 where
  pub name : String
  pub phone : Option String
  pub email : Option String

pub record ConfirmRequest : Type 0 where
  pub payment_method_token : String
  pub guests : List GuestIn

pub record CancelResponse : Type 0 where
  pub booking : BookingOut
  pub refund_percentage : Decimal

-- `_to_out` of the bookings
abbrev pub booking_out : BookingReference → BookingOut
booking_out b = record {
  agg_booking_id = b.agg_booking_id;
  hotel_id = b.hotel_id;
  global_room_type_id = b.global_room_type_id;
  hotel_hold_id = b.hotel_hold_id;
  hotel_reservation_id = b.hotel_reservation_id;
  check_in = b.check_in;
  check_out = b.check_out;
  status = status_text b.status;
  hold_expires_at = b.hold_expires_at;
  created_at = b.created_at;
}

abbrev with_text : String → Option String → Fields → Fields
with_text key none rest = rest
with_text key (some s) rest = field key (text s) rest

-- `g.model_dump(exclude_none=True)`
unfoldable pub model_dump : GuestIn → Json
model_dump g =
    object (field "name" (text g.name) (with_text "phone" g.phone (with_text "email" g.email nil)))

abbrev dumped : List GuestIn → Items
dumped [] = end
dumped (g ∷ gs) = item (model_dump g) (dumped gs)

-- `[g.model_dump(exclude_none=True) for g in payload.guests]`
unfoldable pub guests_of : List GuestIn → Json
guests_of gs = array (dumped gs)
