-- ===== src/Models/Bookings.antt =====
-- app/db/models.py: the booking ledger, the payments, the reviews.
use hotels_aggregator.Prelude.{ℕ, String, Bool, true, false, Option}
use hotels_aggregator.Prelude.Int.{ℤ}

pub data BookingReferenceStatus : Type 0 where
  pending_payment held confirmed cancelled expired : BookingReferenceStatus

-- `==` on the members of an enum.
abbrev pub is_held : BookingReferenceStatus → Bool
is_held held = true
is_held _ = false

abbrev pub is_confirmed : BookingReferenceStatus → Bool
is_confirmed confirmed = true
is_confirmed _ = false

-- `status in (cancelled, expired)`
abbrev pub is_closed : BookingReferenceStatus → Bool
is_closed cancelled = true
is_closed expired = true
is_closed _ = false

pub record BookingReference : Type 0 where
  pub agg_booking_id : ℕ
  pub traveler_id : ℕ
  pub hotel_id : ℕ
  pub hotel_hold_id : String
  pub hotel_reservation_id : Option String
  pub global_room_type_id : String
  pub check_in : ℕ
  pub check_out : ℕ
  pub status : BookingReferenceStatus
  pub payment_id : Option ℕ
  pub hold_expires_at : ℕ
  pub created_at : ℕ

pub data PaymentStatus : Type 0 where
  pending succeeded failed refunded : PaymentStatus

abbrev pub is_succeeded : PaymentStatus → Bool
is_succeeded succeeded = true
is_succeeded _ = false

pub record PaymentTransaction : Type 0 where
  pub payment_id : ℕ
  pub agg_booking_id : ℕ
  pub amount_minor : ℤ
  pub currency : String
  pub gateway_ref : String
  pub status : PaymentStatus
  pub created_at : ℕ

pub record Review : Type 0 where
  pub review_id : ℕ
  pub agg_booking_id : ℕ
  pub hotel_id : ℕ
  pub rating : ℕ
  pub comment : Option String
  pub created_at : ℕ
