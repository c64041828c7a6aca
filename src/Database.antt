-- ===== src/Database.antt =====
-- The tables of app/db/models.py, and the unique constraints that the booking paths rely on.
use hotels_aggregator.Prelude.{ℕ, String, Bool, ◌&&◌}
use hotels_aggregator.Prelude.Tests.{◌==◌, nat_eq, string_eq}
use hotels_aggregator.Table.{Table, empty}
use hotels_aggregator.Models.Hotels.{
  Hotel, HotelCredential, SyncHealth, HotelUser, Promotion, TravelerAccount,
}
use hotels_aggregator.Models.Bookings.{BookingReference, PaymentTransaction, Review}
use hotels_aggregator.Models.Indexes.{RoomTypeIndex, RateKey, RateAvailabilityIndex, WebhookInbox}

pub record Database : Type 0 where
  pub hotels : Table ℕ Hotel
  pub credentials : Table ℕ HotelCredential
  pub sync_health : Table ℕ SyncHealth
  pub hotel_users : Table ℕ HotelUser
  pub promotions : Table ℕ Promotion
  pub travelers : Table ℕ TravelerAccount
  pub room_types : Table String RoomTypeIndex
  pub rates : Table RateKey RateAvailabilityIndex
  pub bookings : Table ℕ BookingReference
  pub payments : Table ℕ PaymentTransaction
  pub reviews : Table ℕ Review
  pub inbox : Table ℕ WebhookInbox

abbrev pub empty_database : Database
empty_database = record {
  hotels = empty;
  credentials = empty;
  sync_health = empty;
  hotel_users = empty;
  promotions = empty;
  travelers = empty;
  room_types = empty;
  rates = empty;
  bookings = empty;
  payments = empty;
  reviews = empty;
  inbox = empty;
}

-- uq_booking_reference_hotel_hold: the row has the hold of `b` in the hotel of `b`.
unfoldable pub same_hold : BookingReference → BookingReference → Bool
same_hold b row = (row.hotel_id == b.hotel_id) && (row.hotel_hold_id == b.hotel_hold_id)

-- uq_review_one_per_booking
unfoldable pub same_booking : Review → Review → Bool
same_booking r row = row.agg_booking_id == r.agg_booking_id
