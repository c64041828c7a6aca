-- ===== src/Routes/Registry/Delete.antt =====
-- app/api/routes/hotels_admin.py: `delete_hotel`, with the cascades of app/db/models.py.
use hotels_aggregator.Prelude.{ℕ, String, Bool, false, none, some, ◌||◌}
use hotels_aggregator.Prelude.Tests.{◌==◌, string_eq, nat_eq, if◌then◌else◌}
use hotels_aggregator.Table.{Table, get, delete, delete_where, exists}
use hotels_aggregator.Models.Indexes.{RoomTypeIndex}
use hotels_aggregator.Exceptions.{integrity_error}
use hotels_aggregator.Outside.{Outside}
use hotels_aggregator.Database.{Database}
use hotels_aggregator.Exec.{Exec, throw, reads, modifies, commit, ◌>>=◌, ◌>>◌}
use hotels_aggregator.Routes.Common.{hotel_of_slug}

-- The row is of a room type of the hotel.
unfoldable pub is_room_type_of : ℕ → Table String RoomTypeIndex → String → Bool
is_room_type_of hotel_id room_types id = elim (get id room_types) [
  | none ↦ false
  | some rt ↦ rt.hotel_id == hotel_id
]

-- The foreign keys without `ondelete`: a booking, a review or an event of the hotel, or a booking
-- of one of its room types, keeps the hotel.
unfoldable pub is_referenced : ℕ → Database → Bool
is_referenced hotel_id d =
    exists
      (λ b. (b.hotel_id == hotel_id) || is_room_type_of hotel_id d.room_types b.global_room_type_id)
      d.bookings
    || exists (λ r. r.hotel_id == hotel_id) d.reviews
    || exists (λ e. e.hotel_id == hotel_id) d.inbox

-- The hotel's row, and the rows that go with it: the credential and the sync health by the ORM's
-- cascade, the room types with their rates, the portal users and the promotions by the database's.
unfoldable pub remove_hotel : ℕ → Database → Database
remove_hotel hotel_id d = record d {
  hotels = delete hotel_id d.hotels;
  credentials = delete hotel_id d.credentials;
  sync_health = delete hotel_id d.sync_health;
  rates = delete_where (λ r. is_room_type_of hotel_id d.room_types r.global_room_type_id) d.rates;
  room_types = delete_where (λ rt. rt.hotel_id == hotel_id) d.room_types;
  hotel_users = delete_where (λ u. u.hotel_id == hotel_id) d.hotel_users;
  promotions = delete_where (λ p. p.hotel_id == hotel_id) d.promotions;
}

module _ (O : Outside) where
  open O use {State}

  -- `delete_hotel`
  unfoldable pub delete_hotel : (slug : String) → Exec State (Unit {0})
  delete_hotel slug = do
    hotel ← hotel_of_slug slug
    kept ← reads (is_referenced hotel.hotel_id)
    if kept then throw integrity_error else modifies (remove_hotel hotel.hotel_id)
    commit
