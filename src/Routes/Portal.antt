-- ===== src/Routes/Portal.antt =====
-- app/api/routes/hotel_portal.py: a hotel's staff and the listing of their hotel.
pub mod Own
pub mod Safety
use hotels_aggregator.Prelude.{ℕ, String, Bool, Option, none, some, List, [], ◌∷◌, map}
use hotels_aggregator.Prelude.Tests.{◌==◌, nat_eq, string_eq, if◌then◌else◌}
use hotels_aggregator.Prelude.Lists.{take}
use hotels_aggregator.Table.{get, put, scalar, select}
use hotels_aggregator.Models.Hotels.{Hotel, HotelUser}
use hotels_aggregator.Outside.{Outside}
use hotels_aggregator.Database.{Database}
use hotels_aggregator.Exec.{Exec, pure, throw, reads, modifies, commit, some_or, ◌>>=◌, ◌>>◌}
use hotels_aggregator.Schemas.Travelers.{TokenResponse, token_response}
use hotels_aggregator.Schemas.Bookings.{BookingOut, booking_out}
use hotels_aggregator.Schemas.Hotels.{
  HotelPortalLogin, HotelUserOut, hotel_user_out, HotelOut, hotel_out, HotelProfileUpdate,
  SyncHealthOut, sync_health_out, RoomTypeOut, room_type_out,
}
use hotels_aggregator.Models.Indexes.{RoomTypeIndex}
use hotels_aggregator.Security.Auth.{create_hotel_access_token, verify_password}
use hotels_aggregator.Security.Deps.{http_error, unauthorized, get_current_hotel_user}
use hotels_aggregator.Routes.Common.{assigned, assigned_some, latest_first, health_of}

abbrev pub write_hotel : Hotel → Database → Database
write_hotel h d = record d { hotels = put h.hotel_id h d.hotels }

-- The assignments of `update_my_hotel`.
unfoldable pub profile : HotelProfileUpdate → Hotel → Hotel
profile p h = record h {
  display_name = assigned p.display_name h.display_name;
  city = assigned p.city h.city;
  lat = assigned_some p.lat h.lat;
  lon = assigned_some p.lon h.lon;
  star_rating = assigned_some p.star_rating h.star_rating;
  photos = assigned p.photos h.photos;
}

module _ (O : Outside) (jwt_expiry_minutes : ℕ) where
  open O use {State}

  unfoldable pub checked_login : HotelPortalLogin → Option HotelUser → Exec State TokenResponse
  checked_login p none = throw (unauthorized "Invalid credentials")
  checked_login p (some u) =
      if verify_password O p.password u.hashed_password
      then (do
        token ← create_hotel_access_token O jwt_expiry_minutes u.hotel_user_id u.email
        pure (token_response token))
      else throw (unauthorized "Invalid credentials")

  -- `login`
  unfoldable pub login : HotelPortalLogin → Exec State TokenResponse
  unfolding checked_login
  login p = do
    user ← reads (λ d. scalar (λ u. u.email == p.email) d.hotel_users)
    checked_login p user

module _ (O : Outside) (lte : String → String → Bool) where
  open O use {State}

  -- `me`
  unfoldable pub me : (credentials : Option String) → Exec State HotelUserOut
  me credentials = do user ← get_current_hotel_user O credentials; pure (hotel_user_out user)

  -- `session.get(Hotel, user.hotel_id)`, or the answer 404.
  unfoldable pub own_hotel : HotelUser → Exec State Hotel
  own_hotel user = do
    hotel ← reads (λ d. get user.hotel_id d.hotels)
    some_or (http_error 404 "Hotel not found") hotel

  -- `my_hotel`
  unfoldable pub my_hotel : (credentials : Option String) → Exec State HotelOut
  my_hotel credentials = do
    user ← get_current_hotel_user O credentials
    hotel ← own_hotel user
    pure (hotel_out hotel)

  unfoldable pub update_hotel_of : HotelProfileUpdate → HotelUser → Exec State HotelOut
  unfolding own_hotel
  update_hotel_of p user = do
    hotel ← own_hotel user
    modifies (write_hotel (profile p hotel))
    commit
    pure (hotel_out (profile p hotel))

  -- `update_my_hotel`
  unfoldable pub update_my_hotel :
      HotelProfileUpdate → (credentials : Option String) → Exec State HotelOut
  unfolding update_hotel_of
  update_my_hotel p credentials = get_current_hotel_user O credentials >>= update_hotel_of p

  -- `my_sync_health`
  unfoldable pub my_sync_health : (credentials : Option String) → Exec State SyncHealthOut
  my_sync_health credentials = do
    user ← get_current_hotel_user O credentials
    sh ← health_of user.hotel_id
    pure (sync_health_out sh)

  -- `order_by(RoomTypeIndex.name)`, by the order of the database on texts.
  unfoldable pub insert_by_name : RoomTypeIndex → List RoomTypeIndex → List RoomTypeIndex
  insert_by_name r [] = r ∷ []
  insert_by_name r (s ∷ rs) =
      let rest = insert_by_name r rs in if lte r.name s.name then r ∷ s ∷ rs else s ∷ rest

  unfoldable pub by_name : List RoomTypeIndex → List RoomTypeIndex
  by_name [] = []
  by_name (r ∷ rs) = insert_by_name r (by_name rs)

  -- `my_room_types`
  unfoldable pub my_room_types : (credentials : Option String) → Exec State (List RoomTypeOut)
  my_room_types credentials = do
    user ← get_current_hotel_user O credentials
    rows ← reads (λ d. select (λ r. r.hotel_id == user.hotel_id) d.room_types)
    pure (map room_type_out (by_name rows))

  -- `my_bookings`
  unfoldable pub my_bookings : (credentials : Option String) → Exec State (List BookingOut)
  my_bookings credentials = do
    user ← get_current_hotel_user O credentials
    rows ← reads (λ d. select (λ b. b.hotel_id == user.hotel_id) d.bookings)
    pure (map booking_out (take 200 (latest_first (λ b. b.created_at) rows)))
