-- ===== src/Routes/Registry.antt =====
-- app/api/routes/hotels_admin.py: the registry of hotels, which the operator's key guards.
pub mod Delete
pub mod Update
pub mod Create
pub mod Guard
pub mod Removal
pub mod Deletion
use hotels_aggregator.Prelude.{ℕ, String, Bool, true, false, Option, none, some, List, [], map}
use hotels_aggregator.Prelude.Tests.{◌==◌, nat_eq, string_eq, if◌then◌else◌}
use hotels_aggregator.Table.{get, put, scalar, exists, select, rows}
use hotels_aggregator.Models.Hotels.{
  Hotel, HotelCredential, HotelUser, HotelUserRole, owner, manager, active, new_sync_health,
}
use hotels_aggregator.Exceptions.{integrity_error}
use hotels_aggregator.Outside.{Outside}
use hotels_aggregator.Database.{Database}
use hotels_aggregator.Exec.{Exec, pure, throw, reads, calls, modifies, commit, some_or, ◌>>=◌, ◌>>◌}
use hotels_aggregator.Schemas.Hotels.{
  HotelCreate, HotelOut, hotel_out, HotelUserCreate, HotelUserOut, hotel_user_out, SyncHealthOut,
  sync_health_out,
}
use hotels_aggregator.Security.Auth.{hash_password}
use hotels_aggregator.Security.Deps.{http_error, require_admin}
use hotels_aggregator.Routes.Common.{of_slug, hotel_of_slug, health_of, latest_first}
use hotels_aggregator.Routes.Portal.{write_hotel}

abbrev pub write_credential : HotelCredential → Database → Database
write_credential c d = record d { credentials = put c.hotel_id c d.credentials }

abbrev pub add_health : ℕ → Database → Database
add_health hotel_id d = record d {
  sync_health = put hotel_id (new_sync_health hotel_id) d.sync_health;
}

abbrev pub write_user : HotelUser → Database → Database
write_user u d = record d { hotel_users = put u.hotel_user_id u d.hotel_users }

-- `HotelUserRole(payload.role)`; `none` is ValueError
unfoldable pub role_of : String → Option HotelUserRole
role_of s = if s == "owner" then some owner else if s == "manager" then some manager else none

abbrev pub has_user_email : String → HotelUser → Bool
has_user_email email u = u.email == email

module _ (O : Outside) where
  open O use {State, uuid4, now, upper, encrypt_secret}

  abbrev pub new_hotel : HotelCreate → (id created : ℕ) → Hotel
  new_hotel p id created = record {
    hotel_id = id;
    slug = p.slug;
    legal_name = p.legal_name;
    display_name = p.display_name;
    city = p.city;
    country = upper p.country;
    lat = p.lat;
    lon = p.lon;
    star_rating = p.star_rating;
    photos = [];
    status = active;
    created_at = created;
  }

  abbrev pub new_credential :
      HotelCreate → (hotel_id : ℕ) → (api_key webhook_secret : String) → HotelCredential
  new_credential p hotel_id api_key webhook_secret = record {
    hotel_id = hotel_id;
    api_base_url = p.api_base_url;
    api_key_encrypted = api_key;
    oauth_client_id = p.oauth_client_id;
    webhook_secret_encrypted = webhook_secret;
    hold_ttl_seconds_default = p.hold_ttl_seconds_default;
  }

  -- The flush of the hotel: its id and its slug must be new.
  unfoldable pub flush_hotel : Hotel → Option Hotel → Bool → Exec State (Unit {0})
  flush_hotel h (some _) _ = throw integrity_error
  flush_hotel h none true = throw integrity_error
  flush_hotel h none false = modifies (write_hotel h)

  unfoldable pub insert_hotel : Hotel → Exec State (Unit {0})
  unfolding flush_hotel
  insert_hotel h = do
    taken ← reads (λ d. get h.hotel_id d.hotels)
    duplicate ← reads (λ d. exists (of_slug h.slug) d.hotels)
    flush_hotel h taken duplicate

  unfoldable pub register_hotel : HotelCreate → Option Hotel → Exec State HotelOut
  unfolding insert_hotel
  register_hotel p (some _) = throw (http_error 409 "Slug already registered")
  register_hotel p none = do
    id ← calls uuid4
    created ← calls now
    insert_hotel (new_hotel p id created)
    api_key ← calls (encrypt_secret p.api_key)
    webhook_secret ← calls (encrypt_secret p.webhook_secret)
    modifies (λ d. add_health id (write_credential (new_credential p id api_key webhook_secret) d))
    commit
    pure (hotel_out (new_hotel p id created))

  -- `create_hotel`
  unfoldable pub create_hotel : HotelCreate → Exec State HotelOut
  unfolding register_hotel
  create_hotel p = do
    existing ← reads (λ d. scalar (of_slug p.slug) d.hotels)
    register_hotel p existing

  -- `list_hotels`
  unfoldable pub list_hotels : Exec State (List HotelOut)
  list_hotels = do
    hotels ← reads (λ d. rows d.hotels)
    pure (map hotel_out (latest_first (λ h. h.created_at) hotels))

  -- The insert of a user: the id and the email must be new.
  unfoldable pub flush_user : HotelUser → Option HotelUser → Bool → Exec State (Unit {0})
  flush_user u (some _) _ = throw integrity_error
  flush_user u none true = throw integrity_error
  flush_user u none false = modifies (write_user u)

  unfoldable pub insert_user : HotelUser → Exec State HotelUserOut
  unfolding flush_user
  insert_user u = do
    taken ← reads (λ d. get u.hotel_user_id d.hotel_users)
    duplicate ← reads (λ d. exists (has_user_email u.email) d.hotel_users)
    flush_user u taken duplicate
    commit
    pure (hotel_user_out u)

  abbrev pub new_user :
      HotelUserCreate → (hotel_id id : ℕ) → (hashed : String) → HotelUserRole → HotelUser
  new_user p hotel_id id hashed role = record {
    hotel_user_id = id;
    hotel_id = hotel_id;
    name = p.name;
    email = p.email;
    hashed_password = hashed;
    role = role;
  }

  unfoldable pub provision : HotelUserCreate → Hotel → Option HotelUser → Exec State HotelUserOut
  unfolding insert_user
  provision p hotel (some _) = throw (http_error 409 "Email already in use")
  provision p hotel none = do
    role ← some_or (http_error 400 "Invalid role") (role_of p.role)
    hashed ← hash_password O p.password
    id ← calls uuid4
    insert_user (new_user p hotel.hotel_id id hashed role)

  -- `create_hotel_user`
  unfoldable pub create_hotel_user : (slug : String) → HotelUserCreate → Exec State HotelUserOut
  unfolding provision
  create_hotel_user slug p = do
    hotel ← hotel_of_slug slug
    existing ← reads (λ d. scalar (has_user_email p.email) d.hotel_users)
    provision p hotel existing

  -- `list_hotel_users`
  unfoldable pub list_hotel_users : (slug : String) → Exec State (List HotelUserOut)
  list_hotel_users slug = do
    hotel ← hotel_of_slug slug
    users ← reads (λ d. select (λ u. u.hotel_id == hotel.hotel_id) d.hotel_users)
    pure (map hotel_user_out users)

  -- `sync_health`
  unfoldable pub sync_health : (slug : String) → Exec State SyncHealthOut
  sync_health slug = do
    hotel ← hotel_of_slug slug
    sh ← health_of hotel.hotel_id
    pure (sync_health_out sh)

  -- The dependency of the router: every route of it runs behind the operator's key.
  unfoldable pub as_admin :
      {A : Type 0} (admin_api_key : String)
      → (x_admin_api_key : Option String) → Exec State A
      → Exec State A
  as_admin admin_api_key x_admin_api_key m = require_admin O admin_api_key x_admin_api_key >> m
