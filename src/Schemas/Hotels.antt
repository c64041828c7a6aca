-- ===== src/Schemas/Hotels.antt =====
-- app/schemas/api.py: hotels, their portal users and their promotions.
use hotels_aggregator.Prelude.{ℕ, String, Bool, Option, List}
use hotels_aggregator.Prelude.Int.{ℤ}
use hotels_aggregator.Json.{Decimal}
use hotels_aggregator.Models.Hotels.{
  HotelStatus, onboarding, active, suspended, Hotel, SyncHealthStatus, healthy, degraded, down,
  SyncHealth, HotelUserRole, owner, manager, HotelUser, Promotion,
}
use hotels_aggregator.Models.Indexes.{RoomTypeIndex}

pub record HotelCreate : Type 0 where
  pub slug : String
  pub legal_name : String
  pub display_name : String
  pub city : String
  pub country : String
  pub lat : Option Decimal
  pub lon : Option Decimal
  pub star_rating : Option ℤ
  pub api_base_url : String
  pub api_key : String
  pub webhook_secret : String
  pub oauth_client_id : Option String
  pub hold_ttl_seconds_default : ℤ

pub record HotelUpdate : Type 0 where
  pub legal_name : Option String
  pub display_name : Option String
  pub city : Option String
  pub country : Option String
  pub lat : Option Decimal
  pub lon : Option Decimal
  pub star_rating : Option ℤ
  pub status : Option String
  pub api_base_url : Option String
  pub api_key : Option String
  pub webhook_secret : Option String
  pub hold_ttl_seconds_default : Option ℤ

pub record HotelOut : Type 0 where
  pub hotel_id : ℕ
  pub slug : String
  pub legal_name : String
  pub display_name : String
  pub city : String
  pub country : String
  pub lat : Option Decimal
  pub lon : Option Decimal
  pub star_rating : Option ℤ
  pub photos : List String
  pub status : String

pub record SyncHealthOut : Type 0 where
  pub hotel_id : ℕ
  pub last_event_received_at : Option ℕ
  pub last_reconciliation_at : Option ℕ
  pub consecutive_failures : ℕ
  pub status : String

pub record HotelUserCreate : Type 0 where
  pub name : String
  pub email : String
  pub password : String
  pub role : String

pub record HotelUserOut : Type 0 where
  pub hotel_user_id : ℕ
  pub hotel_id : ℕ
  pub name : String
  pub email : String
  pub role : String

pub record HotelPortalLogin : Type 0 where
  pub email : String
  pub password : String

pub record HotelProfileUpdate : Type 0 where
  pub display_name : Option String
  pub city : Option String
  pub lat : Option Decimal
  pub lon : Option Decimal
  pub star_rating : Option ℤ
  pub photos : Option (List String)

pub record PromotionCreate : Type 0 where
  pub title : String
  pub description : Option String
  pub discount_percentage : Decimal
  pub starts_on : ℕ
  pub ends_on : ℕ

pub record PromotionUpdate : Type 0 where
  pub title : Option String
  pub description : Option String
  pub discount_percentage : Option Decimal
  pub starts_on : Option ℕ
  pub ends_on : Option ℕ
  pub active : Option Bool

pub record PromotionOut : Type 0 where
  pub promotion_id : ℕ
  pub hotel_id : ℕ
  pub title : String
  pub description : Option String
  pub discount_percentage : Decimal
  pub starts_on : ℕ
  pub ends_on : ℕ
  pub active : Bool

pub record RoomTypeOut : Type 0 where
  pub global_room_type_id : String
  pub name : String
  pub description : Option String
  pub max_occupancy_adults : ℤ
  pub max_occupancy_children : ℤ
  pub amenities : List String
  pub photos : List String
  pub active : Bool

-- `.value` of the enums
abbrev pub hotel_status_text : HotelStatus → String
hotel_status_text onboarding = "onboarding"
hotel_status_text active = "active"
hotel_status_text suspended = "suspended"

abbrev pub health_text : SyncHealthStatus → String
health_text healthy = "healthy"
health_text degraded = "degraded"
health_text down = "down"

abbrev pub role_text : HotelUserRole → String
role_text owner = "owner"
role_text manager = "manager"

-- `_to_out` of the registry, `_hotel_out` of the portal, and the answer of `hotel_detail`
abbrev pub hotel_out : Hotel → HotelOut
hotel_out h = record {
  hotel_id = h.hotel_id;
  slug = h.slug;
  legal_name = h.legal_name;
  display_name = h.display_name;
  city = h.city;
  country = h.country;
  lat = h.lat;
  lon = h.lon;
  star_rating = h.star_rating;
  photos = h.photos;
  status = hotel_status_text h.status;
}

-- The answer of `my_sync_health` and of `sync_health`.
abbrev pub sync_health_out : SyncHealth → SyncHealthOut
sync_health_out sh = record {
  hotel_id = sh.hotel_id;
  last_event_received_at = sh.last_event_received_at;
  last_reconciliation_at = sh.last_reconciliation_at;
  consecutive_failures = sh.consecutive_failures;
  status = health_text sh.status;
}

abbrev pub hotel_user_out : HotelUser → HotelUserOut
hotel_user_out u = record {
  hotel_user_id = u.hotel_user_id;
  hotel_id = u.hotel_id;
  name = u.name;
  email = u.email;
  role = role_text u.role;
}

-- `_promotion_out`
abbrev pub promotion_out : Promotion → PromotionOut
promotion_out p = record {
  promotion_id = p.promotion_id;
  hotel_id = p.hotel_id;
  title = p.title;
  description = p.description;
  discount_percentage = p.discount_percentage;
  starts_on = p.starts_on;
  ends_on = p.ends_on;
  active = p.active;
}

abbrev pub room_type_out : RoomTypeIndex → RoomTypeOut
room_type_out r = record {
  global_room_type_id = r.global_room_type_id;
  name = r.name;
  description = r.description;
  max_occupancy_adults = r.max_occupancy_adults;
  max_occupancy_children = r.max_occupancy_children;
  amenities = r.amenities;
  photos = r.photos;
  active = r.active;
}
