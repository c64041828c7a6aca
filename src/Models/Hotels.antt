-- ===== src/Models/Hotels.antt =====
-- app/db/models.py: hotels, their credentials, sync health, portal users, promotions, and
-- travelers.
use hotels_aggregator.Prelude.{ℕ, String, Bool, Option, none, List}
use hotels_aggregator.Prelude.Int.{ℤ}
use hotels_aggregator.Json.{Decimal}

pub data HotelStatus : Type 0 where
  onboarding active suspended : HotelStatus

pub record Hotel : Type 0 where
  pub hotel_id : ℕ
  pub slug : String
  pub legal_name : String
  pub display_name : String
  pub city : String
  pub country : String
  pub lat : Option Decimal
  pub lon : Option Decimal
  pub star_rating : Option ℤ
  pub photos : List String
  pub status : HotelStatus
  pub created_at : ℕ

pub record HotelCredential : Type 0 where
  pub hotel_id : ℕ
  pub api_base_url : String
  pub api_key_encrypted : String
  pub oauth_client_id : Option String
  pub webhook_secret_encrypted : String
  pub hold_ttl_seconds_default : ℤ

pub data SyncHealthStatus : Type 0 where
  healthy degraded down : SyncHealthStatus

pub record SyncHealth : Type 0 where
  pub hotel_id : ℕ
  pub last_event_received_at : Option ℕ
  pub last_reconciliation_at : Option ℕ
  pub consecutive_failures : ℕ
  pub status : SyncHealthStatus

-- The column defaults of a new row.
abbrev pub new_sync_health : ℕ → SyncHealth
new_sync_health hotel_id = record {
  hotel_id = hotel_id;
  last_event_received_at = none;
  last_reconciliation_at = none;
  consecutive_failures = 0;
  status = healthy;
}

pub data HotelUserRole : Type 0 where
  owner manager : HotelUserRole

pub record HotelUser : Type 0 where
  pub hotel_user_id : ℕ
  pub hotel_id : ℕ
  pub name : String
  pub email : String
  pub hashed_password : String
  pub role : HotelUserRole

pub record Promotion : Type 0 where
  pub promotion_id : ℕ
  pub hotel_id : ℕ
  pub title : String
  pub description : Option String
  pub discount_percentage : Decimal
  pub starts_on : ℕ
  pub ends_on : ℕ
  pub active : Bool

pub record TravelerAccount : Type 0 where
  pub traveler_id : ℕ
  pub name : String
  pub email : String
  pub phone : Option String
  pub hashed_password : String
