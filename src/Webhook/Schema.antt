-- ===== src/Webhook/Schema.antt =====
-- app/schemas/webhooks.py: the envelope and the events. Pydantic's validation of a raw body is a
-- parameter of the receiver, into these types.
use hotels_aggregator.Prelude.{ℕ, String, Bool, Option, List}
use hotels_aggregator.Prelude.Int.{ℤ}

pub record RoomTypeData : Type 0 where
  pub room_type_id : String
  pub name : String
  pub description : Option String
  pub max_occupancy_adults : ℤ
  pub max_occupancy_children : ℤ
  pub amenities : List String
  pub photos : List String
  pub active : Bool
  pub updated_at : ℕ

pub record NightlyAvailabilityData : Type 0 where
  pub room_type_id : String
  pub date : ℕ
  pub rate_plan_code : String
  pub rooms_available : ℤ
  pub price_minor : ℤ
  pub currency : String
  pub refundable : Option Bool

pub data Event : Type 0 where
  room_type_upsert : RoomTypeData → Event
  room_type_deleted : (room_type_id : String) → Event
  availability_changed : NightlyAvailabilityData → Event
  rate_changed : NightlyAvailabilityData → Event
  reservation_status : (reservation_id room_type_id : String) → Event
  waitlist_available : (room_type_id rate_plan_code : String) → (check_in check_out : ℕ) → Event
  sync_heartbeat : (hotel_id : String) → (server_time : ℕ) → Event

-- `_MinimalEnvelope`
pub record Envelope : Type 0 where
  pub event_id : String
  pub event_type : String
  pub hotel_id : String

-- What `_webhook_validator.validate_json` makes of a body: an event, a `union_tag_invalid` error,
-- or another ValidationError.
pub data Validation : Type 0 where
  valid : Event → Validation
  unknown_event_type : Validation
  malformed : Validation
