-- ===== src/Sync/Engine.antt =====
-- app/services/sync_engine.py: the application of one verified event to the read model.
use hotels_aggregator.Prelude.{ℕ, String, Bool, true, false, Option, none, some}
use hotels_aggregator.Prelude.Tests.{nat_eq, string_eq, if◌then◌else◌}
use hotels_aggregator.Table.{get, put}
use hotels_aggregator.Models.Hotels.{Hotel, SyncHealth, healthy, new_sync_health}
use hotels_aggregator.Models.Indexes.{
  RoomTypeIndex, RateAvailabilityIndex, RateKey, webhook, rate_key_eq,
}
use hotels_aggregator.Exceptions.{database_error}
use hotels_aggregator.Outside.{Outside}
use hotels_aggregator.Database.{Database}
use hotels_aggregator.Exec.{Exec, pure, throw, reads, calls, tells, modifies, commit, ◌>>=◌, ◌>>◌}
use hotels_aggregator.Webhook.Schema.{
  RoomTypeData, NightlyAvailabilityData, Event, room_type_upsert, room_type_deleted,
  availability_changed, rate_changed, sync_heartbeat,
}
use hotels_aggregator.Sync.Indexer.{SearchIndex, RoomTypeFields, index_availability}

-- The row after `_touch_sync_health`'s upsert.
unfoldable pub touched :
    (hotel_id : ℕ) → (reset_failures : Bool) → (now : ℕ) → Option SyncHealth → SyncHealth
touched hotel_id reset_failures now none = record (new_sync_health hotel_id) {
  last_event_received_at = some now;
}
touched hotel_id true now (some sh) = record sh {
  last_event_received_at = some now;
  consecutive_failures = 0;
  status = healthy;
}
touched hotel_id false now (some sh) = record sh { last_event_received_at = some now }

-- The row after the upsert of a room type: the hotel of a row that is there stays.
unfoldable pub upserted : (hotel_id : ℕ) → RoomTypeData → Option RoomTypeIndex → RoomTypeIndex
upserted hotel_id d found = record {
  global_room_type_id = d.room_type_id;
  hotel_id = elim found [ none ↦ hotel_id | some rt ↦ rt.hotel_id ];
  name = d.name;
  description = d.description;
  max_occupancy_adults = d.max_occupancy_adults;
  max_occupancy_children = d.max_occupancy_children;
  amenities = d.amenities;
  photos = d.photos;
  active = d.active;
  updated_at = d.updated_at;
}

abbrev pub write_room_type : String → RoomTypeIndex → Database → Database
write_room_type k rt d = record d { room_types = put k rt d.room_types }

abbrev pub write_rate : RateKey → RateAvailabilityIndex → Database → Database
write_rate k r d = record d { rates = put k r d.rates }

abbrev pub rate_key : NightlyAvailabilityData → RateKey
rate_key d = record { room_type = d.room_type_id; night = d.date; rate_plan = d.rate_plan_code }

abbrev pub rate_row : NightlyAvailabilityData → ℕ → RateAvailabilityIndex
rate_row d now = record {
  global_room_type_id = d.room_type_id;
  date = d.date;
  rate_plan_code = d.rate_plan_code;
  price_minor = d.price_minor;
  currency = d.currency;
  rooms_available_cached = d.rooms_available;
  refundable = d.refundable;
  updated_at = now;
  source = webhook;
}

abbrev pub fields_of : RoomTypeData → RoomTypeFields
fields_of d = record {
  room_type_name = d.name;
  description = d.description;
  max_occupancy_adults = d.max_occupancy_adults;
  max_occupancy_children = d.max_occupancy_children;
  amenities = d.amenities;
  photos = d.photos;
}

module _ (O : Outside) where
  open O use {State, database_fails}

  -- `session.execute(stmt)`, which the database may refuse.
  unfoldable pub execute : (Database → Database) → Exec State (Unit {0})
  execute stmt = do
    refused ← calls database_fails
    if refused then throw database_error else modifies stmt

module _ (O : Outside) (I : SearchIndex O.State) (contains : String → String → Bool) where
  open O use {State, now, date_text, datetime_text}

  -- `_touch_sync_health`
  unfoldable pub touch_sync_health :
      (hotel_id : ℕ) → (reset_failures : Bool) → Exec State (Unit {0})
  unfolding execute
  touch_sync_health hotel_id reset_failures = do
    t ← calls now
    execute O (λ d. record d {
      sync_health =
          put hotel_id (touched hotel_id reset_failures t (get hotel_id d.sync_health))
            d.sync_health;
    })

  -- `_upsert_room_type`
  unfoldable pub upsert_room_type : Hotel → RoomTypeData → Exec State (Unit {0})
  unfolding execute
  upsert_room_type hotel d = do
    execute O (λ db.
        write_room_type d.room_type_id
          (upserted hotel.hotel_id d (get d.room_type_id db.room_types)) db)
    commit
    tells (I.update_by_room_type d.room_type_id d.active (some (fields_of d)))

  unfoldable pub deactivate : String → Option RoomTypeIndex → Exec State (Unit {0})
  deactivate room_type_id none = pure tt
  deactivate room_type_id (some rt) = do
    modifies (write_room_type room_type_id (record rt { active = false }))
    commit
    tells (I.update_by_room_type room_type_id false none)

  -- `_delete_room_type`: the row stays, inactive.
  unfoldable pub delete_room_type : String → Exec State (Unit {0})
  unfolding deactivate
  delete_room_type room_type_id = do
    rt ← reads (λ d. get room_type_id d.room_types)
    deactivate room_type_id rt

  unfoldable pub upsert_known :
      NightlyAvailabilityData → Option RoomTypeIndex → Exec State (Unit {0})
  unfolding execute
  upsert_known d none = pure tt
  upsert_known d (some _) = do
    t ← calls now
    execute O (write_rate (rate_key d) (rate_row d t))
    commit
    index_availability O I contains (record {
      room_type = d.room_type_id;
      date_str = date_text d.date;
      rate_plan = d.rate_plan_code;
      price = d.price_minor;
      currency_code = d.currency;
      rooms = d.rooms_available;
      stamp = datetime_text t;
      refundable_flag = d.refundable;
    })

  -- `_upsert_availability`: an event for an unknown room type is skipped.
  unfoldable pub upsert_availability : NightlyAvailabilityData → Exec State (Unit {0})
  unfolding upsert_known
  upsert_availability d = do
    exists ← reads (λ db. get d.room_type_id db.room_types)
    upsert_known d exists

  -- The branches of `dispatch_event` before the last touch of the hotel's sync health.
  unfoldable pub apply : Hotel → Event → Exec State (Unit {0})
  apply hotel (room_type_upsert d) = upsert_room_type hotel d
  apply hotel (room_type_deleted id) = delete_room_type id
  apply hotel (availability_changed d) = upsert_availability d
  apply hotel (rate_changed d) = upsert_availability d
  apply hotel _ = pure tt

  -- `isinstance(event, SyncHeartbeatEvent)`
  abbrev pub is_heartbeat : Event → Bool
  is_heartbeat (sync_heartbeat _ _) = true
  is_heartbeat _ = false

  -- `dispatch_event`
  unfoldable pub dispatch_event : Hotel → Event → Exec State (Unit {0})
  unfolding apply touch_sync_health
  dispatch_event hotel event = do
    apply hotel event
    touch_sync_health hotel.hotel_id (is_heartbeat event)
    commit
