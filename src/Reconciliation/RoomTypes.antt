-- ===== src/Reconciliation/RoomTypes.antt =====
-- app/workers/reconciliation.py: the room types of one hotel, page by page.
use hotels_aggregator.Prelude.{
  ℕ, zero, suc, String, Bool, true, false, Option, none, some, List, [], ◌∷◌,
}
use hotels_aggregator.Prelude.Int.{pos}
use hotels_aggregator.Prelude.Tests.{string_eq, if◌then◌else◌}
use hotels_aggregator.Json.{Json}
use hotels_aggregator.Table.{get}
use hotels_aggregator.Models.Hotels.{Hotel, HotelCredential, SyncHealth}
use hotels_aggregator.Exceptions.{Exn, hotel_erp_error}
use hotels_aggregator.Outside.{Outside}
use hotels_aggregator.Exec.{
  Exec, pure, throw, commit, rollback, catch, ◌>>=◌, ◌>>◌, subscript, as_text, as_int,
}
use hotels_aggregator.Client.{HotelErpClient, from_credential}
use hotels_aggregator.Client.Endpoints.{list_room_types}
use hotels_aggregator.Webhook.Schema.{RoomTypeData}
use hotels_aggregator.Sync.Engine.{write_room_type, upserted, execute}
use hotels_aggregator.Orchestrator.Common.{parse_dt}
use hotels_aggregator.Reconciliation.Health.{
  Breaker, Turn, finished, unfinished, rolled_back, circuit_open, record_failure, record_success,
  get_sync_health,
}
use hotels_aggregator.Reconciliation.Fields.{
  get_key, iterated, nullable_text, int_or, bool_or, texts_or_empty, next_cursor,
}

module _ (O : Outside) where
  open O use {State, datetime_text}

  -- The values of the upsert.
  unfoldable pub values_of : Json → Exec State RoomTypeData
  values_of rt = do
    id ← subscript "room_type_id" rt
    id_text ← as_text id
    name ← subscript "name" rt
    name_text ← as_text name
    description ← get_key "description" rt
    description_text ← nullable_text description
    adults ← subscript "max_occupancy_adults" rt
    adults_int ← as_int adults
    children ← get_key "max_occupancy_children" rt
    children_int ← int_or (pos 0) children
    amenities ← get_key "amenities" rt
    amenity_texts ← texts_or_empty amenities
    photos ← get_key "photos" rt
    photo_texts ← texts_or_empty photos
    is_active ← get_key "active" rt
    active_bool ← bool_or true is_active
    updated ← subscript "updated_at" rt
    updated_text ← as_text updated
    updated_at ← parse_dt O updated_text
    pure (record {
      room_type_id = id_text;
      name = name_text;
      description = description_text;
      max_occupancy_adults = adults_int;
      max_occupancy_children = children_int;
      amenities = amenity_texts;
      photos = photo_texts;
      active = active_bool;
      updated_at = updated_at;
    })

  -- `_upsert_room_type_from_api`: the hotel of a row that is there stays.
  unfoldable pub upsert_room_type_from_api : (hotel_id : ℕ) → Json → Exec State (Unit {0})
  unfolding values_of
  upsert_room_type_from_api hotel_id rt = do
    v ← values_of rt
    execute O (λ d.
        write_room_type v.room_type_id (upserted hotel_id v (get v.room_type_id d.room_types)) d)

  unfoldable pub upsert_all : (hotel_id : ℕ) → List Json → Exec State (Unit {0})
  unfolding upsert_room_type_from_api
  upsert_all hotel_id [] = pure tt
  upsert_all hotel_id (rt ∷ rts) = do upsert_room_type_from_api hotel_id rt; upsert_all hotel_id rts

  -- The rows of a page, committed, and the cursor of the next one.
  unfoldable pub take_page : (hotel_id : ℕ) → Json → Exec State (Option String)
  unfolding upsert_all
  take_page hotel_id page = do
    listed ← get_key "data" page
    room_types ← iterated listed
    upsert_all hotel_id room_types
    commit
    cursor ← get_key "next_cursor" page
    next_cursor O cursor

  -- One turn of the `while True`.
  unfoldable pub one_page :
      HotelErpClient
      → (hotel_id : ℕ) → (updated_since cursor : Option String) → Exec State (Option String)
  unfolding take_page
  one_page client hotel_id updated_since cursor = do
    page ← list_room_types O client updated_since cursor 100
    take_page hotel_id page

  -- The loop, for so many pages at most: whether it came to the last one.
  unfoldable pub all_pages :
      ℕ → HotelErpClient → (hotel_id : ℕ) → (updated_since cursor : Option String) → Exec State Bool
  all_pages zero client hotel_id updated_since cursor = pure false
  all_pages (suc n) client hotel_id updated_since cursor = do
    next ← one_page client hotel_id updated_since cursor
    elim next [ none ↦ pure true | some c ↦ all_pages n client hotel_id updated_since (some c) ]

  module _ (B : Breaker) where
    -- `except HotelERPError`
    unfoldable pub on_hotel_error : (hotel_id : ℕ) → Exn → Exec State Turn
    on_hotel_error hotel_id (hotel_erp_error e) = do
      rollback
      record_failure O B hotel_id
      pure rolled_back
    on_hotel_error hotel_id e = throw e

    abbrev pub since : Option ℕ → Option String
    since none = none
    since (some t) = some (datetime_text t)

    -- The last row of the run is the success, unless the pages did not end.
    unfoldable pub finish : (hotel_id : ℕ) → SyncHealth → Bool → Exec State Turn
    finish hotel_id sh false = pure unfinished
    finish hotel_id sh true = record_success O B hotel_id sh >> pure finished

    unfoldable pub reconcile_open : ℕ → Hotel → HotelCredential → SyncHealth → Exec State Turn
    unfolding finish on_hotel_error all_pages
    reconcile_open n hotel cred sh = do
      client ← from_credential O cred
      catch
          (all_pages n client hotel.hotel_id (since sh.last_reconciliation_at) none
            >>= finish hotel.hotel_id sh)
          (on_hotel_error hotel.hotel_id)

    -- `_reconcile_one_hotel_room_types`: how it ends.
    unfoldable pub reconcile_one_hotel_room_types : ℕ → Hotel → HotelCredential → Exec State Turn
    unfolding reconcile_open
    reconcile_one_hotel_room_types n hotel cred = do
      sh ← get_sync_health O B hotel.hotel_id
      is_open ← circuit_open O B hotel.hotel_id
      if is_open then pure finished else reconcile_open n hotel cred sh
