-- ===== src/Reconciliation/Availability.antt =====
-- app/workers/reconciliation.py: the prices and the rooms of one hotel for the coming nights.
use hotels_aggregator.Prelude.{ℕ, ◌+◌, String, Bool, Option, List, [], ◌∷◌}
use hotels_aggregator.Prelude.Int.{ℤ}
use hotels_aggregator.Prelude.Tests.{◌==◌, nat_eq, if◌then◌else◌}
use hotels_aggregator.Json.{Json}
use hotels_aggregator.Table.{select}
use hotels_aggregator.Models.Hotels.{Hotel, HotelCredential}
use hotels_aggregator.Models.Indexes.{RoomTypeIndex, RateAvailabilityIndex, reconciliation}
use hotels_aggregator.Exceptions.{Exn, hotel_erp_error, value_error}
use hotels_aggregator.Outside.{Outside}
use hotels_aggregator.Exec.{
  Exec, pure, throw, reads, calls, commit, rollback, catch, some_or, ◌>>=◌, ◌>>◌, subscript,
  as_text, as_int,
}
use hotels_aggregator.Client.{HotelErpClient, from_credential}
use hotels_aggregator.Client.Endpoints.{get_availability}
use hotels_aggregator.Sync.Engine.{write_rate, execute}
use hotels_aggregator.Sync.Indexer.{SearchIndex, index_availability}
use hotels_aggregator.Reconciliation.Health.{
  Breaker, Turn, finished, rolled_back, circuit_open, record_failure, record_success,
  get_sync_health,
}
use hotels_aggregator.Reconciliation.Fields.{get_key, iterated, nullable_bool}

abbrev pub availability_horizon_nights : ℕ
availability_horizon_nights = 30

-- One night of one rate plan, as the hotel's answer has it.
pub record Night : Type 0 where
  pub date_text : String
  pub date : ℕ
  pub price_minor : ℤ
  pub currency : String
  pub rooms_available : ℤ

-- `date.today()` and `date.fromisoformat` are Python's.
module _ (O : Outside) (I : SearchIndex O.State) (contains : String → String → Bool)
    (today : O.State → ℕ × O.State) (parse_date : String → Option ℕ) where
  open O use {State, now, date_text, datetime_text}

  abbrev pub row_of :
      (room_type rate_plan : String) → Option Bool → (t : ℕ) → Night → RateAvailabilityIndex
  row_of room_type rate_plan refundable t v = record {
    global_room_type_id = room_type;
    date = v.date;
    rate_plan_code = rate_plan;
    price_minor = v.price_minor;
    currency = v.currency;
    rooms_available_cached = v.rooms_available;
    refundable = refundable;
    updated_at = t;
    source = reconciliation;
  }

  unfoldable pub night_of : Json → Exec State Night
  night_of night = do
    date ← subscript "date" night
    text_of_date ← as_text date
    day ← some_or value_error (parse_date text_of_date)
    price ← subscript "price_minor" night
    price_int ← as_int price
    currency ← subscript "currency" night
    currency_text ← as_text currency
    rooms ← subscript "rooms_available" night
    rooms_int ← as_int rooms
    pure (record {
      date_text = text_of_date;
      date = day;
      price_minor = price_int;
      currency = currency_text;
      rooms_available = rooms_int;
    })

  -- The upsert of a night and the document of it.
  unfoldable pub resync_night :
      (t : ℕ) → (room_type rate_plan : String) → Option Bool → Json → Exec State (Unit {0})
  unfolding night_of
  resync_night t room_type rate_plan refundable night = do
    v ← night_of night
    execute O (
        write_rate (record { room_type = room_type; night = v.date; rate_plan = rate_plan })
          (row_of room_type rate_plan refundable t v))
    index_availability O I contains (record {
      room_type = room_type;
      date_str = v.date_text;
      rate_plan = rate_plan;
      price = v.price_minor;
      currency_code = v.currency;
      rooms = v.rooms_available;
      stamp = datetime_text t;
      refundable_flag = refundable;
    })

  unfoldable pub resync_nights :
      (t : ℕ) → (room_type rate_plan : String) → Option Bool → List Json → Exec State (Unit {0})
  unfolding resync_night
  resync_nights t room_type rate_plan refundable [] = pure tt
  resync_nights t room_type rate_plan refundable (night ∷ nights) = do
    resync_night t room_type rate_plan refundable night
    resync_nights t room_type rate_plan refundable nights

  -- The nights of one rate plan.
  unfoldable pub resync_line : (t : ℕ) → (room_type : String) → Json → Exec State (Unit {0})
  unfolding resync_nights
  resync_line t room_type line = do
    plan ← subscript "rate_plan_code" line
    plan_text ← as_text plan
    refundable ← get_key "refundable" line
    flag ← nullable_bool refundable
    rates ← get_key "nightly_rates" line
    nights ← iterated rates
    resync_nights t room_type plan_text flag nights

  unfoldable pub resync_lines : (t : ℕ) → (room_type : String) → List Json → Exec State (Unit {0})
  unfolding resync_line
  resync_lines t room_type [] = pure tt
  resync_lines t room_type (line ∷ lines) = do
    resync_line t room_type line
    resync_lines t room_type lines

  -- One room type: the hotel's answer, and its rows, committed.
  unfoldable pub resync_room_type :
      HotelErpClient → (t check_in check_out : ℕ) → RoomTypeIndex → Exec State (Unit {0})
  unfolding resync_lines
  resync_room_type client t check_in check_out rt = do
    quote ←
        get_availability O client rt.global_room_type_id (date_text check_in) (date_text check_out)
          1 1 0
    quotes ← get_key "quotes" quote
    lines ← iterated quotes
    resync_lines t rt.global_room_type_id lines
    commit

  unfoldable pub resync_room_types :
      HotelErpClient → (t check_in check_out : ℕ) → List RoomTypeIndex → Exec State (Unit {0})
  unfolding resync_room_type
  resync_room_types client t check_in check_out [] = pure tt
  resync_room_types client t check_in check_out (rt ∷ rts) = do
    resync_room_type client t check_in check_out rt
    resync_room_types client t check_in check_out rts

  module _ (B : Breaker) where
    -- `except HotelERPError`
    unfoldable pub on_hotel_error : (hotel_id : ℕ) → Exn → Exec State Turn
    on_hotel_error hotel_id (hotel_erp_error e) = do
      rollback
      record_failure O B hotel_id
      pure rolled_back
    on_hotel_error hotel_id e = throw e

    unfoldable pub resync_open : Hotel → HotelCredential → Exec State Turn
    unfolding on_hotel_error resync_room_types
    resync_open hotel cred = do
      sh ← get_sync_health O B hotel.hotel_id
      client ← from_credential O cred
      day ← calls today
      room_types ← reads (λ d. select (λ rt. rt.hotel_id == hotel.hotel_id) d.room_types)
      t ← calls now
      catch
          (resync_room_types client t day (day + availability_horizon_nights) room_types
            >> (record_success O B hotel.hotel_id sh >> pure finished))
          (on_hotel_error hotel.hotel_id)

    -- `_resync_one_hotel_availability`
    unfoldable pub resync_one_hotel_availability : Hotel → HotelCredential → Exec State Turn
    unfolding resync_open
    resync_one_hotel_availability hotel cred = do
      is_open ← circuit_open O B hotel.hotel_id
      if is_open then pure finished else resync_open hotel cred
