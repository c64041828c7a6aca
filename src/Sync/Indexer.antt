-- ===== src/Sync/Indexer.antt =====
-- app/search/indexer.py: the documents of the search index. The index itself is a parameter; its
-- failures are swallowed, so a call only changes its state.
use hotels_aggregator.Prelude.{ℕ, String, Bool, true, false, Option, none, some, List, [], ◌∷◌}
use hotels_aggregator.Prelude.Int.{ℤ}
use hotels_aggregator.Prelude.Tests.{nat_eq, string_eq, if◌then◌else◌}
use hotels_aggregator.Prelude.Lists.{any_of}
use hotels_aggregator.Text.{◌<>◌}
use hotels_aggregator.Table.{get}
use hotels_aggregator.Models.Hotels.{Hotel}
use hotels_aggregator.Models.Indexes.{RoomTypeIndex}
use hotels_aggregator.Outside.{Outside}
use hotels_aggregator.Exec.{Exec, pure, reads, tells, ◌>>=◌}

-- The document of one room type, night and rate plan.
pub record SearchDoc : Type 0 where
  pub global_room_type_id : String
  pub hotel_id : ℕ
  pub hotel_slug : String
  pub hotel_display_name : String
  pub city : String
  pub country : String
  pub star_rating : Option ℤ
  pub room_type_name : String
  pub description : Option String
  pub max_occupancy_adults : ℤ
  pub max_occupancy_children : ℤ
  pub amenities : List String
  pub photos : List String
  pub active : Bool
  pub date : String
  pub rate_plan_code : String
  pub refundable : Bool
  pub price_minor : ℤ
  pub currency : String
  pub rooms_available : ℤ
  pub updated_at : String

-- The fields that a room type event patches on every document of the room type.
pub record RoomTypeFields : Type 0 where
  pub room_type_name : String
  pub description : Option String
  pub max_occupancy_adults : ℤ
  pub max_occupancy_children : ℤ
  pub amenities : List String
  pub photos : List String

-- The calls of the search backend on the write path.
pub record SearchIndex (S : Type 0) : Type 0 where
  pub index_doc : (id : String) → SearchDoc → S → S
  pub update_by_room_type :
      (global_room_type_id : String) → (active : Bool) → Option RoomTypeFields → S → S

abbrev pub nonrefundable_markers : List String
nonrefundable_markers = "NONREF" ∷ "NON-REF" ∷ "NR" ∷ "NONREFUNDABLE" ∷ "ADVANCE" ∷ "SAVER" ∷ []

-- The arguments of `index_availability`.
pub record NightArgs : Type 0 where
  pub room_type : String
  pub date_str : String
  pub rate_plan : String
  pub price : ℤ
  pub currency_code : String
  pub rooms : ℤ
  pub stamp : String
  pub refundable_flag : Option Bool

unfoldable pub doc_id : String → String → String → String
doc_id global_room_type_id date_str rate_plan_code =
    global_room_type_id <> "|" <> date_str <> "|" <> rate_plan_code

-- `contains marker text` is Python's `marker in text`.
module _ (O : Outside) (I : SearchIndex O.State) (contains : String → String → Bool) where
  open O use {State, upper}

  -- `_infer_refundable`
  unfoldable pub infer_refundable : String → Bool
  infer_refundable rate_plan_code =
      let shouted = upper rate_plan_code in
      if any_of (λ marker. contains marker shouted) nonrefundable_markers then false else true

  unfoldable pub make_doc : NightArgs → RoomTypeIndex → Hotel → SearchDoc
  unfolding infer_refundable
  make_doc a rt hotel = record {
    global_room_type_id = a.room_type;
    hotel_id = hotel.hotel_id;
    hotel_slug = hotel.slug;
    hotel_display_name = hotel.display_name;
    city = hotel.city;
    country = hotel.country;
    star_rating = hotel.star_rating;
    room_type_name = rt.name;
    description = rt.description;
    max_occupancy_adults = rt.max_occupancy_adults;
    max_occupancy_children = rt.max_occupancy_children;
    amenities = rt.amenities;
    photos = rt.photos;
    active = rt.active;
    date = a.date_str;
    rate_plan_code = a.rate_plan;
    refundable = elim (a.refundable_flag) [ none ↦ infer_refundable a.rate_plan | some b ↦ b ];
    price_minor = a.price;
    currency = a.currency_code;
    rooms_available = a.rooms;
    updated_at = a.stamp;
  }

  unfoldable pub index_joined : NightArgs → RoomTypeIndex → Option Hotel → Exec State (Unit {0})
  index_joined a rt none = pure tt
  index_joined a rt (some hotel) =
      tells (I.index_doc (doc_id a.room_type a.date_str a.rate_plan) (make_doc a rt hotel))

  unfoldable pub index_found : NightArgs → Option RoomTypeIndex → Exec State (Unit {0})
  unfolding index_joined
  index_found a none = pure tt
  index_found a (some rt) = do
    hotel ← reads (λ d. get rt.hotel_id d.hotels)
    index_joined a rt hotel

  -- `index_availability`
  unfoldable pub index_availability : NightArgs → Exec State (Unit {0})
  unfolding index_found
  index_availability a = do found ← reads (λ d. get a.room_type d.room_types); index_found a found
