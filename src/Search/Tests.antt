-- ===== src/Search/Tests.antt =====
-- The theorem on the search at a stay of two nights.
use hotels_aggregator.Prelude.{ℕ, String, true, none, some, List, [], ◌∷◌}
use hotels_aggregator.Prelude.Int.{pos}
use hotels_aggregator.Sandbox.{Sandbox}
use hotels_aggregator.Sync.Indexer.{SearchDoc}
use hotels_aggregator.Search.Results.{SearchResponse}
use hotels_aggregator.Search.Query.{SearchArgs, SearchBackend, found}

abbrev night : (date : String) → (price : ℕ) → (rooms : ℕ) → SearchDoc
night date price rooms = record {
  global_room_type_id = "grand.double";
  hotel_id = 7;
  hotel_slug = "grand";
  hotel_display_name = "Grand";
  city = "Kampala";
  country = "UG";
  star_rating = some (pos 4);
  room_type_name = "Double";
  description = none;
  max_occupancy_adults = pos 2;
  max_occupancy_children = pos 1;
  amenities = [];
  photos = [];
  active = true;
  date = date;
  rate_plan_code = "BAR";
  refundable = true;
  price_minor = pos price;
  currency = "USD";
  rooms_available = pos rooms;
  updated_at = "";
}

abbrev hits : List SearchDoc
hits = night "2026-04-11" 12000 3 ∷ night "2026-04-12" 15000 2 ∷ []

abbrev backend : SearchBackend Sandbox
backend = record { search_docs = λ body s. (found hits, s); today = λ s. (99, s) }

abbrev stay_query : SearchArgs
stay_query = record {
  check_in = some 100;
  check_out = some 102;
  city = none;
  adults = 2;
  children = 0;
  rooms = 1;
  min_price_minor = none;
  max_price_minor = some (pos 30000);
  min_star_rating = none;
  amenities = none;
  refundable = none;
  limit = 50;
}

abbrev page : SearchResponse
page = record {
  results =
      record {
        global_room_type_id = "grand.double";
        hotel_slug = "grand";
        hotel_display_name = "Grand";
        city = "Kampala";
        country = "UG";
        star_rating = some (pos 4);
        room_type_name = "Double";
        amenities = [];
        photos = [];
        total_price_minor = pos 27000;
        currency = "USD";
        nights = 2;
        rate_plan_code = "BAR";
        refundable = true;
        min_rooms_available = pos 2;
      }
      ∷ [];
  count = 1;
}
