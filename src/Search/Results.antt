-- ===== src/Search/Results.antt =====
-- app/api/routes/search.py: from the groups to the results, sorted and cut to the limit;
-- `SearchResultItem` and `SearchResponse` of app/schemas/api.py.
use hotels_aggregator.Prelude.{ℕ, String, Bool, true, false, Option, none, some, List, [], ◌∷◌}
use hotels_aggregator.Prelude.Int.{ℤ, ltb_ℤ, leb_ℤ}
use hotels_aggregator.Prelude.Tests.{◌!=◌, nat_eq, if◌then◌else◌}
use hotels_aggregator.Prelude.Lists.{length, take}
use hotels_aggregator.Search.Groups.{Group}

pub record SearchResultItem : Type 0 where
  pub global_room_type_id : String
  pub hotel_slug : String
  pub hotel_display_name : String
  pub city : String
  pub country : String
  pub star_rating : Option ℤ
  pub room_type_name : String
  pub amenities : List String
  pub photos : List String
  pub total_price_minor : ℤ
  pub currency : String
  pub nights : ℕ
  pub rate_plan_code : String
  pub refundable : Bool
  pub min_rooms_available : ℤ

pub record SearchResponse : Type 0 where
  pub results : List SearchResultItem
  pub count : ℕ

unfoldable pub item_of : ℕ → Group → SearchResultItem
item_of nights g = record {
  global_room_type_id = g.room_type_id;
  hotel_slug = g.src.hotel_slug;
  hotel_display_name = g.src.hotel_display_name;
  city = g.src.city;
  country = g.src.country;
  star_rating = g.src.star_rating;
  room_type_name = g.src.room_type_name;
  amenities = g.src.amenities;
  photos = g.src.photos;
  total_price_minor = g.total;
  currency = g.src.currency;
  nights = nights;
  rate_plan_code = g.rate_plan_code;
  refundable = g.src.refundable;
  min_rooms_available = g.min_rooms;
}

-- `bound is not None and total < bound`
unfoldable pub is_below : Option ℤ → ℤ → Bool
is_below none total = false
is_below (some bound) total = ltb_ℤ total bound

-- `bound is not None and total > bound`
unfoldable pub is_above : Option ℤ → ℤ → Bool
is_above none total = false
is_above (some bound) total = ltb_ℤ bound total

-- The three `continue`s.
unfoldable pub is_skipped : ℕ → (min_price max_price : Option ℤ) → Group → Bool
is_skipped nights min_price max_price g =
    if length g.dates != nights
    then true
    else if is_below min_price g.total
    then true
    else is_above max_price g.total

unfoldable pub results_of :
    ℕ → (min_price max_price : Option ℤ) → List Group → List SearchResultItem
results_of nights min_price max_price [] = []
results_of nights min_price max_price (g ∷ groups) =
    let rest = results_of nights min_price max_price groups in
    if is_skipped nights min_price max_price g then rest else item_of nights g ∷ rest

-- `results.sort(key=lambda r: r.total_price_minor)`: the sort of Python is stable.
unfoldable pub insert_by_price : SearchResultItem → List SearchResultItem → List SearchResultItem
insert_by_price r [] = r ∷ []
insert_by_price r (s ∷ rs) =
    let rest = insert_by_price r rs in
    if leb_ℤ r.total_price_minor s.total_price_minor then r ∷ s ∷ rs else s ∷ rest

unfoldable pub sort_by_price : List SearchResultItem → List SearchResultItem
sort_by_price [] = []
sort_by_price (r ∷ rs) = insert_by_price r (sort_by_price rs)

unfoldable pub respond : (limit : ℕ) → List SearchResultItem → SearchResponse
respond limit results =
    let page = take limit (sort_by_price results) in record { results = page; count = length page }
