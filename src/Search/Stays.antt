-- ===== src/Search/Stays.antt =====
-- app/api/routes/search.py: the results of a search, from what the backend returned.
use hotels_aggregator.Prelude.{ℕ, ◌-◌, ◌≤◌, ◌<◌, ◌≡◌, String, true, ◌∷◌}
use hotels_aggregator.Prelude.Int.{pos, ◌≤ℤ◌}
use hotels_aggregator.Prelude.Lists.{All, length}
use hotels_aggregator.Outside.{Outside}
use hotels_aggregator.Sync.Indexer.{SearchDoc}
use hotels_aggregator.Search.Groups.{has_date}
use hotels_aggregator.Search.Results.{SearchResultItem, SearchResponse}
use hotels_aggregator.Search.Query.{SearchArgs}
use hotels_aggregator.Search.Grouped.{dates_of}
use hotels_aggregator.Search.Nights.{night_texts}
use hotels_aggregator.Search.Answers.{Offers, IsSorted}

-- What the filters of the query ask of a document.
pub record Matches (date_text : ℕ → String) (a : SearchArgs) (check_in check_out : ℕ)
    (doc : SearchDoc) : Type 0 where
  pub is_active : doc.active ≡ true
  pub in_window : has_date doc.date (night_texts date_text check_in (check_out - check_in)) ≡ true
  pub enough_rooms : pos a.rooms ≤ℤ doc.rooms_available
  pub enough_adults : pos a.adults ≤ℤ doc.max_occupancy_adults
  pub enough_children : pos a.children ≤ℤ doc.max_occupancy_children

-- An offer for the whole stay: each of its nights has a document.
pub record Stay (date_text : ℕ → String) (a : SearchArgs) (check_in check_out : ℕ)
    (r : SearchResultItem) : Type 0 where
  pub offers :
      Offers
        (Matches date_text a check_in check_out)
        (check_out - check_in)
        a.min_price_minor
        a.max_price_minor
        r
  pub every_night :
      (n : ℕ)
      → check_in ≤ n
      → n < check_out
      → has_date (date_text n) (dates_of (offers.last ∷ offers.before)) ≡ true

-- A page of offers, the cheapest first.
pub record IsPage (date_text : ℕ → String) (a : SearchArgs) (check_in check_out : ℕ)
    (resp : SearchResponse) : Type 0 where
  pub stays : All (Stay date_text a check_in check_out) resp.results
  pub sorted : IsSorted resp.results
  pub counted : resp.count ≡ length resp.results
  pub limited : length resp.results ≤ a.limit
