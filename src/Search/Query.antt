-- ===== src/Search/Query.antt =====
-- app/api/routes/search.py: `search`, from the query to the answer. OpenSearch and the date of
-- today are parameters.
use hotels_aggregator.Prelude.{
  ℕ, ◌+◌, ◌-◌, String, Bool, true, Option, none, some, List, [], ◌∷◌, ◌++◌, map,
}
use hotels_aggregator.Prelude.Int.{ℤ, pos}
use hotels_aggregator.Prelude.Tests.{leb, if◌then◌else◌}
use hotels_aggregator.Text.{◌<>◌, nonempty}
use hotels_aggregator.Json.{
  Json, int, text, boolean, array, object, Items, end, item, Fields, nil, field,
}
use hotels_aggregator.Security.Deps.{http_error}
use hotels_aggregator.Outside.{Outside}
use hotels_aggregator.Exec.{Exec, pure, throw, calls, ◌>>=◌}
use hotels_aggregator.Sync.Indexer.{SearchDoc}
use hotels_aggregator.Search.Groups.{group_hits}
use hotels_aggregator.Search.Results.{SearchResponse, results_of, respond}

-- The query parameters.
pub record SearchArgs : Type 0 where
  pub check_in : Option ℕ
  pub check_out : Option ℕ
  pub city : Option String
  pub adults : ℕ
  pub children : ℕ
  pub rooms : ℕ
  pub min_price_minor : Option ℤ
  pub max_price_minor : Option ℤ
  pub min_star_rating : Option ℤ
  pub amenities : Option (List String)
  pub refundable : Option Bool
  pub limit : ℕ

-- The `_source` of each hit, or an exception of the client, with its text.
pub data SearchOutcome : Type 0 where
  found : List SearchDoc → SearchOutcome
  failed : (exc : String) → SearchOutcome

-- The calls of OpenSearch and of `date.today`.
pub record SearchBackend (S : Type 0) : Type 0 where
  pub search_docs : (body : Json) → S → SearchOutcome × S
  pub today : S → ℕ × S

abbrev pub or_day : Option ℕ → ℕ → ℕ
or_day none day = day
or_day (some day) _ = day

unfoldable pub term : String → Json → Json
term name value = object (field "term" (object (field name value nil)) nil)

unfoldable pub range_of : String → Fields → Json
range_of name bounds = object (field "range" (object (field name (object bounds) nil)) nil)

unfoldable pub at_least : String → ℤ → Json
unfolding range_of
at_least name n = range_of name (field "gte" (int n) nil)

unfoldable pub city_filter : Option String → List Json
unfolding term
city_filter none = []
city_filter (some city) = if nonempty city then term "city" (text city) ∷ [] else []

unfoldable pub star_filter : Option ℤ → List Json
unfolding at_least
star_filter none = []
star_filter (some stars) = at_least "star_rating" stars ∷ []

unfoldable pub refundable_filter : Option Bool → List Json
unfolding term
refundable_filter none = []
refundable_filter (some b) = term "refundable" (boolean b) ∷ []

unfoldable pub amenity_filters : Option (List String) → List Json
unfolding term
amenity_filters none = []
amenity_filters (some amenities) = map (λ a. term "amenities" (text a)) amenities

abbrev pub items_of : List Json → Items
items_of [] = end
items_of (j ∷ js) = item j (items_of js)

module _ (O : Outside) (B : SearchBackend O.State) where
  open O use {State, date_text}

  -- `filters`
  unfoldable pub filters : SearchArgs → (check_in check_out : ℕ) → List Json
  unfolding term range_of at_least city_filter star_filter refundable_filter amenity_filters
  filters a check_in check_out =
      (term "active" (boolean true)
        ∷ range_of "date"
            (field "gte" (text (date_text check_in)) (field "lt" (text (date_text check_out)) nil))
        ∷ at_least "rooms_available" (pos a.rooms)
        ∷ at_least "max_occupancy_adults" (pos a.adults)
        ∷ at_least "max_occupancy_children" (pos a.children)
        ∷ [])
      ++ (city_filter a.city
          ++ (star_filter a.min_star_rating
              ++ (refundable_filter a.refundable ++ amenity_filters a.amenities)))

  unfoldable pub query_body : SearchArgs → (check_in check_out : ℕ) → Json
  unfolding filters
  query_body a check_in check_out = object (
      field "size" (int (pos 2000)) (
        field "query"
          (object (
            field "bool"
              (object (field "filter" (array (items_of (filters a check_in check_out))) nil)) nil))
          nil))

  -- Grouping, filtering, sorting, and the limit.
  unfoldable pub answer : SearchArgs → (nights : ℕ) → List SearchDoc → SearchResponse
  answer a nights hits =
      respond a.limit (results_of nights a.min_price_minor a.max_price_minor (group_hits hits))

  unfoldable pub with_hits : SearchArgs → (nights : ℕ) → SearchOutcome → Exec State SearchResponse
  unfolding answer
  with_hits a nights (failed exc) = throw (http_error 503 ("Search backend unavailable: " <> exc))
  with_hits a nights (found hits) = pure (answer a nights hits)

  unfoldable pub search_window : SearchArgs → (check_in check_out : ℕ) → Exec State SearchResponse
  unfolding with_hits query_body
  search_window a check_in check_out =
      if leb check_out check_in
      then throw (http_error 400 "check_out must be after check_in")
      else (do
        hits ← calls (B.search_docs (query_body a check_in check_out))
        with_hits a (check_out - check_in) hits)

  unfoldable pub check_in_day : Option ℕ → Exec State ℕ
  check_in_day (some day) = pure day
  check_in_day none = do today ← calls B.today; pure (today + 1)

  -- `search`
  unfoldable pub search_stays : SearchArgs → Exec State SearchResponse
  unfolding search_window check_in_day
  search_stays a = do
    check_in ← check_in_day a.check_in
    search_window a check_in (or_day a.check_out (check_in + 1))
