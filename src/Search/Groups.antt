-- ===== src/Search/Groups.antt =====
-- app/api/routes/search.py: the hits grouped by room type and rate plan.
use hotels_aggregator.Prelude.{String, Bool, ◌&&◌, List, [], ◌∷◌}
use hotels_aggregator.Prelude.Int.{ℤ, ◌+ℤ◌, ltb_ℤ}
use hotels_aggregator.Prelude.Tests.{◌==◌, string_eq, if◌then◌else◌}
use hotels_aggregator.Prelude.Lists.{any_of}
use hotels_aggregator.Sync.Indexer.{SearchDoc}

-- An entry of `groups`. `dates` is the set, the date added last first.
pub record Group : Type 0 where
  pub room_type_id : String
  pub rate_plan_code : String
  pub dates : List String
  pub total : ℤ
  pub min_rooms : ℤ
  pub src : SearchDoc

-- `date in dates`
abbrev pub has_date : String → List String → Bool
has_date date dates = any_of (λ d. d == date) dates

-- `min(a, b)`
abbrev pub min_ℤ : ℤ → ℤ → ℤ
min_ℤ a b = if ltb_ℤ b a then b else a

-- The entry that `defaultdict` makes for a new key, with its first hit.
unfoldable pub new_group : SearchDoc → Group
new_group hit = record {
  room_type_id = hit.global_room_type_id;
  rate_plan_code = hit.rate_plan_code;
  dates = hit.date ∷ [];
  total = hit.price_minor;
  min_rooms = hit.rooms_available;
  src = hit;
}

-- A date that the group has is passed over.
unfoldable pub add_to_group : SearchDoc → Group → Group
add_to_group hit g = if has_date hit.date g.dates then g else record g {
  dates = hit.date ∷ g.dates;
  total = g.total +ℤ hit.price_minor;
  min_rooms = min_ℤ g.min_rooms hit.rooms_available;
  src = hit;
}

unfoldable pub is_key : SearchDoc → Group → Bool
is_key hit g =
    (g.room_type_id == hit.global_room_type_id) && (g.rate_plan_code == hit.rate_plan_code)

-- One round of the loop over the hits; the dict keeps the order in which keys came.
unfoldable pub add_hit : SearchDoc → List Group → List Group
add_hit hit [] = new_group hit ∷ []
add_hit hit (g ∷ groups) =
    let rest = add_hit hit groups in if is_key hit g then add_to_group hit g ∷ groups else g ∷ rest

unfoldable pub group_all : List SearchDoc → List Group → List Group
group_all [] groups = groups
group_all (hit ∷ hits) groups = group_all hits (add_hit hit groups)

unfoldable pub group_hits : List SearchDoc → List Group
group_hits hits = group_all hits []
