-- ===== src/Search/Grouped.antt =====
-- The groups of a search against the documents they were made from.
use hotels_aggregator.Prelude.{
  ◌≡◌, refl, sym, ap, String, true, false, List, [], ◌∷◌, map, inl, inr,
}
use hotels_aggregator.Prelude.Int.{ℤ, ◌+ℤ◌}
use hotels_aggregator.Prelude.Tests.{◌==◌, string_eq, Bool-cases, beq_eq}
use hotels_aggregator.Prelude.Lists.{All}
use hotels_aggregator.Sync.Indexer.{SearchDoc}
use hotels_aggregator.Search.Groups.{
  Group, has_date, min_ℤ, new_group, add_to_group, is_key, add_hit, group_all, group_hits,
}

-- No date twice.
abbrev pub Distinct : List String → Type 0
Distinct [] = Unit
Distinct (d ∷ ds) = (has_date d ds ≡ false) × Distinct ds

abbrev pub dates_of : List SearchDoc → List String
dates_of = map (λ doc. doc.date)

-- The prices of a document and of those before it, added in this order.
abbrev pub sum_prices : SearchDoc → List SearchDoc → ℤ
sum_prices doc [] = doc.price_minor
sum_prices doc (e ∷ docs) = sum_prices e docs +ℤ doc.price_minor

abbrev pub fewest_rooms : SearchDoc → List SearchDoc → ℤ
fewest_rooms doc [] = doc.rooms_available
fewest_rooms doc (e ∷ docs) = min_ℤ (fewest_rooms e docs) doc.rooms_available

-- A document of this room type and rate plan, of which `P` holds.
pub record DocOf (P : SearchDoc → Type 0) (room_type rate_plan : String) (doc : SearchDoc)
    : Type 0 where
  pub same_room_type : doc.global_room_type_id ≡ room_type
  pub same_rate_plan : doc.rate_plan_code ≡ rate_plan
  pub holds : P doc

-- The documents that a group stands for, the last first: one for each of its dates.
pub record IsGroup (P : SearchDoc → Type 0) (g : Group) : Type 0 where
  pub last : SearchDoc
  pub before : List SearchDoc
  pub docs : All (DocOf P g.room_type_id g.rate_plan_code) (last ∷ before)
  pub dated : g.dates ≡ dates_of (last ∷ before)
  pub distinct : Distinct g.dates
  pub summed : g.total ≡ sum_prices last before
  pub fewest : g.min_rooms ≡ fewest_rooms last before
  pub source : g.src ≡ last

module _ (P : SearchDoc → Type 0) where
  new_group-IsGroup : (hit : SearchDoc) → P hit → IsGroup P (new_group hit)
  unfolding new_group
  new_group-IsGroup hit p = record {
    last = hit;
    before = [];
    docs = (record { same_room_type = refl; same_rate_plan = refl; holds = p }, tt);
    dated = refl;
    distinct = (refl, tt);
    summed = refl;
    fewest = refl;
    source = refl;
  }

  is_key-DocOf :
      (hit : SearchDoc) (g : Group)
      → is_key hit g ≡ true
      → P hit
      → DocOf P g.room_type_id g.rate_plan_code hit
  unfolding is_key
  is_key-DocOf hit g h p = elim (Bool-cases (g.room_type_id == hit.global_room_type_id)) [
    | inl e ↦ record {
      same_room_type = sym (beq_eq g.room_type_id hit.global_room_type_id e);
      same_rate_plan = sym (beq_eq g.rate_plan_code hit.rate_plan_code (rw e at h));
      holds = p;
    }
    | inr e ↦ absurd (cc (rw e at h))
  ]

  add_to_group-IsGroup :
      (hit : SearchDoc) (g : Group)
      → is_key hit g ≡ true
      → P hit
      → IsGroup P g
      → IsGroup P (add_to_group hit g)
  unfolding add_to_group
  add_to_group-IsGroup hit g k p i = elim (Bool-cases (has_date hit.date g.dates)) [
    | inl e ↦ rw e i
    | inr e ↦ rw e (record {
      last = hit;
      before = i.last ∷ i.before;
      docs = (is_key-DocOf hit g k p, i.docs);
      dated = ap (◌∷◌ hit.date) i.dated;
      distinct = (e, i.distinct);
      summed = ap (λ t. t +ℤ hit.price_minor) i.summed;
      fewest = ap (λ t. min_ℤ t hit.rooms_available) i.fewest;
      source = refl;
    })
  ]

  add_hit-IsGroup :
      (hit : SearchDoc) (groups : List Group)
      → P hit
      → All (IsGroup P) groups
      → All (IsGroup P) (add_hit hit groups)
  unfolding add_hit
  add_hit-IsGroup hit [] p h = (new_group-IsGroup hit p, tt)
  add_hit-IsGroup hit (g ∷ groups) p h = elim (Bool-cases (is_key hit g)) [
    | inl e ↦ rw e (add_to_group-IsGroup hit g e p h.0, h.1)
    | inr e ↦ rw e (h.0, add_hit-IsGroup hit groups p h.1)
  ]

  group_all-IsGroup :
      (hits : List SearchDoc) (groups : List Group)
      → All P hits
      → All (IsGroup P) groups
      → All (IsGroup P) (group_all hits groups)
  unfolding group_all
  group_all-IsGroup [] groups p h = h
  group_all-IsGroup (hit ∷ hits) groups p h =
      group_all-IsGroup hits (add_hit hit groups) p.1 (add_hit-IsGroup hit groups p.0 h)

  pub group_hits-IsGroup : (hits : List SearchDoc) → All P hits → All (IsGroup P) (group_hits hits)
  unfolding group_hits
  group_hits-IsGroup hits p = group_all-IsGroup hits [] p tt
