-- ===== src/Search/Answers.antt =====
-- app/api/routes/search.py: what each result of an answer offers, their order and their number.
use hotels_aggregator.Prelude.{
  ℕ, zero, suc, ◌≡◌, refl, sym, ap, ◌∙◌, subst, arith, true, false, Option, List, [], ◌∷◌, inl, inr,
}
use hotels_aggregator.Prelude.Int.{ℤ, ◌≤ℤ◌, leb_ℤ}
use hotels_aggregator.Prelude.Tests.{◌==◌, nat_eq, string_eq, Bool-cases, beq_eq}
use hotels_aggregator.Prelude.Lists.{All, All-take, All-map, length, take}
use hotels_aggregator.Sync.Indexer.{SearchDoc}
use hotels_aggregator.Search.Groups.{Group}
use hotels_aggregator.Search.Results.{
  SearchResultItem, item_of, is_below, is_above, is_skipped, results_of, insert_by_price,
  sort_by_price,
}
use hotels_aggregator.Search.Grouped.{Distinct, dates_of, sum_prices, fewest_rooms, DocOf, IsGroup}

abbrev pub WithinPrices : Option ℤ → Option ℤ → ℤ → Type 0
WithinPrices low high total = (is_below low total ≡ false) × (is_above high total ≡ false)

-- A result and the documents that it sums up, one for each night.
pub record Offers (P : SearchDoc → Type 0) (nights : ℕ) (low high : Option ℤ) (r : SearchResultItem)
    : Type 0 where
  pub last : SearchDoc
  pub before : List SearchDoc
  pub docs : All (DocOf P r.global_room_type_id r.rate_plan_code) (last ∷ before)
  pub distinct : Distinct (dates_of (last ∷ before))
  pub each_night : length (dates_of (last ∷ before)) ≡ nights
  pub stay : r.nights ≡ nights
  pub summed : r.total_price_minor ≡ sum_prices last before
  pub fewest : r.min_rooms_available ≡ fewest_rooms last before
  pub within : WithinPrices low high r.total_price_minor

abbrev pub Cheapest : SearchResultItem → SearchResultItem → Type 0
Cheapest r s = r.total_price_minor ≤ℤ s.total_price_minor

-- Ascending prices.
abbrev pub IsSorted : List SearchResultItem → Type 0
IsSorted [] = Unit
IsSorted (r ∷ rs) = All (Cheapest r) rs × IsSorted rs

module _ (P : SearchDoc → Type 0) (nights : ℕ) (low high : Option ℤ) where
  not_skipped :
      (g : Group)
      → is_skipped nights low high g ≡ false
      → (length g.dates ≡ nights) × WithinPrices low high g.total
  unfolding is_skipped
  not_skipped g h = elim (Bool-cases (length g.dates == nights)) [
    | inr e ↦ absurd (cc (rw e at h))
    | inl e ↦ elim (Bool-cases (is_below low g.total)) [
      | inl f ↦ absurd (cc (rw (e, f) at h))
      | inr f ↦ (beq_eq (length g.dates) nights e, (f, rw (e, f) at h))
    ]
  ]

  item_of-Offers :
      (g : Group)
      → is_skipped nights low high g ≡ false
      → IsGroup P g
      → Offers P nights low high (item_of nights g)
  unfolding item_of
  item_of-Offers g h i =
      let q = not_skipped g h in
      record {
        last = i.last;
        before = i.before;
        docs = i.docs;
        distinct = subst Distinct i.dated i.distinct;
        each_night = ap length (sym i.dated) ∙ q.0;
        stay = refl;
        summed = i.summed;
        fewest = i.fewest;
        within = q.1;
      }

  pub results_of-Offers :
      (groups : List Group)
      → All (IsGroup P) groups
      → All (Offers P nights low high) (results_of nights low high groups)
  unfolding results_of
  results_of-Offers [] h = tt
  results_of-Offers (g ∷ groups) h = elim (Bool-cases (is_skipped nights low high g)) [
    | inl e ↦ rw e (results_of-Offers groups h.1)
    | inr e ↦ rw e (item_of-Offers g e h.0, results_of-Offers groups h.1)
  ]

module _ {κ} (Q : SearchResultItem → Type κ) where
  All-insert_by_price :
      (r : SearchResultItem) (rs : List SearchResultItem)
      → Q r
      → All Q rs
      → All Q (insert_by_price r rs)
  unfolding insert_by_price
  All-insert_by_price r [] q h = (q, tt)
  All-insert_by_price r (s ∷ rs) q h =
      elim (Bool-cases (leb_ℤ r.total_price_minor s.total_price_minor)) [
        | inl e ↦ rw e (q, h)
        | inr e ↦ rw e (h.0, All-insert_by_price r rs q h.1)
      ]

  pub All-sort_by_price : (rs : List SearchResultItem) → All Q rs → All Q (sort_by_price rs)
  unfolding sort_by_price
  All-sort_by_price [] h = tt
  All-sort_by_price (r ∷ rs) h =
      All-insert_by_price r (sort_by_price rs) h.0 (All-sort_by_price rs h.1)

leb_ℤ→le : (a b : ℤ) → leb_ℤ a b ≡ true → a ≤ℤ b
leb_ℤ→le a b h = ground arith

not_leb_ℤ : (a b : ℤ) → leb_ℤ a b ≡ false → b ≤ℤ a
not_leb_ℤ a b h = ground arith

≤ℤ_trans : (a b c : ℤ) → a ≤ℤ b → b ≤ℤ c → a ≤ℤ c
≤ℤ_trans a b c h k = omega arith

insert_by_price-IsSorted :
    (r : SearchResultItem) (rs : List SearchResultItem)
    → IsSorted rs
    → IsSorted (insert_by_price r rs)
unfolding insert_by_price
insert_by_price-IsSorted r [] h = (tt, tt)
insert_by_price-IsSorted r (s ∷ rs) h =
    elim (Bool-cases (leb_ℤ r.total_price_minor s.total_price_minor)) [
      | inl e ↦
          let first = leb_ℤ→le r.total_price_minor s.total_price_minor e in
          rw e (
            (
              first,
              All-map (Cheapest s) (Cheapest r)
                  (λ t. ≤ℤ_trans r.total_price_minor s.total_price_minor t.total_price_minor first)
                  rs h.0,
            ),
            h,
          )
      | inr e ↦ rw e (
        All-insert_by_price (Cheapest s) r rs (not_leb_ℤ r.total_price_minor s.total_price_minor e)
            h.0,
        insert_by_price-IsSorted r rs h.1,
      )
    ]

pub sort_by_price-IsSorted : (rs : List SearchResultItem) → IsSorted (sort_by_price rs)
unfolding sort_by_price
sort_by_price-IsSorted [] = tt
sort_by_price-IsSorted (r ∷ rs) =
    insert_by_price-IsSorted r (sort_by_price rs) (sort_by_price-IsSorted rs)

pub take-IsSorted : (n : ℕ) (rs : List SearchResultItem) → IsSorted rs → IsSorted (take n rs)
take-IsSorted zero rs h = tt
take-IsSorted (suc n) [] h = tt
take-IsSorted (suc n) (r ∷ rs) h = (All-take (Cheapest r) n rs h.0, take-IsSorted n rs h.1)
