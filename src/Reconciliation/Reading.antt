-- ===== src/Reconciliation/Reading.antt =====
-- app/workers/reconciliation.py: the reading of a hotel's answer changes nothing at all.
use hotels_aggregator.Prelude.{ℕ, String, Bool, Option, none, some, List, [], ◌∷◌}
use hotels_aggregator.Prelude.Int.{ℤ}
use hotels_aggregator.Json.{
  Json, null, boolean, int, float, text, array, object, nil, field, elements,
}
use hotels_aggregator.Outside.{Outside}
use hotels_aggregator.Exec.{World}
use hotels_aggregator.Exec.Keeps.{IsStable, Keeps, Keeps-as_int, keeps_rules}
use hotels_aggregator.Sync.Indexer.{SearchIndex}
use hotels_aggregator.Orchestrator.Common.{parse_dt}
use hotels_aggregator.Reconciliation.Fields.{
  get_key, as_bool, as_texts, iterated, nullable_text, nullable_bool, int_or, bool_or,
  texts_or_empty, next_cursor,
}
use hotels_aggregator.Reconciliation.RoomTypes.{values_of}
use hotels_aggregator.Reconciliation.Availability.{night_of}

module _ {S : Type 0} {R : World S → World S → Type 0} (stable : IsStable R) where
  pub get_key-Keeps : (k : String) (j : Json) → Keeps R (get_key {S = S} k j)
  unfolding get_key
  get_key-Keeps k (object fs) = search keeps_rules
  get_key-Keeps k _ = search keeps_rules

  as_bool-Keeps : (j : Json) → Keeps R (as_bool {S = S} j)
  unfolding as_bool
  as_bool-Keeps (boolean b) = search keeps_rules
  as_bool-Keeps _ = search keeps_rules

  as_texts-Keeps : (js : List Json) → Keeps R (as_texts {S = S} js)
  unfolding as_texts
  as_texts-Keeps [] = search keeps_rules
  as_texts-Keeps (j ∷ js) = let rest = as_texts-Keeps js in search keeps_rules depth 8

  pub iterated-Keeps : (o : Option Json) → Keeps R (iterated {S = S} o)
  unfolding iterated
  iterated-Keeps none = search keeps_rules
  iterated-Keeps (some (array js)) = search keeps_rules
  iterated-Keeps (some (object nil)) = search keeps_rules
  iterated-Keeps (some (object (field k j fs))) = search keeps_rules
  iterated-Keeps (some (text s)) = search keeps_rules
  iterated-Keeps (some null) = search keeps_rules
  iterated-Keeps (some (boolean b)) = search keeps_rules
  iterated-Keeps (some (int n)) = search keeps_rules
  iterated-Keeps (some (float d)) = search keeps_rules

  nullable_text-Keeps : (o : Option Json) → Keeps R (nullable_text {S = S} o)
  unfolding nullable_text
  nullable_text-Keeps none = search keeps_rules
  nullable_text-Keeps (some null) = search keeps_rules
  nullable_text-Keeps (some (boolean b)) = search keeps_rules
  nullable_text-Keeps (some (int n)) = search keeps_rules
  nullable_text-Keeps (some (float d)) = search keeps_rules
  nullable_text-Keeps (some (text s)) = search keeps_rules
  nullable_text-Keeps (some (array js)) = search keeps_rules
  nullable_text-Keeps (some (object fs)) = search keeps_rules

  pub nullable_bool-Keeps : (o : Option Json) → Keeps R (nullable_bool {S = S} o)
  unfolding nullable_bool
  nullable_bool-Keeps none = search keeps_rules
  nullable_bool-Keeps (some null) = search keeps_rules
  nullable_bool-Keeps (some (boolean b)) = search (keeps_rules, as_bool-Keeps)
  nullable_bool-Keeps (some (int n)) = search (keeps_rules, as_bool-Keeps)
  nullable_bool-Keeps (some (float d)) = search (keeps_rules, as_bool-Keeps)
  nullable_bool-Keeps (some (text s)) = search (keeps_rules, as_bool-Keeps)
  nullable_bool-Keeps (some (array js)) = search (keeps_rules, as_bool-Keeps)
  nullable_bool-Keeps (some (object fs)) = search (keeps_rules, as_bool-Keeps)

  int_or-Keeps : (n : ℤ) (o : Option Json) → Keeps R (int_or {S = S} n o)
  unfolding int_or
  int_or-Keeps n none = search keeps_rules
  int_or-Keeps n (some j) = Keeps-as_int stable j

  bool_or-Keeps : (b : Bool) (o : Option Json) → Keeps R (bool_or {S = S} b o)
  unfolding bool_or
  bool_or-Keeps b none = search keeps_rules
  bool_or-Keeps b (some j) = as_bool-Keeps j

  texts_or_empty-Keeps : (o : Option Json) → Keeps R (texts_or_empty {S = S} o)
  unfolding texts_or_empty
  texts_or_empty-Keeps none = search keeps_rules
  texts_or_empty-Keeps (some (array js)) = as_texts-Keeps (elements js)
  texts_or_empty-Keeps (some null) = search keeps_rules
  texts_or_empty-Keeps (some (boolean b)) = search keeps_rules
  texts_or_empty-Keeps (some (int n)) = search keeps_rules
  texts_or_empty-Keeps (some (float d)) = search keeps_rules
  texts_or_empty-Keeps (some (text s)) = search keeps_rules
  texts_or_empty-Keeps (some (object fs)) = search keeps_rules

ruleset field_rules = (
  keeps_rules, get_key-Keeps, nullable_text-Keeps, int_or-Keeps, bool_or-Keeps,
  texts_or_empty-Keeps,
)

module _ (O : Outside) {R : World O.State → World O.State → Type 0} (stable : IsStable R) where
  pub next_cursor-Keeps : (o : Option Json) → Keeps R (next_cursor O o)
  unfolding next_cursor
  next_cursor-Keeps none = search keeps_rules
  next_cursor-Keeps (some (text s)) = search keeps_rules
  next_cursor-Keeps (some (int n)) = search keeps_rules
  next_cursor-Keeps (some null) = search keeps_rules
  next_cursor-Keeps (some (boolean b)) = search keeps_rules
  next_cursor-Keeps (some (float d)) = search keeps_rules
  next_cursor-Keeps (some (array js)) = search keeps_rules
  next_cursor-Keeps (some (object fs)) = search keeps_rules

  pub values_of-Keeps : (rt : Json) → Keeps R (values_of O rt)
  unfolding values_of parse_dt
  values_of-Keeps rt = search field_rules depth 40

module _ (O : Outside) (I : SearchIndex O.State) (contains : String → String → Bool)
    (today : O.State → ℕ × O.State) (parse_date : String → Option ℕ)
    {R : World O.State → World O.State → Type 0} (stable : IsStable R) where
  pub night_of-Keeps : (night : Json) → Keeps R (night_of O I contains today parse_date night)
  unfolding night_of
  night_of-Keeps night = search field_rules depth 30
