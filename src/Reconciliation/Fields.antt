-- ===== src/Reconciliation/Fields.antt =====
-- app/workers/reconciliation.py: the fields of a hotel's answer, as the columns take them. A value
-- of another type is refused; the lists of amenities and of photos are lists of texts here.
use hotels_aggregator.Prelude.{String, Bool, Option, none, some, List, [], ◌∷◌}
use hotels_aggregator.Prelude.Int.{ℤ}
use hotels_aggregator.Json.{
  Json, null, boolean, int, text, array, object, nil, member, elements, truthy,
}
use hotels_aggregator.Prelude.Tests.{if◌then◌else◌}
use hotels_aggregator.Exceptions.{type_error}
use hotels_aggregator.Outside.{Outside}
use hotels_aggregator.Exec.{Exec, pure, throw, ◌>>=◌, as_text, as_int}

module _ {S : Type 0} where
  -- `d.get(key)`
  unfoldable pub get_key : String → Json → Exec S (Option Json)
  get_key k (object fs) = pure (member k fs)
  get_key k _ = throw type_error

  unfoldable pub as_bool : Json → Exec S Bool
  as_bool (boolean b) = pure b
  as_bool _ = throw type_error

  unfoldable pub as_texts : List Json → Exec S (List String)
  as_texts [] = pure []
  as_texts (j ∷ js) = do s ← as_text j; ss ← as_texts js; pure (s ∷ ss)

  -- What a `for` over the value runs through; a text or a dict with anything in it has elements
  -- that are no dicts.
  unfoldable pub iterated : Option Json → Exec S (List Json)
  iterated none = pure []
  iterated (some (array js)) = pure (elements js)
  iterated (some (object nil)) = pure []
  iterated (some (text s)) = if truthy (text s) then throw type_error else pure []
  iterated (some _) = throw type_error

  -- A column that may be null.
  unfoldable pub nullable_text : Option Json → Exec S (Option String)
  nullable_text none = pure none
  nullable_text (some null) = pure none
  nullable_text (some j) = do s ← as_text j; pure (some s)

  unfoldable pub nullable_bool : Option Json → Exec S (Option Bool)
  nullable_bool none = pure none
  nullable_bool (some null) = pure none
  nullable_bool (some j) = do b ← as_bool j; pure (some b)

  unfoldable pub int_or : ℤ → Option Json → Exec S ℤ
  unfolding as_int
  int_or default none = pure default
  int_or default (some j) = as_int j

  unfoldable pub bool_or : Bool → Option Json → Exec S Bool
  unfolding as_bool
  bool_or default none = pure default
  bool_or default (some j) = as_bool j

  unfoldable pub texts_or_empty : Option Json → Exec S (List String)
  unfolding as_texts
  texts_or_empty none = pure []
  texts_or_empty (some (array js)) = as_texts (elements js)
  texts_or_empty (some _) = throw type_error

-- `cursor = page.get("next_cursor")`; a falsy one ends the pages. A number is sent as it is printed.
unfoldable pub next_cursor : (O : Outside) → Option Json → Exec O.State (Option String)
next_cursor O none = pure none
next_cursor O (some (text s)) = if truthy (text s) then pure (some s) else pure none
next_cursor O (some (int n)) = if truthy (int n) then pure (some (O.signed_text n)) else pure none
next_cursor O (some j) = if truthy j then throw type_error else pure none
