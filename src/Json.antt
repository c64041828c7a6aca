-- ===== src/Json.antt =====
-- JSON values as Python's `json` module reads them, and the look-ups that the code makes in them.
-- A float is held as the decimal that writes it: mantissa times ten to the minus exponent.
use hotels_aggregator.Prelude.{ℕ, String, Bool, true, false, Option, none, some, List, [], ◌∷◌}
use hotels_aggregator.Prelude.Tests.{◌==◌, if◌then◌else◌, string_eq, nat_eq}
use hotels_aggregator.Prelude.Int.{ℤ, pos}

pub record Decimal : Type 0 where
  pub mantissa : ℤ
  pub exponent : ℕ

mutual
  pub data Json : Type 0 where
    null : Json
    boolean : Bool → Json
    int : ℤ → Json
    float : Decimal → Json
    text : String → Json
    array : Items → Json
    object : Fields → Json

  pub data Items : Type 0 where
    end : Items
    item : Json → Items → Items

  pub data Fields : Type 0 where
    nil : Fields
    field : String → Json → Fields → Fields

-- `d.get(key)` on the pairs of a dict; a later pair of the same key wins in `json.loads`, which
-- keeps each key once.
unfoldable pub member : String → Fields → Option Json
member k nil = none
member k (field j v fs) = if j == k then some v else member k fs

unfoldable pub elements : Items → List Json
elements end = []
elements (item j js) = j ∷ elements js

-- The empty string, the empty list, the empty dict, zero, False and None are falsy.
unfoldable pub truthy : Json → Bool
truthy null = false
truthy (boolean b) = b
truthy (int (pos n)) = if n == 0 then false else true
truthy (int _) = true
truthy (float d) = elim (d.mantissa) [ pos n ↦ if n == 0 then false else true | _ ↦ true ]
truthy (text s) = if s == "" then false else true
truthy (array end) = false
truthy (array _) = true
truthy (object nil) = false
truthy (object _) = true
