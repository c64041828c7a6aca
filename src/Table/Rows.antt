-- ===== src/Table/Rows.antt =====
-- Rows that a later state of a table still has, up to a relation on their values.
use hotels_aggregator.Prelude.{◌≡◌, refl, some, inl, inr}
use hotels_aggregator.Prelude.Tests.{KeyEq, ◌==◌, Bool-cases, beq_eq}
use hotels_aggregator.Table.{Table, get, put}
use hotels_aggregator.Table.Laws.{get-put}

module _ {ℓ κ} {K : Type ℓ} {V : Type κ} ⦃e : KeyEq K⦄ where
  -- A row of this key, related to the value.
  pub record RowFor (P : V → V → Type κ) (k : K) (v : V) (t : Table K V) : Type (ℓ ⊔ κ) where
    pub row : V
    pub found : get k t ≡ some row
    pub related : P v row

  abbrev pub RowsKept : (V → V → Type κ) → Table K V → Table K V → Type (ℓ ⊔ κ)
  RowsKept P t u = (k : K) (v : V) → get k t ≡ some v → RowFor P k v u

  pub RowsKept-refl : (P : V → V → Type κ) (t : Table K V) → ((v : V) → P v v) → RowsKept P t t
  RowsKept-refl P t r k v h = record { row = v; found = h; related = r v }

  pub RowsKept-trans :
      (P : V → V → Type κ) (s t u : Table K V)
      → ((a b c : V) → P a b → P b c → P a c)
      → RowsKept P s t
      → RowsKept P t u
      → RowsKept P s u
  RowsKept-trans P s t u tr f g k v h =
      let x = f k v h in
      let y = g k x.row x.found in
      record { row = y.row; found = y.found; related = tr v x.row y.row x.related y.related }

  pub put-RowsKept :
      (P : V → V → Type κ) (k : K) (v : V) (t : Table K V)
      → ((a : V) → P a a)
      → ((old : V) → get k t ≡ some old → P old v)
      → RowsKept P t (put k v t)
  put-RowsKept P k v t r step j a h = elim (Bool-cases (k == j)) [
    | inl q ↦ record {
      row = v;
      found = rw (get-put j k v t, q) refl;
      related = step a (rw (beq_eq k j q) h);
    }
    | inr q ↦ record { row = a; found = rw (get-put j k v t, q) h; related = r a }
  ]
