-- ===== src/Table.antt =====
-- A database table as an association list from primary keys to rows, in the order in which the
-- rows were inserted. A `select` without `order by` scans in that order.
pub mod Laws
pub mod Rows
pub mod Keyed
pub mod Deletion
use hotels_aggregator.Prelude.{ℕ, Bool, Option, none, some, List, [], ◌∷◌}
use hotels_aggregator.Prelude.Tests.{KeyEq, ◌==◌, if◌then◌else◌}
use hotels_aggregator.Prelude.Lists.{keep_if, first, any_of}

pub record Table {ℓ κ} (K : Type ℓ) (V : Type κ) : Type (ℓ ⊔ κ) where
  pub entries : List (K × V)

module _ {ℓ κ} {K : Type ℓ} {V : Type κ} where
  abbrev pub empty : Table K V
  empty = record { entries = [] }

  abbrev pub values : List (K × V) → List V
  values [] = []
  values ((_, v) ∷ l) = v ∷ values l

  -- All rows.
  unfoldable pub rows : Table K V → List V
  rows t = values t.entries

  -- `session.scalars(select(...).where(p))`
  unfoldable pub select : (V → Bool) → Table K V → List V
  unfolding rows
  select p t = keep_if p (rows t)

  -- `session.scalar(select(...).where(p))`: the first row that passes, or None.
  unfoldable pub scalar : (V → Bool) → Table K V → Option V
  unfolding rows
  scalar p t = first p (rows t)

  -- Some row passes.
  unfoldable pub exists : (V → Bool) → Table K V → Bool
  unfolding rows
  exists p t = any_of p (rows t)

  abbrev pub update_entries : (V → Bool) → (V → V) → List (K × V) → List (K × V)
  update_entries p f [] = []
  update_entries p f ((k, v) ∷ l) = (k, if p v then f v else v) ∷ update_entries p f l

  -- `update(...).where(p).values(...)`
  unfoldable pub update_where : (V → Bool) → (V → V) → Table K V → Table K V
  update_where p f t = record { entries = update_entries p f t.entries }

  abbrev pub drop_entries : (V → Bool) → List (K × V) → List (K × V)
  drop_entries p [] = []
  drop_entries p ((k, v) ∷ l) = if p v then drop_entries p l else (k, v) ∷ drop_entries p l

  -- `delete ... where p`, as a cascade makes it.
  unfoldable pub delete_where : (V → Bool) → Table K V → Table K V
  delete_where p t = record { entries = drop_entries p t.entries }

module _ {ℓ κ} {K : Type ℓ} {V : Type κ} ⦃e : KeyEq K⦄ where
  abbrev pub lookup : K → List (K × V) → Option V
  lookup k [] = none
  lookup k ((j, v) ∷ l) = if j == k then some v else lookup k l

  abbrev pub insert : K → V → List (K × V) → List (K × V)
  insert k v [] = (k, v) ∷ []
  insert k v ((j, w) ∷ l) = if j == k then (k, v) ∷ l else (j, w) ∷ insert k v l

  abbrev pub without : K → List (K × V) → List (K × V)
  without k [] = []
  without k ((j, v) ∷ l) = if j == k then without k l else (j, v) ∷ without k l

  -- `session.get(Model, key)`
  unfoldable pub get : K → Table K V → Option V
  get k t = lookup k t.entries

  -- An insert, or the write of a row that is there.
  unfoldable pub put : K → V → Table K V → Table K V
  put k v t = record { entries = insert k v t.entries }

  -- `session.delete(row)`
  unfoldable pub delete : K → Table K V → Table K V
  delete k t = record { entries = without k t.entries }
