-- ===== src/Routes/Common.antt =====
-- app/api/routes: what the endpoints share.
use hotels_aggregator.Prelude.{ℕ, String, Bool, Option, none, some, List, [], ◌∷◌}
use hotels_aggregator.Prelude.Tests.{◌==◌, string_eq, nat_eq, leb, if◌then◌else◌}
use hotels_aggregator.Table.{get, scalar}
use hotels_aggregator.Models.Hotels.{Hotel, SyncHealth}
use hotels_aggregator.Exec.{Exec, reads, some_or, ◌>>=◌}
use hotels_aggregator.Security.Deps.{http_error}

-- `value if value is not None else old`
unfoldable pub assigned {ℓ} : {A : Type ℓ} → Option A → A → A
assigned none old = old
assigned (some value) old = value

-- The same for a column that may be null: None in the request leaves it.
unfoldable pub assigned_some {ℓ} : {A : Type ℓ} → Option A → Option A → Option A
assigned_some none old = old
assigned_some (some value) old = some value

module _ {ℓ} {A : Type ℓ} where
  unfoldable pub insert_latest : (A → ℕ) → A → List A → List A
  insert_latest key a [] = a ∷ []
  insert_latest key a (b ∷ bs) =
      let rest = insert_latest key a bs in if leb (key b) (key a) then a ∷ b ∷ bs else b ∷ rest

  -- `order_by(key.desc())`
  unfoldable pub latest_first : (A → ℕ) → List A → List A
  latest_first key [] = []
  latest_first key (a ∷ as_) = insert_latest key a (latest_first key as_)

abbrev pub of_slug : String → Hotel → Bool
of_slug slug h = h.slug == slug

-- `select(Hotel).where(Hotel.slug == slug)`, or the answer 404.
unfoldable pub hotel_of_slug : {S : Type 0} → String → Exec S Hotel
hotel_of_slug slug = do
  hotel ← reads (λ d. scalar (of_slug slug) d.hotels)
  some_or (http_error 404 "Hotel not found") hotel

-- `session.get(SyncHealth, hotel_id)`, or the answer 404.
unfoldable pub health_of : {S : Type 0} → ℕ → Exec S SyncHealth
health_of hotel_id = do
  sh ← reads (λ d. get hotel_id d.sync_health)
  some_or (http_error 404 "No sync health record") sh
