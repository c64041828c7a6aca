-- ===== src/Reconciliation/Ends.antt =====
-- app/workers/reconciliation.py: the loop over the pages ends when the list of the hotel does.
use hotels_aggregator.Prelude.{ℕ, suc, ◌<◌, String, ◌≡◌, Option, none, some}
use hotels_aggregator.Prelude.Tests.{if◌then◌else◌}
use hotels_aggregator.Json.{Json, int, text, object, member, truthy}
use hotels_aggregator.Outside.{Outside}
use hotels_aggregator.Exec.{World, ok, Exec}
use hotels_aggregator.Client.{HotelErpClient}
use hotels_aggregator.Client.Endpoints.{list_room_types}

-- The cursor that a value of `next_cursor` stands for, if it is one that the loop goes on with.
abbrev pub cursor_of : (O : Outside) → Json → Option String
cursor_of O (text s) = if truthy (text s) then some s else none
cursor_of O (int n) = if truthy (int n) then some (O.signed_text n) else none
cursor_of O _ = none

module _ (O : Outside) where
  open O use {State, database_fails}

  -- The answer names a page after it.
  abbrev pub Names : Json → String → Type 0
  Names (object fs) c = (j : Json) × (member "next_cursor" fs ≡ some j) × (cursor_of O j ≡ some c)
  Names _ c = ⊥

  -- A hotel whose list has so many pages, each with a cursor of its own: what is asked for with the
  -- cursor of a page, if answered, names the next page if it names any, and the last names none.
  pub record Paged (client : HotelErpClient) (updated_since : Option String) (pages : ℕ)
      (cursors : ℕ → Option String) : Type 0 where
    pub first : cursors 0 ≡ none
    pub follows :
        (k : ℕ) (w : World State) (page : Json) (c : String)
        → (list_room_types O client updated_since (cursors k) 100 w).0 ≡ ok page
        → Names page c
        → (suc k < pages) × (cursors (suc k) ≡ some c)
