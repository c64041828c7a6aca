-- ===== src/Reconciliation/Jobs.antt =====
-- app/workers/reconciliation.py: the two jobs, over the active hotels.
use hotels_aggregator.Prelude.{
  ℕ, String, Bool, true, false, Option, none, some, List, [], ◌∷◌, ◌||◌,
}
use hotels_aggregator.Prelude.Tests.{nat_eq, if◌then◌else◌}
use hotels_aggregator.Table.{Table, get, rows}
use hotels_aggregator.Models.Hotels.{Hotel, HotelCredential, HotelStatus, active}
use hotels_aggregator.Exceptions.{missing_greenlet}
use hotels_aggregator.Outside.{Outside}
use hotels_aggregator.Database.{Database}
use hotels_aggregator.Exec.{Exec, pure, throw, calls, reads, ◌>>=◌, ◌>>◌}
use hotels_aggregator.Sync.Indexer.{SearchIndex}
use hotels_aggregator.Reconciliation.Health.{Breaker, Turn, rolled_back}
use hotels_aggregator.Reconciliation.RoomTypes.{reconcile_one_hotel_room_types}
use hotels_aggregator.Reconciliation.Availability.{resync_one_hotel_availability}

abbrev pub is_active : HotelStatus → Bool
is_active active = true
is_active _ = false

abbrev with_credential :
    Hotel → Option HotelCredential → List (Hotel × HotelCredential) → List (Hotel × HotelCredential)
with_credential h none rest = rest
with_credential h (some c) rest = (h, c) ∷ rest

unfoldable pub joined : Table ℕ HotelCredential → List Hotel → List (Hotel × HotelCredential)
joined creds [] = []
joined creds (h ∷ hs) =
    let rest = joined creds hs in
    if is_active h.status then with_credential h (get h.hotel_id creds) rest else rest

-- `_active_hotels`
unfoldable pub active_hotels : Database → List (Hotel × HotelCredential)
active_hotels d = joined d.credentials (rows d.hotels)

abbrev is_rolled_back : Turn → Bool
is_rolled_back rolled_back = true
is_rolled_back _ = false

module _ (O : Outside) (B : Breaker) where
  open O use {State, expired_read_fails}

  -- `hotel.hotel_id`, when the session may have rolled back since the hotels were read.
  unfoldable pub read_hotel : (expired : Bool) → Exec State (Unit {0})
  read_hotel false = pure tt
  read_hotel true = do
    fails ← calls expired_read_fails
    if fails then throw missing_greenlet else pure tt

  -- The loop over the hotels: a rollback for one of them expires those after it too.
  unfoldable pub reconcile_all :
      ℕ → (expired : Bool) → List (Hotel × HotelCredential) → Exec State (List Turn)
  unfolding read_hotel
  reconcile_all n expired [] = pure []
  reconcile_all n expired ((hotel, cred) ∷ hotels) = do
    read_hotel expired
    turn ← reconcile_one_hotel_room_types O B n hotel cred
    rest ← reconcile_all n (expired || is_rolled_back turn) hotels
    pure (turn ∷ rest)

  -- `reconcile_room_types`: for each hotel, how it was left.
  unfoldable pub reconcile_room_types : ℕ → Exec State (List Turn)
  unfolding reconcile_all
  reconcile_room_types n = do hotels ← reads active_hotels; reconcile_all n false hotels

  module _ (I : SearchIndex State) (contains : String → String → Bool) (today : State → ℕ × State)
      (parse_date : String → Option ℕ) where
    unfoldable pub resync_all :
        (expired : Bool) → List (Hotel × HotelCredential) → Exec State (Unit {0})
    unfolding read_hotel
    resync_all expired [] = pure tt
    resync_all expired ((hotel, cred) ∷ hotels) = do
      read_hotel expired
      turn ← resync_one_hotel_availability O I contains today parse_date B hotel cred
      resync_all (expired || is_rolled_back turn) hotels

    -- `full_availability_resync`
    unfoldable pub full_availability_resync : Exec State (Unit {0})
    unfolding resync_all
    full_availability_resync = do hotels ← reads active_hotels; resync_all false hotels
