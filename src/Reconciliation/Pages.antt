-- ===== src/Reconciliation/Pages.antt =====
-- app/workers/reconciliation.py: the job of the room types.
use hotels_aggregator.Prelude.{
  ℕ, zero, suc, String, Bool, true, false, Option, none, some, List, [], ◌∷◌,
}
use hotels_aggregator.Models.Hotels.{Hotel, HotelCredential, SyncHealth}
use hotels_aggregator.Exceptions.{
  Exn, orchestrator_error, hotel_erp_error, http_exception, integrity_error, database_error,
  key_error, type_error, value_error, invalid_token, missing_greenlet,
}
use hotels_aggregator.Outside.{Outside}
use hotels_aggregator.Database.{Database}
use hotels_aggregator.Exec.{World, Exec, pure, rollback, ◌>>=◌, ◌>>◌}
use hotels_aggregator.Exec.Keeps.{Keeps}
use hotels_aggregator.Exec.Hoare.{
  Frozen, Pred, Hoare, Hoare-bind, Hoare-past, Hoare-pure, Hoare-throw, Hoare-if, Hoare-catch,
  Hoare-weaken,
}
use hotels_aggregator.Client.Frozen.{frozen_rules, from_credential-Frozen, list_room_types-Frozen}
use hotels_aggregator.Client.{HotelErpClient}
use hotels_aggregator.History.{session}
use hotels_aggregator.Security.Sessions.{session-durable}
use hotels_aggregator.Reconciliation.Health.{
  Breaker, finished, unfinished, rolled_back, circuit_open,
}
use hotels_aggregator.Reconciliation.RoomTypes.{
  one_page, all_pages, on_hotel_error, finish, since, reconcile_open,
  reconcile_one_hotel_room_types,
}
use hotels_aggregator.Reconciliation.Jobs.{read_hotel, reconcile_all, reconcile_room_types}
use hotels_aggregator.Reconciliation.Evolves.{Reconciles, Reconciles-refl}
use hotels_aggregator.Reconciliation.Safety.{
  Both, record_failure-Held, record_success-Held, get_sync_health-Held, take_page-Held,
}

module _ (O : Outside) (B : Breaker) (c : Database) where
  open O use {State}

  abbrev Held : Pred
  Held = Both B.circuit_breaker_failure_threshold c

  after_page :
      (next : Option String) (m : String → Exec State Bool)
      → ((x : String) → Hoare Held (m x) (λ _. Held))
      → Hoare {S = State} Held (elim next [ none ↦ pure true | some x ↦ m x ]) (λ _. Held)
  after_page none m h = Hoare-pure true (λ d u q. q)
  after_page (some x) m h = h x

  all_pages-Held :
      (n : ℕ) (client : HotelErpClient) (hotel_id : ℕ) (updated_since cursor : Option String)
      → Hoare Held (all_pages O n client hotel_id updated_since cursor) (λ _. Held)
  unfolding all_pages one_page
  all_pages-Held zero client hotel_id updated_since cursor = Hoare-pure false (λ d u q. q)
  all_pages-Held (suc n) client hotel_id updated_since cursor =
      Hoare-bind (λ _. Held) _ _
        (Hoare-past _ _ (list_room_types-Frozen O client updated_since cursor 100) (λ e d u q. q)
          (take_page-Held O B c hotel_id))
        (λ e d u q. q)
        (λ next.
          after_page next (λ x. all_pages O n client hotel_id updated_since (some x))
            (λ x. all_pages-Held n client hotel_id updated_since (some x)))

  finish-Held :
      (hotel_id : ℕ) (sh : SyncHealth) (ended : Bool)
      → Hoare Held (finish O B hotel_id sh ended) (λ _. Held)
  unfolding finish
  finish-Held hotel_id sh false = Hoare-pure unfinished (λ d u q. q)
  finish-Held hotel_id sh true =
      Hoare-bind (λ _. Held) _ _ (record_success-Held O B c hotel_id sh) (λ e d u q. q)
        (λ _. Hoare-pure finished (λ d u q. q))

  -- After a rollback both states are the committed one.
  pub after_rollback :
      {A : Type 0} (m : Exec State A)
      → Hoare Held m (λ _. Held)
      → Hoare Held (rollback >> m) (λ _. Held)
  unfolding rollback ◌>>=◌
  after_rollback m h = record { at = λ w p. h.at (record w { db = w.durable }) (p.1, p.1) }

  on_hotel_error-Held :
      (hotel_id : ℕ) (e : Exn) → Hoare Held (on_hotel_error O B hotel_id e) (λ _. Held)
  unfolding on_hotel_error
  on_hotel_error-Held hotel_id (hotel_erp_error e) = after_rollback _ (
      Hoare-bind (λ _. Held) _ _ (record_failure-Held O B c hotel_id) (λ e d u q. q)
        (λ _. Hoare-pure rolled_back (λ d u q. q)))
  on_hotel_error-Held hotel_id (orchestrator_error _) = Hoare-throw _ (λ d u q. q)
  on_hotel_error-Held hotel_id (http_exception _) = Hoare-throw _ (λ d u q. q)
  on_hotel_error-Held hotel_id integrity_error = Hoare-throw _ (λ d u q. q)
  on_hotel_error-Held hotel_id database_error = Hoare-throw _ (λ d u q. q)
  on_hotel_error-Held hotel_id (key_error _) = Hoare-throw _ (λ d u q. q)
  on_hotel_error-Held hotel_id type_error = Hoare-throw _ (λ d u q. q)
  on_hotel_error-Held hotel_id value_error = Hoare-throw _ (λ d u q. q)
  on_hotel_error-Held hotel_id invalid_token = Hoare-throw _ (λ d u q. q)
  on_hotel_error-Held hotel_id missing_greenlet = Hoare-throw _ (λ d u q. q)

  reconcile_open-Held :
      (n : ℕ) (hotel : Hotel) (cred : HotelCredential) (sh : SyncHealth)
      → Hoare Held (reconcile_open O B n hotel cred sh) (λ _. Held)
  unfolding reconcile_open
  reconcile_open-Held n hotel cred sh =
      Hoare-past _ _ (from_credential-Frozen O cred) (λ e d u q. q)
        (λ client.
          Hoare-catch (λ _. Held) _ _
            (Hoare-bind (λ _. Held) _ _
              (all_pages-Held n client hotel.hotel_id (since O B sh.last_reconciliation_at) none)
              (λ e d u q. q) (finish-Held hotel.hotel_id sh))
            (λ _ d u q. q) (on_hotel_error-Held hotel.hotel_id))

  pub reconcile_one-Held :
      (n : ℕ) (hotel : Hotel) (cred : HotelCredential)
      → Hoare Held (reconcile_one_hotel_room_types O B n hotel cred) (λ _. Held)
  unfolding reconcile_one_hotel_room_types circuit_open
  reconcile_one-Held n hotel cred =
      Hoare-bind (λ _. Held) _ _ (get_sync_health-Held O B c hotel.hotel_id) (λ e d u q. q)
        (λ sh.
          Hoare-past _ _ (search frozen_rules) (λ e d u q. q)
            (λ is_open.
              Hoare-if is_open (pure finished) (reconcile_open O B n hotel cred sh)
                (λ _. Hoare-pure finished (λ d u q. q)) (λ _. reconcile_open-Held n hotel cred sh)))

  pub read_hotel-Frozen : (expired : Bool) → Keeps Frozen (read_hotel O B expired)
  unfolding read_hotel
  read_hotel-Frozen false = search frozen_rules
  read_hotel-Frozen true = search frozen_rules

  reconcile_all-Held :
      (n : ℕ) (expired : Bool) (hotels : List (Hotel × HotelCredential))
      → Hoare Held (reconcile_all O B n expired hotels) (λ _. Held)
  unfolding reconcile_all
  reconcile_all-Held n expired [] = Hoare-pure [] (λ d u q. q)
  reconcile_all-Held n expired ((hotel, cred) ∷ hotels) =
      Hoare-past _ _ (read_hotel-Frozen expired) (λ e d u q. q)
        (λ _.
          Hoare-bind (λ _. Held) _ _ (reconcile_one-Held n hotel cred) (λ e d u q. q)
            (λ turn.
              Hoare-bind (λ _. Held) _ _ (reconcile_all-Held n _ hotels) (λ e d u q. q)
                (λ rest. Hoare-pure _ (λ d u q. q))))

-- Whatever the hotels answer, the job of the room types commits only such changes: the hotels,
-- credentials, portal users, promotions, travelers, bookings, payments and reviews are as they were;
-- each room type is there still and belongs to the same hotel; if every rate named a known room
-- type, every rate does; and if the status of every hotel's sync health was the one of its failures
-- in a row (healthy for none, down from the threshold on, degraded between), it is so afterwards.
pub reconcile_room_types-Reconciles :
    (O : Outside) (B : Breaker) (n : ℕ) (w : World O.State)
    → Reconciles B.circuit_breaker_failure_threshold w.durable
        (session (reconcile_room_types O B n) w).durable
unfolding reconcile_room_types
reconcile_room_types-Reconciles O B n w =
    let start = Reconciles-refl B.circuit_breaker_failure_threshold w.durable in
    session-durable {P = Both B.circuit_breaker_failure_threshold w.durable}
      {Q = Reconciles B.circuit_breaker_failure_threshold w.durable} _ w
      (Hoare-past _ _ (search frozen_rules) (λ e d u q. q.1)
        (λ hotels.
          Hoare-weaken _ (λ d u q. q) (reconcile_all-Held O B w.durable n false hotels)
            (λ r d u q. q.1)))
      (start, start)
