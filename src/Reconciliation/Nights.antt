-- ===== src/Reconciliation/Nights.antt =====
-- app/workers/reconciliation.py: the job of the availability.
use hotels_aggregator.Prelude.{false, ℕ, String, Bool, ◌≡◌, subst, Option, List, [], ◌∷◌}
use hotels_aggregator.Prelude.Tests.{◌==◌, nat_eq, string_eq}
use hotels_aggregator.Prelude.Lists.{All}
use hotels_aggregator.Json.{Json}
use hotels_aggregator.Table.{select}
use hotels_aggregator.Table.Keyed.{select-All}
use hotels_aggregator.Models.Hotels.{Hotel, HotelCredential}
use hotels_aggregator.Models.Indexes.{RoomTypeIndex}
use hotels_aggregator.Exceptions.{
  Exn, orchestrator_error, hotel_erp_error, http_exception, integrity_error, database_error,
  key_error, type_error, value_error, invalid_token, missing_greenlet,
}
use hotels_aggregator.Outside.{Outside}
use hotels_aggregator.Database.{Database}
use hotels_aggregator.Exec.{World, pure}
use hotels_aggregator.Exec.Hoare.{
  Frozen-stable, Pred, Hoare, Hoare-bind, Hoare-past, Hoare-reads, Hoare-pure, Hoare-throw,
  Hoare-if, Hoare-catch, Hoare-weaken, Hoare-Frozen, Hoare-commit_last,
}
use hotels_aggregator.Client.Frozen.{frozen_rules, from_credential-Frozen, get_availability-Frozen}
use hotels_aggregator.Client.{HotelErpClient}
use hotels_aggregator.History.{session}
use hotels_aggregator.Security.Sessions.{session-durable}
use hotels_aggregator.Sync.Indexer.{SearchIndex}
use hotels_aggregator.Sync.Safety.{index_availability-Frozen}
use hotels_aggregator.Reconciliation.Health.{Breaker, finished, rolled_back, circuit_open}
use hotels_aggregator.Reconciliation.Availability.{
  row_of, resync_night, resync_nights, resync_line, resync_lines, resync_room_type,
  resync_room_types, on_hotel_error, resync_open, resync_one_hotel_availability,
}
use hotels_aggregator.Reconciliation.Jobs.{resync_all, full_availability_resync}
use hotels_aggregator.Reconciliation.Evolves.{
  Reconciles, Reconciles-refl, Reconciles-trans, Reconciles-rate, RoomTypesKeyed, Known,
  Known-Syncs,
}
use hotels_aggregator.Reconciliation.Reading.{
  get_key-Keeps, iterated-Keeps, nullable_bool-Keeps, night_of-Keeps,
}
use hotels_aggregator.Reconciliation.Safety.{
  Both, execute-Held, record_failure-Held, record_success-Held, get_sync_health-Held,
}
use hotels_aggregator.Reconciliation.Pages.{after_rollback, read_hotel-Frozen}

module _ (O : Outside) (I : SearchIndex O.State) (contains : String → String → Bool)
    (today : O.State → ℕ × O.State) (parse_date : String → Option ℕ) (B : Breaker)
    (c : Database) where
  open O use {State}

  abbrev Held : Pred
  Held = Both B.circuit_breaker_failure_threshold c

  -- Room types that are there stay there.
  abbrev AllKnown : List RoomTypeIndex → Database → Type 0
  AllKnown rts d = All (λ rt. Known rt.global_room_type_id d) rts

  AllKnown-step :
      (rts : List RoomTypeIndex) (d e : Database)
      → Reconciles B.circuit_breaker_failure_threshold d e
      → AllKnown rts d
      → AllKnown rts e
  AllKnown-step [] d e s h = tt
  AllKnown-step (rt ∷ rts) d e s h =
      (Known-Syncs rt.global_room_type_id d e s.syncs h.0, AllKnown-step rts d e s h.1)

  module _ (rts : List RoomTypeIndex) where
    -- While the room types are there.
    abbrev There : Pred
    There d u = Held d u × AllKnown rts d

    resync_night-There :
        (t : ℕ) (id plan : String) (refundable : Option Bool) (night : Json)
        → ((d : Database) → AllKnown rts d → Known id d)
        → Hoare There
            (resync_night O I contains today parse_date t id plan refundable night)
            (λ _. There)
    unfolding resync_night
    resync_night-There t id plan refundable night pick =
        Hoare-past _ _ (night_of-Keeps O I contains today parse_date Frozen-stable night)
          (λ e d u q. q)
          (λ v.
            Hoare-bind (λ _. There) _ _
              (execute-Held O B c There _ (λ d u q.
                let known = pick d q.1 in
                let one =
                  Reconciles-rate B.circuit_breaker_failure_threshold d
                    (record { room_type = id; night = v.date; rate_plan = plan })
                    (row_of O I contains today parse_date id plan refundable t v) known.0 known.1 in
                (
                  (Reconciles-trans B.circuit_breaker_failure_threshold c d _ q.0.0 one, q.0.1),
                  AllKnown-step rts d _ one q.1,
                )))
              (λ e d u q. q) (λ _. Hoare-Frozen _ (index_availability-Frozen O I contains c _)))

    resync_nights-There :
        (t : ℕ) (id plan : String) (refundable : Option Bool) (nights : List Json)
        → ((d : Database) → AllKnown rts d → Known id d)
        → Hoare There
            (resync_nights O I contains today parse_date t id plan refundable nights)
            (λ _. There)
    unfolding resync_nights
    resync_nights-There t id plan refundable [] pick = Hoare-pure tt (λ d u q. q)
    resync_nights-There t id plan refundable (night ∷ nights) pick =
        Hoare-bind (λ _. There) _ _ (resync_night-There t id plan refundable night pick)
          (λ e d u q. q) (λ _. resync_nights-There t id plan refundable nights pick)

    resync_lines-There :
        (t : ℕ) (id : String) (lines : List Json)
        → ((d : Database) → AllKnown rts d → Known id d)
        → Hoare There (resync_lines O I contains today parse_date t id lines) (λ _. There)
    unfolding resync_lines resync_line
    resync_lines-There t id [] pick = Hoare-pure tt (λ d u q. q)
    resync_lines-There t id (line ∷ lines) pick =
        Hoare-bind (λ _. There) _ _
          (Hoare-past _ _ (search frozen_rules) (λ e d u q. q)
            (λ plan.
              Hoare-past _ _ (search frozen_rules) (λ e d u q. q)
                (λ plan_text.
                  Hoare-past _ _ (get_key-Keeps Frozen-stable "refundable" line) (λ e d u q. q)
                    (λ refundable.
                      Hoare-past _ _ (nullable_bool-Keeps Frozen-stable refundable) (λ e d u q. q)
                        (λ flag.
                          Hoare-past _ _ (get_key-Keeps Frozen-stable "nightly_rates" line)
                            (λ e d u q. q)
                            (λ rates.
                              Hoare-past _ _ (iterated-Keeps Frozen-stable rates) (λ e d u q. q)
                                (λ nights.
                                  resync_nights-There t id plan_text flag nights pick)))))))
          (λ e d u q. q) (λ _. resync_lines-There t id lines pick)

    resync_room_type-There :
        (client : HotelErpClient) (t check_in check_out : ℕ) (rt : RoomTypeIndex)
        → ((d : Database) → AllKnown rts d → Known rt.global_room_type_id d)
        → Hoare There
            (resync_room_type O I contains today parse_date client t check_in check_out rt)
            (λ _. There)
    unfolding resync_room_type
    resync_room_type-There client t check_in check_out rt pick =
        Hoare-past _ _ (get_availability-Frozen O client _ _ _ 1 1 0) (λ e d u q. q)
          (λ quote.
            Hoare-past _ _ (get_key-Keeps Frozen-stable "quotes" quote) (λ e d u q. q)
              (λ quotes.
                Hoare-past _ _ (iterated-Keeps Frozen-stable quotes) (λ e d u q. q)
                  (λ lines.
                    Hoare-bind (λ _. There) _ _
                      (resync_lines-There t rt.global_room_type_id lines pick) (λ e d u q. q)
                      (λ _. Hoare-commit_last (λ d u q. ((q.0.0, q.0.0), q.1))))))

    resync_room_types-There :
        (client : HotelErpClient) (t check_in check_out : ℕ) (left : List RoomTypeIndex)
        → ((d : Database) → AllKnown rts d → AllKnown left d)
        → Hoare There
            (resync_room_types O I contains today parse_date client t check_in check_out left)
            (λ _. There)
    unfolding resync_room_types
    resync_room_types-There client t check_in check_out [] pick = Hoare-pure tt (λ d u q. q)
    resync_room_types-There client t check_in check_out (rt ∷ left) pick =
        Hoare-bind (λ _. There) _ _
          (resync_room_type-There client t check_in check_out rt (λ d h. (pick d h).0))
          (λ e d u q. q)
          (λ _. resync_room_types-There client t check_in check_out left (λ d h. (pick d h).1))

  on_hotel_error-Held :
      (hotel_id : ℕ) (e : Exn)
      → Hoare Held (on_hotel_error O I contains today parse_date B hotel_id e) (λ _. Held)
  unfolding on_hotel_error
  on_hotel_error-Held hotel_id (hotel_erp_error e) = after_rollback O B c _ (
      Hoare-bind (λ _. Held) _ _ (record_failure-Held O B c hotel_id) (λ e d u q. q)
        (λ _. Hoare-pure rolled_back (λ d u q. q)))
  on_hotel_error-Held hotel_id (orchestrator_error _) = Hoare-throw _ (λ d u q. q)
  on_hotel_error-Held hotel_id (http_exception _) = Hoare-throw _ (λ d u q. q)
  on_hotel_error-Held hotel_id integrity_error = Hoare-throw _ (λ d u q. q)
  on_hotel_error-Held hotel_id database_error = Hoare-throw _ (λ d u q. q)
  on_hotel_error-Held hotel_id (key_error _) = Hoare-throw _ (λ d u q. q)
  on_hotel_error-Held hotel_id type_error = Hoare-throw _ (λ d u q. q)
  on_hotel_error-Held hotel_id value_error = Hoare-throw _ (λ d u q. q)
  on_hotel_error-Held hotel_id invalid_token = Hoare-throw _ (λ d u q. q)
  on_hotel_error-Held hotel_id missing_greenlet = Hoare-throw _ (λ d u q. q)

  module _ (keyed : RoomTypesKeyed c) where
    -- The room types that the session reads are there.
    selected :
        (hotel_id : ℕ) (rts : List RoomTypeIndex) (d u : Database)
        → Held d u × (select (λ rt. rt.hotel_id == hotel_id) d.room_types ≡ rts)
        → There rts d u
    selected hotel_id rts d u q = (
      q.0,
      subst (λ x. AllKnown x d) q.1
          (select-All (λ rt. rt.global_room_type_id) (λ rt. rt.hotel_id == hotel_id) d.room_types
            (q.0.0.keyed keyed)),
    )

    resync_open-Held :
        (hotel : Hotel) (cred : HotelCredential)
        → Hoare Held (resync_open O I contains today parse_date B hotel cred) (λ _. Held)
    unfolding resync_open
    resync_open-Held hotel cred =
        Hoare-bind (λ _. Held) _ _ (get_sync_health-Held O B c hotel.hotel_id) (λ e d u q. q)
          (λ sh.
            Hoare-past _ _ (from_credential-Frozen O cred) (λ e d u q. q)
              (λ client.
                Hoare-past _ _ (search frozen_rules) (λ e d u q. q)
                  (λ day. Hoare-reads _ _ (λ rts.
                    Hoare-weaken _ {P' = There rts} (selected hotel.hotel_id rts)
                      (Hoare-past _ _ (search frozen_rules) (λ e d u q. q.0)
                        (λ t.
                          Hoare-catch (λ _. Held) _ _
                            (Hoare-bind (λ _. There rts) _ _
                              (resync_room_types-There rts client t day _ rts (λ d h. h))
                              (λ e d u q. q.0)
                              (λ _.
                                Hoare-bind (λ _. Held) _ _
                                  (Hoare-weaken _ (λ d u q. q.0)
                                    (record_success-Held O B c hotel.hotel_id sh) (λ r d u q. q))
                                  (λ e d u q. q) (λ _. Hoare-pure finished (λ d u q. q))))
                            (λ _ d u q. q) (on_hotel_error-Held hotel.hotel_id)))
                      (λ r d u q. q)))))

    resync_one-Held :
        (hotel : Hotel) (cred : HotelCredential)
        → Hoare Held
            (resync_one_hotel_availability O I contains today parse_date B hotel cred)
            (λ _. Held)
    unfolding resync_one_hotel_availability circuit_open
    resync_one-Held hotel cred =
        Hoare-past _ _ (search frozen_rules) (λ e d u q. q)
          (λ is_open.
            Hoare-if is_open (pure finished)
              (resync_open O I contains today parse_date B hotel cred)
              (λ _. Hoare-pure finished (λ d u q. q)) (λ _. resync_open-Held hotel cred))

    pub resync_all-Held :
        (expired : Bool) (hotels : List (Hotel × HotelCredential))
        → Hoare Held (resync_all O B I contains today parse_date expired hotels) (λ _. Held)
    unfolding resync_all
    resync_all-Held expired [] = Hoare-pure tt (λ d u q. q)
    resync_all-Held expired ((hotel, cred) ∷ hotels) =
        Hoare-past _ _ (read_hotel-Frozen O B c expired) (λ e d u q. q)
          (λ _.
            Hoare-bind (λ _. Held) _ _ (resync_one-Held hotel cred) (λ e d u q. q)
              (λ turn. resync_all-Held _ hotels))

-- Whatever the hotels answer, the job of the availability commits only such changes, if each room
-- type stood under its id: the hotels, credentials, portal users, promotions, travelers, bookings,
-- payments and reviews are as they were; each room type is there still and belongs to the same
-- hotel; if every rate named a known room type, every rate does; and if the status of every hotel's
-- sync health was the one of its failures in a row, it is so afterwards.
pub full_availability_resync-Reconciles :
    (O : Outside) (B : Breaker) (I : SearchIndex O.State) (contains : String → String → Bool)
    (today : O.State → ℕ × O.State) (parse_date : String → Option ℕ) (w : World O.State)
    → RoomTypesKeyed w.durable
    → Reconciles B.circuit_breaker_failure_threshold w.durable
        (session (full_availability_resync O B I contains today parse_date) w).durable
unfolding full_availability_resync
full_availability_resync-Reconciles O B I contains today parse_date w keyed =
    let start = Reconciles-refl B.circuit_breaker_failure_threshold w.durable in
    session-durable {P = Both B.circuit_breaker_failure_threshold w.durable}
      {Q = Reconciles B.circuit_breaker_failure_threshold w.durable} _ w
      (Hoare-past _ _ (search frozen_rules) (λ e d u q. q.1)
        (λ hotels.
          Hoare-weaken _ (λ d u q. q)
            (resync_all-Held O I contains today parse_date B w.durable keyed false hotels)
            (λ r d u q. q.1)))
      (start, start)
