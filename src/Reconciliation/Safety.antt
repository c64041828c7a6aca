-- ===== src/Reconciliation/Safety.antt =====
-- app/workers/reconciliation.py: the jobs keep the bookings, the owners of the room types, and the
-- meaning of the sync health.
use hotels_aggregator.Prelude.{ℕ, Option, none, some, List, [], ◌∷◌}
use hotels_aggregator.Json.{Json}
use hotels_aggregator.Models.Hotels.{SyncHealth}
use hotels_aggregator.Exceptions.{database_error}
use hotels_aggregator.Outside.{Outside}
use hotels_aggregator.Database.{Database}
use hotels_aggregator.Exec.{throw, modifies}
use hotels_aggregator.Exec.Keeps.{Keeps-calls, Keeps-tells}
use hotels_aggregator.Exec.Hoare.{
  Frozen-stable, Frozen-ignores, Pred, Hoare, Hoare-bind, Hoare-past, Hoare-modify, Hoare-modifies,
  Hoare-commit, Hoare-commit_last, Hoare-pure, Hoare-throw, Hoare-if, Hoare-Frozen,
}
use hotels_aggregator.Client.Frozen.{frozen_rules}
use hotels_aggregator.Sync.Engine.{execute}
use hotels_aggregator.Reconciliation.Health.{
  Breaker, fail_row, record_failure, record_success, health_or_new, get_sync_health,
}
use hotels_aggregator.Reconciliation.RoomTypes.{upsert_room_type_from_api, upsert_all, take_page}
use hotels_aggregator.Reconciliation.Reading.{
  get_key-Keeps, iterated-Keeps, next_cursor-Keeps, values_of-Keeps,
}
use hotels_aggregator.Reconciliation.Evolves.{
  Reconciles, Reconciles-trans, Reconciles-health, Reconciles-room_type,
  new_sync_health-IsConsistent, failed_row-IsConsistent, succeeded_row-IsConsistent,
}

-- The session's state and the committed one, from the state before the job.
abbrev pub Both : ℕ → Database → Pred
Both threshold c d u = Reconciles threshold c d × Reconciles threshold c u

module _ (O : Outside) (B : Breaker) (c : Database) where
  open O use {State, now, database_fails}

  abbrev Held : Pred
  Held = Both B.circuit_breaker_failure_threshold c

  step :
      (d e : Database)
      → Reconciles B.circuit_breaker_failure_threshold c d
      → Reconciles B.circuit_breaker_failure_threshold d e
      → Reconciles B.circuit_breaker_failure_threshold c e
  step d e f g = Reconciles-trans B.circuit_breaker_failure_threshold c d e f g

  fail_row-Held :
      (hotel_id : ℕ) (found : Option SyncHealth)
      → Hoare Held (fail_row O B hotel_id found) (λ _. Held)
  unfolding fail_row
  fail_row-Held hotel_id none = Hoare-pure tt (λ d u q. q)
  fail_row-Held hotel_id (some sh) =
      Hoare-modifies Held _ _
        (λ d u q. (
          step d _ q.0 (
              Reconciles-health B.circuit_breaker_failure_threshold d hotel_id _
                (failed_row-IsConsistent B.circuit_breaker_failure_threshold sh)),
          q.1,
        ))
        (Hoare-past _ _ (search frozen_rules) (λ e d u q. q)
          (λ _. Hoare-commit_last (λ d u q. (q.0, q.0))))

  pub record_failure-Held : (hotel_id : ℕ) → Hoare Held (record_failure O B hotel_id) (λ _. Held)
  unfolding record_failure
  record_failure-Held hotel_id =
      Hoare-past _ _ (search frozen_rules) (λ e d u q. q) (fail_row-Held hotel_id)

  pub record_success-Held :
      (hotel_id : ℕ) (sh : SyncHealth) → Hoare Held (record_success O B hotel_id sh) (λ _. Held)
  unfolding record_success
  record_success-Held hotel_id sh =
      Hoare-past _ _ (search frozen_rules) (λ e d u q. q)
        (λ t.
          Hoare-modifies Held _ _
            (λ d u q. (
              step d _ q.0 (
                  Reconciles-health B.circuit_breaker_failure_threshold d hotel_id _
                    (succeeded_row-IsConsistent B.circuit_breaker_failure_threshold t sh)),
              q.1,
            ))
            (Hoare-commit Held _ (λ d u q. (q.0, q.0))
              (Hoare-Frozen _ (Keeps-tells Frozen-ignores _))))

  health_or_new-Held :
      (hotel_id : ℕ) (found : Option SyncHealth)
      → Hoare Held (health_or_new O B hotel_id found) (λ _. Held)
  unfolding health_or_new
  health_or_new-Held hotel_id (some sh) = Hoare-pure sh (λ d u q. q)
  health_or_new-Held hotel_id none =
      Hoare-modifies Held _ _
        (λ d u q. (
          step d _ q.0 (
              Reconciles-health B.circuit_breaker_failure_threshold d hotel_id _
                (new_sync_health-IsConsistent B.circuit_breaker_failure_threshold hotel_id)),
          q.1,
        ))
        (Hoare-commit Held _ (λ d u q. (q.0, q.0)) (Hoare-pure _ (λ d u q. q)))

  pub get_sync_health-Held : (hotel_id : ℕ) → Hoare Held (get_sync_health O B hotel_id) (λ _. Held)
  unfolding get_sync_health
  get_sync_health-Held hotel_id =
      Hoare-past _ _ (search frozen_rules) (λ e d u q. q) (health_or_new-Held hotel_id)

  -- A statement that the database may refuse.
  pub execute-Held :
      (P : Pred) (stmt : Database → Database)
      → ((d u : Database) → P d u → P (stmt d) u)
      → Hoare P (execute O stmt) (λ _. P)
  unfolding execute
  execute-Held P stmt keep =
      Hoare-past _ _ (Keeps-calls Frozen-ignores database_fails) (λ e d u p. p)
        (λ refused.
          Hoare-if refused (throw database_error) (modifies stmt) (λ _. Hoare-throw _ (λ d u p. p))
            (λ _. Hoare-modify stmt keep))

  pub upsert_all-Held :
      (hotel_id : ℕ) (rts : List Json) → Hoare Held (upsert_all O hotel_id rts) (λ _. Held)
  unfolding upsert_all upsert_room_type_from_api
  upsert_all-Held hotel_id [] = Hoare-pure tt (λ d u q. q)
  upsert_all-Held hotel_id (rt ∷ rts) =
      Hoare-bind (λ _. Held) _ _
        (Hoare-past _ _ (values_of-Keeps O Frozen-stable rt) (λ e d u q. q)
          (λ v. execute-Held Held _ (λ d u q. (
            step d _ q.0 (Reconciles-room_type B.circuit_breaker_failure_threshold d hotel_id v),
            q.1,
          ))))
        (λ e d u q. q) (λ _. upsert_all-Held hotel_id rts)

  pub take_page-Held :
      (hotel_id : ℕ) (page : Json) → Hoare Held (take_page O hotel_id page) (λ _. Held)
  unfolding take_page
  take_page-Held hotel_id page =
      Hoare-past _ _ (get_key-Keeps Frozen-stable "data" page) (λ e d u q. q)
        (λ listed.
          Hoare-past _ _ (iterated-Keeps Frozen-stable listed) (λ e d u q. q)
            (λ rts.
              Hoare-bind (λ _. Held) _ _ (upsert_all-Held hotel_id rts) (λ e d u q. q)
                (λ _.
                  Hoare-commit Held _ (λ d u q. (q.0, q.0))
                    (Hoare-past _ _ (get_key-Keeps Frozen-stable "next_cursor" page) (λ e d u q. q)
                      (λ cursor. Hoare-Frozen _ (next_cursor-Keeps O Frozen-stable cursor))))))
