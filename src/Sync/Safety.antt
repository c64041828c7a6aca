-- ===== src/Sync/Safety.antt =====
-- app/services/sync_engine.py: each event keeps what `Syncs` says, whether its statements succeed
-- or the database refuses them.
use hotels_aggregator.Prelude.{ℕ, String, Bool, ◌≡◌, refl, sym, ap, ◌∙◌, false, Option, none, some}
use mathlib.Core.Option.{some-injective}
use hotels_aggregator.Prelude.Tests.{nat_eq, string_eq}
use hotels_aggregator.Table.{get}
use hotels_aggregator.Models.Hotels.{Hotel}
use hotels_aggregator.Models.Indexes.{RoomTypeIndex}
use hotels_aggregator.Exceptions.{database_error}
use hotels_aggregator.Outside.{Outside}
use hotels_aggregator.Database.{Database}
use hotels_aggregator.Exec.{Exec, throw, modifies, commit, ◌>>=◌}
use hotels_aggregator.Exec.Keeps.{Keeps, Keeps-calls, Keeps-tells}
use hotels_aggregator.Exec.Hoare.{
  Frozen, Frozen-ignores, Pred, Hoare, Hoare-Frozen, Hoare-past, Hoare-bind, Hoare-reads,
  Hoare-throw, Hoare-pure, Hoare-modify, Hoare-modifies, Hoare-commit, Hoare-commit_last, Hoare-if,
}
use hotels_aggregator.Client.Frozen.{frozen_rules}
use hotels_aggregator.Webhook.Schema.{
  RoomTypeData, NightlyAvailabilityData, Event, room_type_upsert, room_type_deleted,
  availability_changed, rate_changed,
}
use hotels_aggregator.Sync.Indexer.{
  SearchIndex, NightArgs, index_joined, index_found, index_availability,
}
use hotels_aggregator.Sync.Engine.{
  execute, touch_sync_health, upserted, upsert_room_type, deactivate, delete_room_type,
  upsert_known, upsert_availability, apply, is_heartbeat, dispatch_event, rate_key, rate_row,
}
use hotels_aggregator.Sync.Evolves.{
  Syncs, Syncs-trans, Syncs-write_room_type, Syncs-write_rate, Syncs-health,
}

-- The session's state and the committed one, from a state before.
abbrev pub Synced : Database → Pred
Synced c d u = Syncs c d × Syncs c u

module _ (O : Outside) (I : SearchIndex O.State) (contains : String → String → Bool)
    (c : Database) where
  open O use {State, now, database_fails}

  execute-Synced :
      (P : Pred) (stmt : Database → Database)
      → ((d u : Database) → P d u → Synced c d u × Syncs d (stmt d))
      → Hoare P (execute O stmt) (λ _. Synced c)
  unfolding execute
  execute-Synced P stmt step =
      Hoare-past _ _ (Keeps-calls Frozen-ignores database_fails) (λ e d u p. (step d u p).0)
        (λ refused.
          Hoare-if refused (throw database_error) (modifies stmt)
            (λ _. Hoare-throw _ (λ d u p. (step d u p).0))
            (λ _. Hoare-modify stmt (λ d u p.
              (Syncs-trans c d (stmt d) (step d u p).0.0 (step d u p).1, (step d u p).0.1))))

  commit_then :
      (m : Exec State (Unit {0}))
      → Keeps Frozen m
      → Hoare (Synced c) (commit >>= λ _. m) (λ _. Synced c)
  commit_then m k = Hoare-commit (Synced c) _ (λ d u p. (p.0, p.0)) (Hoare-Frozen m k)

  touch-Synced :
      (hotel_id : ℕ) (reset : Bool)
      → Hoare (Synced c) (touch_sync_health O I contains hotel_id reset) (λ _. Synced c)
  unfolding touch_sync_health
  touch-Synced hotel_id reset =
      Hoare-past _ _ (Keeps-calls Frozen-ignores now) (λ e d u p. p)
        (λ t. execute-Synced (Synced c) _ (λ d u p. (p, Syncs-health d _)))

  upsert_room_type-Synced :
      (hotel : Hotel) (d : RoomTypeData)
      → Hoare (Synced c) (upsert_room_type O I contains hotel d) (λ _. Synced c)
  unfolding upsert_room_type upserted
  upsert_room_type-Synced hotel d =
      Hoare-bind (λ _. Synced c) _ _
        (execute-Synced (Synced c) _
          (λ db u p. (p, Syncs-write_room_type db d.room_type_id _ (λ old found. rw found refl))))
        (λ e db u p. p) (λ _. commit_then _ (Keeps-tells Frozen-ignores _))

  deactivate-Synced :
      (id : String) (found : Option RoomTypeIndex)
      → Hoare
          (λ d u. Synced c d u × (get id d.room_types ≡ found))
          (deactivate O I contains id found)
          (λ _. Synced c)
  unfolding deactivate
  deactivate-Synced id none = Hoare-pure tt (λ d u p. p.0)
  deactivate-Synced id (some rt) =
      Hoare-modifies (Synced c) _ _
        (λ d u p. (
          Syncs-trans c d _ p.0.0 (
              Syncs-write_room_type d id (record rt { active = false })
                (λ old found. ap (λ x. x.hotel_id) (some-injective _ _ (sym p.1 ∙ found)))),
          p.0.1,
        ))
        (commit_then _ (Keeps-tells Frozen-ignores _))

  index_joined-Frozen :
      (a : NightArgs) (rt : RoomTypeIndex) (hotel : Option Hotel)
      → Keeps Frozen (index_joined O I contains a rt hotel)
  unfolding index_joined
  index_joined-Frozen a rt none = search frozen_rules
  index_joined-Frozen a rt (some hotel) = search frozen_rules

  index_found-Frozen :
      (a : NightArgs) (found : Option RoomTypeIndex)
      → Keeps Frozen (index_found O I contains a found)
  unfolding index_found
  index_found-Frozen a none = search frozen_rules
  index_found-Frozen a (some rt) = search (frozen_rules, index_joined-Frozen)

  pub index_availability-Frozen : (a : NightArgs) → Keeps Frozen (index_availability O I contains a)
  unfolding index_availability
  index_availability-Frozen a = search (frozen_rules, index_found-Frozen)

  upsert_known-Synced :
      (d : NightlyAvailabilityData) (found : Option RoomTypeIndex)
      → Hoare
          (λ db u. Synced c db u × (get d.room_type_id db.room_types ≡ found))
          (upsert_known O I contains d found)
          (λ _. Synced c)
  unfolding upsert_known
  upsert_known-Synced d none = Hoare-pure tt (λ db u p. p.0)
  upsert_known-Synced d (some rt) =
      Hoare-past _ _ (Keeps-calls Frozen-ignores now) (λ e db u p. p.0)
        (λ t.
          Hoare-bind (λ _. Synced c) _ _
            (execute-Synced _ _
              (λ db u p. (p.0, Syncs-write_rate db (rate_key d) (rate_row d t) rt p.1)))
            (λ e db u p. p) (λ _. commit_then _ (index_availability-Frozen _)))

  apply-Synced :
      (hotel : Hotel) (event : Event)
      → Hoare (Synced c) (apply O I contains hotel event) (λ _. Synced c)
  unfolding apply delete_room_type upsert_availability
  apply-Synced hotel (room_type_upsert d) = upsert_room_type-Synced hotel d
  apply-Synced hotel (room_type_deleted id) = Hoare-reads _ _ (deactivate-Synced id)
  apply-Synced hotel (availability_changed d) = Hoare-reads _ _ (upsert_known-Synced d)
  apply-Synced hotel (rate_changed d) = Hoare-reads _ _ (upsert_known-Synced d)
  apply-Synced hotel _ = Hoare-pure tt (λ d u p. p)

  pub dispatch_event-Synced :
      (hotel : Hotel) (event : Event)
      → Hoare (Synced c) (dispatch_event O I contains hotel event) (λ _. Synced c)
  unfolding dispatch_event
  dispatch_event-Synced hotel event =
      Hoare-bind (λ _. Synced c) _ _ (apply-Synced hotel event) (λ e d u p. p)
        (λ _.
          Hoare-bind (λ _. Synced c) _ _
            (touch-Synced hotel.hotel_id (is_heartbeat O I contains event)) (λ e d u p. p)
            (λ _. Hoare-commit_last (λ d u p. (p.0, p.0))))
