-- ===== src/Reconciliation/Evolves.antt =====
-- app/workers/reconciliation.py: what the jobs may change in the database.
use hotels_aggregator.Prelude.{ℕ, ◌+◌, String, ◌≡◌, refl, subst, some, inl, inr, arith}
use mathlib.Core.Option.{some-injective}
use hotels_aggregator.Prelude.Tests.{
  ◌==◌, nat_eq, string_eq, leb, Bool-cases, beq_ne, if◌then◌else◌,
}
use hotels_aggregator.Table.{get, put}
use hotels_aggregator.Table.Laws.{get-put}
use hotels_aggregator.Table.Keyed.{IsKeyed, put-IsKeyed}
use hotels_aggregator.Models.Hotels.{
  SyncHealth, SyncHealthStatus, healthy, degraded, down, new_sync_health,
}
use hotels_aggregator.Models.Indexes.{RoomTypeIndex, RateKey, RateAvailabilityIndex}
use hotels_aggregator.Database.{Database}
use hotels_aggregator.Webhook.Schema.{RoomTypeData}
use hotels_aggregator.Sync.Engine.{write_room_type, write_rate, upserted}
use hotels_aggregator.Sync.Evolves.{
  Syncs, Syncs-refl, Syncs-trans, Syncs-write_room_type, Syncs-write_rate, Syncs-health,
}
use hotels_aggregator.Reconciliation.Health.{write_health, failed_row, succeeded_row}

-- The status that belongs to a number of failures in a row.
unfoldable pub status_after : (threshold failures : ℕ) → SyncHealthStatus
status_after threshold failures =
    if failures == 0 then healthy else if leb threshold failures then down else degraded

abbrev pub IsConsistent : ℕ → SyncHealth → Type 0
IsConsistent threshold sh = sh.status ≡ status_after threshold sh.consecutive_failures

-- Each hotel's status is the one of its failures.
abbrev pub HealthTells : ℕ → Database → Type 0
HealthTells threshold d =
    (id : ℕ) (sh : SyncHealth) → get id d.sync_health ≡ some sh → IsConsistent threshold sh

abbrev pub RoomTypesKeyed : Database → Type 0
RoomTypesKeyed d = IsKeyed (λ rt. rt.global_room_type_id) d.room_types

pub record Reconciles (threshold : ℕ) (c d : Database) : Type 0 where
  pub syncs : Syncs c d
  pub keyed : RoomTypesKeyed c → RoomTypesKeyed d
  pub health : HealthTells threshold c → HealthTells threshold d

pub new_sync_health-IsConsistent : (threshold id : ℕ) → IsConsistent threshold (new_sync_health id)
unfolding status_after
new_sync_health-IsConsistent threshold id = refl

pub failed_row-IsConsistent :
    (threshold : ℕ) (sh : SyncHealth) → IsConsistent threshold (failed_row threshold sh)
unfolding status_after failed_row
failed_row-IsConsistent threshold sh =
    rw (beq_ne (sh.consecutive_failures + 1) 0 (λ e. absurd (omega (arith, e)))) refl

pub succeeded_row-IsConsistent :
    (threshold now : ℕ) (sh : SyncHealth) → IsConsistent threshold (succeeded_row now sh)
unfolding status_after succeeded_row
succeeded_row-IsConsistent threshold now sh = refl

module _ (threshold : ℕ) where
  pub Reconciles-refl : (c : Database) → Reconciles threshold c c
  Reconciles-refl c = record { syncs = Syncs-refl c; keyed = λ h. h; health = λ h. h }

  pub Reconciles-trans :
      (b c d : Database)
      → Reconciles threshold b c
      → Reconciles threshold c d
      → Reconciles threshold b d
  Reconciles-trans b c d f g = record {
    syncs = Syncs-trans b c d f.syncs g.syncs;
    keyed = λ h. g.keyed (f.keyed h);
    health = λ h. g.health (f.health h);
  }

  pub Reconciles-health :
      (d : Database) (id : ℕ) (sh : SyncHealth)
      → IsConsistent threshold sh
      → Reconciles threshold d (write_health id sh d)
  Reconciles-health d id sh ok_ = record {
    syncs = Syncs-health d (put id sh d.sync_health);
    keyed = λ h. h;
    health = λ h j a found. elim (Bool-cases (id == j)) [
      | inl e ↦
          subst (IsConsistent threshold)
            (some-injective _ _ (rw (get-put j id sh d.sync_health, e) at found)) ok_
      | inr e ↦ h j a (rw (get-put j id sh d.sync_health, e) at found)
    ];
  }

  pub Reconciles-room_type :
      (d : Database) (hotel_id : ℕ) (v : RoomTypeData)
      → Reconciles threshold d
          (write_room_type v.room_type_id (upserted hotel_id v (get v.room_type_id d.room_types)) d)
  unfolding upserted
  Reconciles-room_type d hotel_id v = record {
    syncs = Syncs-write_room_type d v.room_type_id _ (λ old found. rw found refl);
    keyed = λ h.
        put-IsKeyed (λ rt. rt.global_room_type_id)
          (upserted hotel_id v (get v.room_type_id d.room_types)) d.room_types h;
    health = λ h. h;
  }

  pub Reconciles-rate :
      (d : Database) (k : RateKey) (r : RateAvailabilityIndex) (rt : RoomTypeIndex)
      → get k.room_type d.room_types ≡ some rt
      → Reconciles threshold d (write_rate k r d)
  Reconciles-rate d k r rt there = record {
    syncs = Syncs-write_rate d k r rt there;
    keyed = λ h. h;
    health = λ h. h;
  }

-- The room types that a job has read are there.
abbrev pub Known : String → Database → Type 0
Known id d = (rt : RoomTypeIndex) × (get id d.room_types ≡ some rt)

pub Known-Syncs : (id : String) (c d : Database) → Syncs c d → Known id c → Known id d
Known-Syncs id c d s (rt, found) = let row = s.room_types id rt found in (row.row, row.found)
