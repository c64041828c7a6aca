-- ===== src/Models/Indexes.antt =====
-- app/db/models.py: the read model that the hotels feed, and the log of received webhooks.
use mathlib.Core.Bool.{false≢true}
use hotels_aggregator.Prelude.{ℕ, String, Bool, Option, List, ◌≡◌, ◌↔◌, true, false, inl, inr}
use hotels_aggregator.Prelude.Int.{ℤ}
use hotels_aggregator.Prelude.Tests.{
  KeyEq, ◌==◌, nat_eq, string_eq, beq_self, beq_eq, Bool-cases, if◌then◌else◌,
}

pub record RoomTypeIndex : Type 0 where
  pub global_room_type_id : String
  pub hotel_id : ℕ
  pub name : String
  pub description : Option String
  pub max_occupancy_adults : ℤ
  pub max_occupancy_children : ℤ
  pub amenities : List String
  pub photos : List String
  pub active : Bool
  pub updated_at : ℕ

pub data SyncSource : Type 0 where
  webhook reconciliation : SyncSource

-- The composite primary key of `rate_availability_index`.
pub record RateKey : Type 0 where
  pub room_type : String
  pub night : ℕ
  pub rate_plan : String

pub record RateAvailabilityIndex : Type 0 where
  pub global_room_type_id : String
  pub date : ℕ
  pub rate_plan_code : String
  pub price_minor : ℤ
  pub currency : String
  pub rooms_available_cached : ℤ
  pub refundable : Option Bool
  pub updated_at : ℕ
  pub source : SyncSource

pub record WebhookInbox : Type 0 where
  pub event_id : ℕ
  pub hotel_id : ℕ
  pub event_type : String
  pub processed_at : Option ℕ

abbrev pub rate_key_beq : RateKey → RateKey → Bool
rate_key_beq a b =
    if a.room_type == b.room_type
    then (if a.night == b.night then a.rate_plan == b.rate_plan else false)
    else false

pub rate_key_beq_iff : (a b : RateKey) → (rate_key_beq a b ≡ true) ↔ (a ≡ b)
rate_key_beq_iff a b = (from, to)
  where
    path : a.room_type ≡ b.room_type → a.night ≡ b.night → a.rate_plan ≡ b.rate_plan → a ≡ b
    path p q r = λ i. record { room_type = p i; night = q i; rate_plan = r i }

    from : rate_key_beq a b ≡ true → a ≡ b
    from h = elim (Bool-cases (a.room_type == b.room_type)) [
      | inl p ↦ elim (Bool-cases (a.night == b.night)) [
        | inl q ↦ path (beq_eq _ _ p) (beq_eq _ _ q) (beq_eq _ _ (rw (p, q) at h))
        | inr q ↦ absurd (false≢true (rw (p, q) at h))
      ]
      | inr p ↦ absurd (false≢true (rw p at h))
    ]

    to : a ≡ b → rate_key_beq a b ≡ true
    to e = rw e (rw (beq_self b.room_type, beq_self b.night, beq_self b.rate_plan))

instance abbrev pub rate_key_eq : KeyEq RateKey
rate_key_eq = record { equal = rate_key_beq; equal_iff = rate_key_beq_iff }
