-- ===== src/Sync/Evolves.antt =====
-- What an event of a hotel may change in the database.
use hotels_aggregator.Prelude.{ℕ, String, ◌≡◌, refl, sym, ◌∙◌, some, inl, inr}
use hotels_aggregator.Prelude.Tests.{nat_eq, string_eq, ◌==◌, Bool-cases, beq_eq}
use hotels_aggregator.Table.{Table, get, put}
use hotels_aggregator.Table.Laws.{get-put}
use hotels_aggregator.Table.Rows.{RowsKept, RowsKept-refl, RowsKept-trans, put-RowsKept}
use hotels_aggregator.Models.Hotels.{SyncHealth}
use hotels_aggregator.Models.Indexes.{
  RoomTypeIndex, RateAvailabilityIndex, RateKey, WebhookInbox, rate_key_eq,
}
use hotels_aggregator.Database.{Database}
use hotels_aggregator.Sync.Engine.{write_room_type, write_rate}

-- The foreign key of the rates: each names a room type that is there.
abbrev pub RatesKnown : Database → Type 0
RatesKnown d =
    (k : RateKey) (r : RateAvailabilityIndex)
    → get k d.rates ≡ some r
    → (rt : RoomTypeIndex) × (get k.room_type d.room_types ≡ some rt)

-- The tables of which an event may write none.
abbrev pub SameBusiness : Database → Database → Type 0
SameBusiness c d =
    (d.hotels ≡ c.hotels)
    × (d.credentials ≡ c.credentials)
    × (d.hotel_users ≡ c.hotel_users)
    × (d.promotions ≡ c.promotions)
    × (d.travelers ≡ c.travelers)
    × (d.bookings ≡ c.bookings)
    × (d.payments ≡ c.payments)
    × (d.reviews ≡ c.reviews)

abbrev pub SameOwner : RoomTypeIndex → RoomTypeIndex → Type 0
SameOwner a b = b.hotel_id ≡ a.hotel_id

abbrev pub SameEvent : WebhookInbox → WebhookInbox → Type 0
SameEvent a b = (b.hotel_id ≡ a.hotel_id) × (b.event_type ≡ a.event_type)

pub record Syncs (c d : Database) : Type 0 where
  pub business : SameBusiness c d
  pub room_types : RowsKept SameOwner c.room_types d.room_types
  pub inbox : RowsKept SameEvent c.inbox d.inbox
  pub known : RatesKnown c → RatesKnown d

SameBusiness-refl : (c : Database) → SameBusiness c c
SameBusiness-refl c = (refl, refl, refl, refl, refl, refl, refl, refl)

SameBusiness-trans : (b c d : Database) → SameBusiness b c → SameBusiness c d → SameBusiness b d
SameBusiness-trans b c d f g =
    (g.0 ∙ f.0, g.1 ∙ f.1, g.2 ∙ f.2, g.3 ∙ f.3, g.4 ∙ f.4, g.5 ∙ f.5, g.6 ∙ f.6, g.7 ∙ f.7)

inbox_same : (t : Table ℕ WebhookInbox) → RowsKept SameEvent t t
inbox_same t = RowsKept-refl SameEvent t (λ v. (refl, refl))

owners_same : (t : Table String RoomTypeIndex) → RowsKept SameOwner t t
owners_same t = RowsKept-refl SameOwner t (λ v. refl)

pub Syncs-refl : (c : Database) → Syncs c c
Syncs-refl c = record {
  business = SameBusiness-refl c;
  room_types = owners_same c.room_types;
  inbox = inbox_same c.inbox;
  known = λ h. h;
}

pub Syncs-trans : (b c d : Database) → Syncs b c → Syncs c d → Syncs b d
Syncs-trans b c d f g = record {
  business = SameBusiness-trans b c d f.business g.business;
  room_types =
      RowsKept-trans SameOwner b.room_types c.room_types d.room_types (λ x y z p q. q ∙ p)
        f.room_types g.room_types;
  inbox =
      RowsKept-trans SameEvent b.inbox c.inbox d.inbox (λ x y z p q. (q.0 ∙ p.0, q.1 ∙ p.1)) f.inbox
        g.inbox;
  known = λ h. g.known (f.known h);
}

-- A room type that has a row keeps its hotel.
pub Syncs-write_room_type :
    (d : Database) (id : String) (rt : RoomTypeIndex)
    → ((old : RoomTypeIndex) → get id d.room_types ≡ some old → rt.hotel_id ≡ old.hotel_id)
    → Syncs d (write_room_type id rt d)
Syncs-write_room_type d id rt owner = record {
  business = SameBusiness-refl d;
  room_types = put-RowsKept SameOwner id rt d.room_types (λ v. refl) owner;
  inbox = inbox_same d.inbox;
  known = λ h k r found.
      let x =
        put-RowsKept SameOwner id rt d.room_types (λ v. refl) owner k.room_type (h k r found).0
          (h k r found).1 in
      (x.row, x.found);
}

pub Syncs-write_rate :
    (d : Database) (k : RateKey) (r : RateAvailabilityIndex) (rt : RoomTypeIndex)
    → get k.room_type d.room_types ≡ some rt
    → Syncs d (write_rate k r d)
Syncs-write_rate d k r rt there = record {
  business = SameBusiness-refl d;
  room_types = owners_same d.room_types;
  inbox = inbox_same d.inbox;
  known = λ h j a found. elim (Bool-cases (k == j)) [
    | inl q ↦ (rt, rw (sym (beq_eq k j q)) there)
    | inr q ↦ h j a (rw (get-put j k r d.rates, q) at found)
  ];
}

pub Syncs-health : (d : Database) (t : Table ℕ SyncHealth) → Syncs d (record d { sync_health = t })
Syncs-health d t = record {
  business = SameBusiness-refl d;
  room_types = owners_same d.room_types;
  inbox = inbox_same d.inbox;
  known = λ h. h;
}

-- An event that has a row in the inbox keeps its hotel and its type.
pub Syncs-inbox :
    (d : Database) (id : ℕ) (row : WebhookInbox)
    → ((old : WebhookInbox) → get id d.inbox ≡ some old → SameEvent old row)
    → Syncs d (record d { inbox = put id row d.inbox })
Syncs-inbox d id row same = record {
  business = SameBusiness-refl d;
  room_types = owners_same d.room_types;
  inbox = put-RowsKept SameEvent id row d.inbox (λ v. (refl, refl)) same;
  known = λ h. h;
}
