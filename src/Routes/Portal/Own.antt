-- ===== src/Routes/Portal/Own.antt =====
-- app/api/routes/hotel_portal.py: what the staff of one hotel may change in the database.
use hotels_aggregator.Prelude.{
  ℕ, ◌≡◌, ◌≢◌, ◌↔◌, refl, sym, ◌∙◌, ap, subst, Option, none, some, inl, inr,
}
use mathlib.Core.Option.{some-injective}
use hotels_aggregator.Prelude.Tests.{◌==◌, nat_eq, Bool-cases, beq_eq, beq_ne}
use hotels_aggregator.Table.{Table, get, put}
use hotels_aggregator.Table.Laws.{get-put, get-put_self, get-delete}
use hotels_aggregator.Table.Keyed.{IsKeyed, get-keyed}
use hotels_aggregator.Models.Hotels.{Hotel, Promotion}
use hotels_aggregator.Database.{Database}
use hotels_aggregator.Schemas.Hotels.{HotelProfileUpdate}
use hotels_aggregator.Routes.Portal.{write_hotel, profile}
use hotels_aggregator.Routes.Promotions.{write_promotion, remove_promotion}

-- The tables that the portal never writes.
abbrev pub SameOthers : Database → Database → Type 0
SameOthers c d =
    (d.credentials ≡ c.credentials)
    × (d.sync_health ≡ c.sync_health)
    × (d.hotel_users ≡ c.hotel_users)
    × (d.travelers ≡ c.travelers)
    × (d.room_types ≡ c.room_types)
    × (d.rates ≡ c.rates)
    × (d.bookings ≡ c.bookings)
    × (d.payments ≡ c.payments)
    × (d.reviews ≡ c.reviews)
    × (d.inbox ≡ c.inbox)

-- What only the operator may change of a hotel's row.
abbrev pub SameRegistration : Option Hotel → Option Hotel → Type 0
SameRegistration none b = b ≡ none
SameRegistration (some a) b =
    (h : Hotel) × (b ≡ some h)
    × (h.slug ≡ a.slug)
    × (h.legal_name ≡ a.legal_name)
    × (h.country ≡ a.country)
    × (h.status ≡ a.status)

-- A promotion of another hotel is there exactly if it was, as it was.
abbrev pub SameElsewhere : ℕ → Table ℕ Promotion → Table ℕ Promotion → Type 0
SameElsewhere hotel_id t u =
    (id : ℕ) (p : Promotion) → p.hotel_id ≢ hotel_id → (get id t ≡ some p) ↔ (get id u ≡ some p)

pub record Own (hotel_id : ℕ) (c d : Database) : Type 0 where
  pub others : SameOthers c d
  pub other_hotels : (j : ℕ) → hotel_id ≢ j → get j d.hotels ≡ get j c.hotels
  pub registration : SameRegistration (get hotel_id c.hotels) (get hotel_id d.hotels)
  pub promotions : SameElsewhere hotel_id c.promotions d.promotions

SameOthers-refl : (c : Database) → SameOthers c c
SameOthers-refl c = (refl, refl, refl, refl, refl, refl, refl, refl, refl, refl)

SameRegistration-refl : (o : Option Hotel) → SameRegistration o o
SameRegistration-refl none = refl
SameRegistration-refl (some a) = (a, refl, refl, refl, refl, refl)

pub Own-refl : (hotel_id : ℕ) (c : Database) → Own hotel_id c c
Own-refl hotel_id c = record {
  others = SameOthers-refl c;
  other_hotels = λ j n. refl;
  registration = SameRegistration-refl (get hotel_id c.hotels);
  promotions = λ id p n. (λ e. e, λ e. e);
}

-- The keys of the tables that the portal writes.
pub record IsPortalKeyed (c : Database) : Type 0 where
  pub hotels_keyed : IsKeyed (λ h. h.hotel_id) c.hotels
  pub promotions_keyed : IsKeyed (λ p. p.promotion_id) c.promotions

-- The profile of the hotel's own row.
pub Own-profile :
    (hotel_id : ℕ) (c : Database) (p : HotelProfileUpdate) (h : Hotel)
    → IsPortalKeyed c
    → get hotel_id c.hotels ≡ some h
    → Own hotel_id c (write_hotel (profile p h) c)
unfolding profile
Own-profile hotel_id c p h keyed found =
    let same : h.hotel_id ≡ hotel_id =
      get-keyed (λ x. x.hotel_id) c.hotels hotel_id h keyed.hotels_keyed found in
    record {
      others = SameOthers-refl c;
      other_hotels = λ j n.
          rw
            (
              get-put j h.hotel_id (profile p h) c.hotels,
              beq_ne h.hotel_id j (λ e. n (sym same ∙ e)),
            )
            refl;
      registration = rw found (
        profile p h,
        subst (λ x. get x (put h.hotel_id (profile p h) c.hotels) ≡ some (profile p h)) same
            (get-put_self h.hotel_id (profile p h) c.hotels),
        refl,
        refl,
        refl,
        refl,
      );
      promotions = λ id q n. (λ e. e, λ e. e);
    }

-- A promotion of the hotel, in the place of one of its own or of none.
pub Own-write_promotion :
    (hotel_id : ℕ) (c : Database) (p : Promotion)
    → p.hotel_id ≡ hotel_id
    → ((old : Promotion) → get p.promotion_id c.promotions ≡ some old → old.hotel_id ≡ hotel_id)
    → Own hotel_id c (write_promotion p c)
Own-write_promotion hotel_id c p own old = record {
  others = SameOthers-refl c;
  other_hotels = λ j n. refl;
  registration = SameRegistration-refl (get hotel_id c.hotels);
  promotions = λ id q n. elim (Bool-cases (p.promotion_id == id)) [
    | inl e ↦ (
      (λ f. absurd (n (old q (rw (beq_eq p.promotion_id id e) f)))),
      (λ f. absurd (
          n (
            ap (λ x. x.hotel_id)
              (sym (some-injective _ _ (rw (get-put id p.promotion_id p c.promotions, e) at f)))
            ∙ own))),
    )
    | inr e ↦ (
      (λ f. rw (get-put id p.promotion_id p c.promotions, e) f),
      (λ f. rw (get-put id p.promotion_id p c.promotions, e) at f),
    )
  ];
}

-- A promotion of the hotel, taken away.
pub Own-remove_promotion :
    (hotel_id : ℕ) (c : Database) (id : ℕ)
    → ((old : Promotion) → get id c.promotions ≡ some old → old.hotel_id ≡ hotel_id)
    → Own hotel_id c (remove_promotion id c)
Own-remove_promotion hotel_id c id old = record {
  others = SameOthers-refl c;
  other_hotels = λ j n. refl;
  registration = SameRegistration-refl (get hotel_id c.hotels);
  promotions = λ j q n. elim (Bool-cases (id == j)) [
    | inl e ↦ (
      (λ f. absurd (n (old q (rw (beq_eq id j e) f)))),
      (λ f. absurd (cc (rw (get-delete j id c.promotions, e) at f))),
    )
    | inr e ↦ (
      (λ f. rw (get-delete j id c.promotions, e) f),
      (λ f. rw (get-delete j id c.promotions, e) at f),
    )
  ];
}
