-- ===== src/Routes/Reviews/Own.antt =====
-- app/api/routes/reviews.py: a review is of a booking of the reviewer's own, and the only one.
use hotels_aggregator.Prelude.{
  ℕ, String, Bool, true, false, ◌≡◌, ◌≢◌, ◌⊎◌, refl, sym, ap, subst, Option, none, some, inl, inr,
}
use mathlib.Core.Option.{some-injective}
use hotels_aggregator.Prelude.Tests.{◌==◌, nat_eq, Bool-cases, beq_eq, beq_self}
use hotels_aggregator.Table.{get, exists}
use hotels_aggregator.Table.Laws.{get-put}
use hotels_aggregator.Table.Keyed.{get-none_passes}
use hotels_aggregator.Models.Hotels.{TravelerAccount}
use hotels_aggregator.Models.Bookings.{BookingReference, Review}
use hotels_aggregator.Exceptions.{
  Exn, orchestrator_error, hotel_erp_error, http_exception, integrity_error, database_error,
  key_error, type_error, value_error, invalid_token, missing_greenlet,
}
use hotels_aggregator.Outside.{Outside}
use hotels_aggregator.Database.{Database, same_booking}
use hotels_aggregator.Exec.{World, Result, ◌>>=◌}
use hotels_aggregator.Exec.Hoare.{
  Pred, Hoare, Hoare-bind, Hoare-past, Hoare-reads, Hoare-modify, Hoare-commit_last, Hoare-pure,
  Hoare-throw, Hoare-catch,
}
use hotels_aggregator.Client.Frozen.{frozen_rules}
use hotels_aggregator.History.{session}
use hotels_aggregator.Schemas.Travelers.{ReviewCreate}
use hotels_aggregator.Security.Deps.{get_current_traveler}
use hotels_aggregator.Security.Frozen.{get_current_traveler-Frozen}
use hotels_aggregator.Security.Sessions.{Fresh, Admitted, authenticated}
use hotels_aggregator.Routes.Reviews.{
  write_review, insert_unless, commit_review, on_integrity_error, new_review, review_booking,
  review_own, review_as, create_review,
}

-- A review that a traveler may write: of a booking of their own that has none.
pub record MayReview (t : TravelerAccount) (c : Database) (r : Review) : Type 0 where
  pub booking : BookingReference
  pub found : get r.agg_booking_id c.bookings ≡ some booking
  pub own : booking.traveler_id ≡ t.traveler_id
  pub of_hotel : r.hotel_id ≡ booking.hotel_id
  pub first_one :
      (j : ℕ) (a : Review) → get j c.reviews ≡ some a → a.agg_booking_id ≢ r.agg_booking_id

-- No table but the reviews is written; the reviews that were there are there, and each other one is
-- a review that the traveler may write.
pub record Reviewed (t : TravelerAccount) (c d : Database) : Type 0 where
  pub same : d ≡ record c { reviews = d.reviews }
  pub kept : (id : ℕ) (r : Review) → get id c.reviews ≡ some r → get id d.reviews ≡ some r
  pub added :
      (id : ℕ) (r : Review)
      → get id d.reviews ≡ some r
      → (get id c.reviews ≡ some r) ⊎ MayReview t c r

Reviewed-refl : (t : TravelerAccount) (c : Database) → Reviewed t c c
Reviewed-refl t c = record { same = refl; kept = λ id r h. h; added = λ id r h. inl h }

Reviewed-write :
    (t : TravelerAccount) (c : Database) (r : Review)
    → get r.review_id c.reviews ≡ none
    → MayReview t c r
    → Reviewed t c (write_review r c)
Reviewed-write t c r new may = record {
  same = refl;
  kept = λ id a h. elim (Bool-cases (r.review_id == id)) [
    | inl e ↦ absurd (cc (h, new, ap (λ x. get x c.reviews) (beq_eq r.review_id id e)))
    | inr e ↦ rw (get-put id r.review_id r c.reviews, e) h
  ];
  added = λ id a h. elim (Bool-cases (r.review_id == id)) [
    | inl e ↦ inr (
        subst (MayReview t c) (some-injective _ _ (rw (get-put id r.review_id r c.reviews, e) at h))
          may)
    | inr e ↦ inl (rw (get-put id r.review_id r c.reviews, e) at h)
  ];
}

module _ (O : Outside) (t : TravelerAccount) (c : Database) where
  open O use {State}

  abbrev Durable : Pred
  Durable d u = Reviewed t c u

  fresh_reviews : (d u : Database) → Fresh c d u → Reviewed t c u
  fresh_reviews d u p = subst (Reviewed t c) (sym p.1) (Reviewed-refl t c)

  -- What a failed commit leaves: the committed state, as it was.
  abbrev AfterCommit : Result (Unit {0}) → Pred
  AfterCommit r d u = Reviewed t c u

  insert_unless-Own :
      (r : Review) (taken : Option Review) (duplicate : Bool)
      → (booking : BookingReference) → get r.agg_booking_id c.bookings ≡ some booking
      → booking.traveler_id ≡ t.traveler_id
      → r.hotel_id ≡ booking.hotel_id
      → Hoare
          (λ d u.
            (Fresh c d u × (get r.review_id d.reviews ≡ taken))
            × (exists (same_booking r) d.reviews ≡ duplicate))
          (insert_unless O r taken duplicate)
          (λ _ d u. Reviewed t c d × Reviewed t c u)
  unfolding insert_unless same_booking
  insert_unless-Own r (some _) duplicate booking found own of_hotel =
      Hoare-throw _
        (λ d u q. (subst (Reviewed t c) (sym q.0.0.0) (Reviewed-refl t c), fresh_reviews d u q.0.0))
  insert_unless-Own r none true booking found own of_hotel =
      Hoare-throw _
        (λ d u q. (subst (Reviewed t c) (sym q.0.0.0) (Reviewed-refl t c), fresh_reviews d u q.0.0))
  insert_unless-Own r none false booking found own of_hotel =
      Hoare-modify (write_review r) (λ d u q. (
        subst (λ x. Reviewed t c (write_review r x)) (sym q.0.0.0)
            (Reviewed-write t c r (rw q.0.0.0 at q.0.1) (record {
              booking = booking;
              found = found;
              own = own;
              of_hotel = of_hotel;
              first_one = λ j a h e.
                  let other : (a.agg_booking_id == r.agg_booking_id) ≡ false =
                    get-none_passes (same_booking r) c.reviews j a (rw q.0.0.0 at q.1) h in
                  absurd (cc (rw (e, beq_self r.agg_booking_id) at other));
            })),
        fresh_reviews d u q.0.0,
      ))

  commit_review-Own :
      (r : Review) (booking : BookingReference)
      → get r.agg_booking_id c.bookings ≡ some booking
      → booking.traveler_id ≡ t.traveler_id
      → r.hotel_id ≡ booking.hotel_id
      → Hoare (Fresh c) (commit_review O r) (λ _. Durable)
  unfolding commit_review
  commit_review-Own r booking found own of_hotel = Hoare-reads _ _ (λ taken.
      Hoare-reads _ _ (λ duplicate.
        Hoare-bind _ _ _ (insert_unless-Own r taken duplicate booking found own of_hotel)
          (λ e d u q. q.1) (λ _. Hoare-commit_last (λ d u q. q.0))))

  on_integrity_error-Own :
      (e : Exn) → Hoare {S = State} Durable (on_integrity_error O e) (λ _. Durable)
  unfolding on_integrity_error ◌>>=◌
  on_integrity_error-Own integrity_error = record { at = λ w p. p }
  on_integrity_error-Own (orchestrator_error _) = record { at = λ w p. p }
  on_integrity_error-Own (hotel_erp_error _) = record { at = λ w p. p }
  on_integrity_error-Own (http_exception _) = record { at = λ w p. p }
  on_integrity_error-Own database_error = record { at = λ w p. p }
  on_integrity_error-Own (key_error _) = record { at = λ w p. p }
  on_integrity_error-Own type_error = record { at = λ w p. p }
  on_integrity_error-Own value_error = record { at = λ w p. p }
  on_integrity_error-Own invalid_token = record { at = λ w p. p }
  on_integrity_error-Own missing_greenlet = record { at = λ w p. p }

  review_booking-Own :
      (p : ReviewCreate) (booking : BookingReference)
      → get p.agg_booking_id c.bookings ≡ some booking
      → booking.traveler_id ≡ t.traveler_id
      → Hoare (Fresh c) (review_booking O p booking) (λ _. Durable)
  unfolding review_booking
  review_booking-Own p booking found own =
      Hoare-past _ _ (search frozen_rules) (λ e d u q. fresh_reviews d u q)
        (λ id.
          Hoare-past _ _ (search frozen_rules) (λ e d u q. fresh_reviews d u q)
            (λ created.
              Hoare-bind (λ _. Durable) _ _
                (Hoare-catch (λ _. Durable) _ _
                  (commit_review-Own (new_review O p booking id created) booking found own refl)
                  (λ _ d u q. q) on_integrity_error-Own)
                (λ e d u q. q) (λ _. Hoare-pure _ (λ d u q. q))))

  review_own-Own :
      (p : ReviewCreate) (found : Option BookingReference)
      → Hoare
          (λ d u. Fresh c d u × (get p.agg_booking_id d.bookings ≡ found))
          (review_own O p t found)
          (λ _. Durable)
  unfolding review_own
  review_own-Own p none = Hoare-throw _ (λ d u q. fresh_reviews d u q.0)
  review_own-Own p (some booking) = elim (Bool-cases (booking.traveler_id == t.traveler_id)) [
    | inl e ↦ rw e (record {
      at = λ w q.
          (review_booking-Own p booking (rw q.0.0 at q.1)
              (beq_eq booking.traveler_id t.traveler_id e)).at
            w q.0;
    })
    | inr e ↦ rw e (Hoare-throw _ (λ d u q. fresh_reviews d u q.0))
  ]

  review_as-Own : (p : ReviewCreate) → Hoare (Fresh c) (review_as O p t) (λ _. Durable)
  unfolding review_as
  review_as-Own p = Hoare-reads _ _ (review_own-Own p)

-- A request for a review commits nothing, or its credentials are those of a traveler and it changes
-- no table but the reviews: each review that was there stays, and each other one is of a booking of
-- this traveler, under the booking's hotel, that had no review before.
pub create_review-Own :
    (O : Outside) (p : ReviewCreate) (credentials : Option String) (w : World O.State)
    → Admitted
        (get_current_traveler O credentials)
        (λ t. Reviewed t w.durable)
        w
        (session (create_review O p credentials) w)
unfolding create_review
create_review-Own O p credentials w =
    authenticated _ _ _ w (get_current_traveler-Frozen O credentials)
      (λ t. review_as-Own O t w.durable p)
