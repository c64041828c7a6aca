-- ===== src/Routes/Reviews.antt =====
-- app/api/routes/reviews.py: one review for each booking, by the traveler who made it.
pub mod Own
use hotels_aggregator.Prelude.{ℕ, String, Bool, true, false, Option, none, some, List, map}
use hotels_aggregator.Prelude.Tests.{◌==◌, nat_eq, if◌then◌else◌}
use hotels_aggregator.Table.{get, put, exists, select}
use hotels_aggregator.Models.Hotels.{TravelerAccount}
use hotels_aggregator.Models.Bookings.{BookingReference, Review}
use hotels_aggregator.Exceptions.{Exn, integrity_error}
use hotels_aggregator.Outside.{Outside}
use hotels_aggregator.Database.{Database, same_booking}
use hotels_aggregator.Exec.{
  Exec, pure, throw, reads, calls, modifies, commit, rollback, catch, ◌>>=◌, ◌>>◌,
}
use hotels_aggregator.Schemas.Travelers.{ReviewCreate, ReviewOut, review_out}
use hotels_aggregator.Security.Deps.{http_error, get_current_traveler}
use hotels_aggregator.Routes.Common.{latest_first, hotel_of_slug}

abbrev pub write_review : Review → Database → Database
write_review r d = record d { reviews = put r.review_id r d.reviews }

module _ (O : Outside) where
  open O use {State, uuid4, now}

  -- The insert is refused when the id is taken or when the booking has a review already.
  unfoldable pub insert_unless : Review → Option Review → Bool → Exec State (Unit {0})
  insert_unless r (some _) _ = throw integrity_error
  insert_unless r none true = throw integrity_error
  insert_unless r none false = modifies (write_review r)

  -- `session.commit()` with the new row.
  unfoldable pub commit_review : Review → Exec State (Unit {0})
  unfolding insert_unless
  commit_review r = do
    taken ← reads (λ d. get r.review_id d.reviews)
    duplicate ← reads (λ d. exists (same_booking r) d.reviews)
    insert_unless r taken duplicate
    commit

  unfoldable pub on_integrity_error : Exn → Exec State (Unit {0})
  on_integrity_error integrity_error =
      rollback >> throw (http_error 409 "A review already exists for this booking")
  on_integrity_error e = throw e

  abbrev pub new_review : ReviewCreate → BookingReference → (id created : ℕ) → Review
  new_review p booking id created = record {
    review_id = id;
    agg_booking_id = p.agg_booking_id;
    hotel_id = booking.hotel_id;
    rating = p.rating;
    comment = p.comment;
    created_at = created;
  }

  unfoldable pub review_booking : ReviewCreate → BookingReference → Exec State ReviewOut
  unfolding commit_review on_integrity_error
  review_booking p booking = do
    id ← calls uuid4
    created ← calls now
    catch (commit_review (new_review p booking id created)) on_integrity_error
    pure (review_out (new_review p booking id created))

  unfoldable pub review_own :
      ReviewCreate → TravelerAccount → Option BookingReference → Exec State ReviewOut
  unfolding review_booking
  review_own p t none = throw (http_error 404 "Booking not found")
  review_own p t (some booking) =
      if booking.traveler_id == t.traveler_id
      then review_booking p booking
      else throw (http_error 404 "Booking not found")

  unfoldable pub review_as : ReviewCreate → TravelerAccount → Exec State ReviewOut
  unfolding review_own
  review_as p t = do booking ← reads (λ d. get p.agg_booking_id d.bookings); review_own p t booking

  -- `create_review`
  unfoldable pub create_review : ReviewCreate → (credentials : Option String) → Exec State ReviewOut
  unfolding review_as
  create_review p credentials = get_current_traveler O credentials >>= review_as p

  -- `hotel_reviews`
  unfoldable pub hotel_reviews : (slug : String) → Exec State (List ReviewOut)
  hotel_reviews slug = do
    hotel ← hotel_of_slug slug
    rows ← reads (λ d. select (λ r. r.hotel_id == hotel.hotel_id) d.reviews)
    pure (map review_out (latest_first (λ r. r.created_at) rows))
