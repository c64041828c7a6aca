-- ===== src/Routes/Registry/Deletion.antt =====
-- app/api/routes/hotels_admin.py: what `delete_hotel` commits.
use hotels_aggregator.Prelude.{ℕ, String, Bool, false, ◌≡◌, ◌≢◌, refl, sym, ◌∙◌, subst, none, some}
use hotels_aggregator.Prelude.Tests.{nat_eq, string_eq, beq_self, beq_ne, if◌then◌else◌}
use hotels_aggregator.Table.{get}
use hotels_aggregator.Table.Laws.{get-delete}
use hotels_aggregator.Models.Hotels.{Hotel}
use hotels_aggregator.Database.{Database}
use hotels_aggregator.Routes.Registry.Delete.{is_referenced, remove_hotel}
use hotels_aggregator.Routes.Registry.Removal.{IsReferential, remove_hotel-IsReferential}
use hotels_aggregator.Table.{scalar}
use hotels_aggregator.Exceptions.{Exn, integrity_error}
use hotels_aggregator.Outside.{Outside}
use hotels_aggregator.Exec.{World, Result, ok, raised, throw, modifies}
use hotels_aggregator.Exec.Hoare.{
  Pred, Hoare, Hoare-bind, Hoare-found, Hoare-reads, Hoare-if, Hoare-throw, Hoare-modify,
  Hoare-commit_last,
}
use hotels_aggregator.Security.Deps.{http_error}
use hotels_aggregator.Security.Sessions.{Fresh, start}
use hotels_aggregator.Routes.Common.{of_slug, hotel_of_slug}
use hotels_aggregator.Routes.Registry.Delete.{delete_hotel}

module _ (O : Outside) (slug : String) (c : Database) where
  -- The hotel of the slug is gone, and no booking, no review and no other hotel.
  pub record Gone (d : Database) : Type 0 where
    pub hotel : Hotel
    pub was : scalar (of_slug slug) c.hotels ≡ some hotel
    pub gone : get hotel.hotel_id d.hotels ≡ none
    pub other_hotels : (j : ℕ) → hotel.hotel_id ≢ j → get j d.hotels ≡ get j c.hotels
    pub same_bookings : d.bookings ≡ c.bookings
    pub same_reviews : d.reviews ≡ c.reviews

  abbrev pub GoneOrNothing : Result (Unit {0}) → Database → Type 0
  GoneOrNothing (ok _) d = Gone d
  GoneOrNothing (raised e) d = d ≡ c

  -- What the endpoint commits.
  abbrev Deletes : Result (Unit {0}) → Pred
  Deletes r d u = GoneOrNothing r u × (IsReferential c → IsReferential u)

  unchanged : (e : Exn) (d u : Database) → Fresh c d u → Deletes (raised e) d u
  unchanged e d u q = (q.1, λ h. subst IsReferential (sym q.1) h)

  removed :
      (h : Hotel)
      → scalar (of_slug slug) c.hotels ≡ some h
      → is_referenced h.hotel_id c ≡ false
      → Gone (remove_hotel h.hotel_id c)
  unfolding remove_hotel
  removed h was free = record {
    hotel = h;
    was = was;
    gone = rw (get-delete h.hotel_id h.hotel_id c.hotels, beq_self h.hotel_id) refl;
    other_hotels = λ j n. rw (get-delete j h.hotel_id c.hotels, beq_ne h.hotel_id j n) refl;
    same_bookings = refl;
    same_reviews = refl;
  }

  -- Taken away and not committed.
  abbrev Removed : Result (Unit {0}) → Pred
  Removed (ok _) d u = Gone d × (IsReferential c → IsReferential d)
  Removed (raised e) d u = Deletes (raised e) d u

  abbrev Found : Hotel → Bool → Pred
  Found h kept d u =
      (Fresh c d u × ((a : Hotel) → ok h ≡ ok a → scalar (of_slug slug) d.hotels ≡ some a))
      × (is_referenced h.hotel_id d ≡ kept)

  take_away :
      (h : Hotel) (kept : Bool)
      → Hoare {S = O.State}
          (Found h kept)
          (if kept then throw integrity_error else modifies (remove_hotel h.hotel_id))
          Removed
  take_away h kept =
      Hoare-if kept (throw integrity_error) (modifies (remove_hotel h.hotel_id))
        (λ _. Hoare-throw _ (λ d u q. unchanged integrity_error d u q.0.0))
        (λ free. Hoare-modify (remove_hotel h.hotel_id) (λ d u q.
          let free_now : is_referenced h.hotel_id c ≡ false = (rw q.0.0.0 at q.1) ∙ free in
          subst
            (λ x.
              Gone (remove_hotel h.hotel_id x)
              × (IsReferential c → IsReferential (remove_hotel h.hotel_id x)))
            (sym q.0.0.0)
            (
              removed h (rw q.0.0.0 at (q.0.1 h refl)) free_now,
              λ r. remove_hotel-IsReferential h.hotel_id c r free_now,
            )))

  commits : Hoare (Fresh c) (delete_hotel O slug) Deletes
  unfolding delete_hotel hotel_of_slug
  commits =
      Hoare-bind {P = Fresh c} _ {Q = Deletes} _ _
        (Hoare-found (Fresh c) (λ d. scalar (of_slug slug) d.hotels)
          (http_error 404 "Hotel not found"))
        (λ e d u q. unchanged e d u q.0)
        (λ h. Hoare-reads _ _ (λ kept.
          Hoare-bind Removed _ _ (take_away h kept) (λ e d u q. q)
            (λ _. Hoare-commit_last (λ d u q. q))))

  -- If every row named hotels and room types that are there: the deletion of a hotel raises and
  -- commits nothing, or its hotel is gone, while every other hotel, the bookings and the reviews are
  -- as they were; and every row names hotels and room types that are there still.
  pub delete_hotel-GoneOrNothing :
      (w : World O.State)
      → w.durable ≡ c
      → IsReferential c
      → GoneOrNothing (delete_hotel O slug (start w)).0 (delete_hotel O slug (start w)).1.durable
        × IsReferential (delete_hotel O slug (start w)).1.durable
  delete_hotel-GoneOrNothing w same h = let r = commits.at (start w) (same, same) in (r.0, r.1 h)
