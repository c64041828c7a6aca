-- ===== src/Orchestrator/Safety/Holding.antt =====
-- app/services/orchestrator.py: hold keeps the ledger safe.
use hotels_aggregator.Prelude.{ℕ, ◌≡◌, refl, Bool, true, false, Option, none, some}
use hotels_aggregator.Prelude.Tests.{nat_eq}
use hotels_aggregator.Json.{Json}
use hotels_aggregator.Table.{get}
use hotels_aggregator.Models.Bookings.{BookingReference, held}
use hotels_aggregator.Outside.{Outside}
use hotels_aggregator.Database.{Database}
use hotels_aggregator.Exec.Keeps.{Keeps-calls, Keeps-reads, Keeps-subscript, Keeps-as_text}
use hotels_aggregator.Exec.Hoare.{
  Hoare, Frozen-stable, Frozen-ignores, Hoare-past, Hoare-bind, Hoare-reads, Hoare-throw,
  Hoare-pure, Hoare-modify, Hoare-commit,
}
use hotels_aggregator.Payment.Service.{write_booking}
use hotels_aggregator.Ledger.Evolves.{StatusReach}
use hotels_aggregator.Ledger.Sound.{Safe, Safe-commit, Safe-write_booking}
use hotels_aggregator.Client.Frozen.{from_credential-Frozen, create_hold-Frozen}
use hotels_aggregator.Orchestrator.Frozen.{resolve_hotel-Frozen, parse_dt-Frozen, keep_quote-Frozen}
use hotels_aggregator.Orchestrator.Hold.{
  HoldArgs, hold, record_hold, insert_booking, insert_unless, new_booking,
}

module _ (O : Outside) (c : Database) where
  open O use {State}

  insert_unless-Safe :
      (b : BookingReference) (taken : Option BookingReference) (duplicate : Bool)
      → b.status ≡ held
      → Hoare
          (λ d u. Safe c d u × (get b.agg_booking_id d.bookings ≡ taken))
          (insert_unless O b taken duplicate)
          (λ _. Safe c)
  unfolding insert_unless
  insert_unless-Safe b (some a) duplicate fresh = Hoare-throw _ (λ d u h. h.0)
  insert_unless-Safe b none true fresh = Hoare-throw _ (λ d u h. h.0)
  insert_unless-Safe b none false fresh = Hoare-modify (write_booking b) (λ d u h.
      Safe-write_booking c d u b h.0 (rw h.1 (rw fresh StatusReach.stay))
        (λ e. absurd (cc (fresh, e))))

  insert_booking-Safe :
      (b : BookingReference) → b.status ≡ held → Hoare (Safe c) (insert_booking O b) (λ _. Safe c)
  unfolding insert_booking
  insert_booking-Safe b fresh = Hoare-reads _ _ (λ taken.
      Hoare-past _ _ (Keeps-reads Frozen-stable _) (λ e d u h. h.0)
        (λ duplicate. insert_unless-Safe b taken duplicate fresh))

  record_hold-Safe :
      (a : HoldArgs) (hotel_id : ℕ) (resp : Json)
      → Hoare (Safe c) (record_hold O a hotel_id resp) (λ _. Safe c)
  unfolding record_hold
  record_hold-Safe a hotel_id resp =
      Hoare-past _ _ (Keeps-subscript Frozen-stable _ _) (λ e d u h. h)
        (λ expires.
          Hoare-past _ _ (Keeps-as_text Frozen-stable _) (λ e d u h. h)
            (λ expires_text.
              Hoare-past _ _ (parse_dt-Frozen O _) (λ e d u h. h)
                (λ expires_at.
                  Hoare-past _ _ (Keeps-subscript Frozen-stable _ _) (λ e d u h. h)
                    (λ hold_id.
                      Hoare-past _ _ (Keeps-as_text Frozen-stable _) (λ e d u h. h)
                        (λ hold_text.
                          Hoare-past _ _ (Keeps-calls Frozen-ignores _) (λ e d u h. h)
                            (λ id.
                              Hoare-past _ _ (Keeps-calls Frozen-ignores _) (λ e d u h. h)
                                (λ created.
                                  Hoare-bind (λ _. Safe c) _ _
                                    (insert_booking-Safe
                                      (new_booking O a hotel_id hold_text expires_at id created)
                                      refl)
                                    (λ e d u h. h)
                                    (λ _.
                                      Hoare-commit (Safe c) _ (λ d u h. Safe-commit c d u h)
                                        (Hoare-pure _ (λ d u h. h))))))))))

  pub hold-Safe : (a : HoldArgs) → Hoare (Safe c) (hold O a) (λ _. Safe c)
  unfolding hold
  hold-Safe a =
      Hoare-past _ _ (resolve_hotel-Frozen O _) (λ e d u h. h)
        (λ found.
          Hoare-past _ _ (from_credential-Frozen O _) (λ e d u h. h)
            (λ client.
              Hoare-past _ _ (create_hold-Frozen O _ _ _) (λ e d u h. h)
                (λ resp.
                  Hoare-bind (λ _. Safe c) _ _ (record_hold-Safe a _ resp) (λ e d u h. h)
                    (λ booking.
                      Hoare-past _ _ (keep_quote-Frozen O a resp booking) (λ e d u h. h)
                        (λ _. Hoare-pure _ (λ d u h. h))))))
