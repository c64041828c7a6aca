-- ===== src/Orchestrator/Safety/Closing.antt =====
-- app/services/orchestrator.py: release and cancel keep the ledger safe.
use hotels_aggregator.Prelude.{ℕ, String, arith, ◌≡◌, refl, sym, subst, true, Option, none, some}
use hotels_aggregator.Prelude.Tests.{nat_eq, ◌!=◌, if◌then◌else◌}
use hotels_aggregator.Json.{Decimal}
use hotels_aggregator.Table.{get, scalar}
use hotels_aggregator.Table.Keyed.{get-keyed, scalar-get}
use hotels_aggregator.Models.Bookings.{
  BookingReference, BookingReferenceStatus, PaymentTransaction, held, confirmed, cancelled, is_held,
  is_closed,
}
use hotels_aggregator.Outside.{Outside}
use hotels_aggregator.Database.{Database}
use hotels_aggregator.Exec.{Result, ok, raised, pure, throw, ◌>>◌}
use hotels_aggregator.Exec.Hoare.{
  Pred, Hoare, Hoare-past, Hoare-bind, Hoare-reads, Hoare-throw, Hoare-pure, Hoare-modifies,
  Hoare-commit, Hoare-if, Hoare-weaken,
}
use hotels_aggregator.Payment.Gateways.{PaymentGateway}
use hotels_aggregator.Payment.Service.{refund}
use hotels_aggregator.Ledger.Evolves.{StatusReach, BookingEvolves}
use hotels_aggregator.Ledger.Sound.{Safe, Safe-commit, Live, Live-write, booking_key, payment_key}
use hotels_aggregator.Client.Frozen.{from_credential-Frozen, cancel_reservation-Frozen}
use hotels_aggregator.Orchestrator.Common.{get_booking, own_booking, booking_not_found}
use hotels_aggregator.Orchestrator.Frozen.{
  resolve_hotel-Frozen, release_on_hotel-Frozen, refund_percentage-Frozen,
}
use hotels_aggregator.Orchestrator.Release.{set_status, release, release_on_hotel, cannot_release}
use hotels_aggregator.Orchestrator.Cancel.{
  succeeded_of, cancellable, refund_share, cancel_reserved, cancel_if, cancel,
}
use hotels_aggregator.Orchestrator.Safety.Payments.{refund-Safe}

-- The booking that an operation works on, as its row stands.
abbrev pub Own : Database → Result BookingReference → Pred
Own c (ok b) = Live c b
Own c (raised e) = Safe c

module _ (O : Outside) (c : Database) where
  own_booking-own :
      (id traveler_id : ℕ) (found : Option BookingReference)
      → Hoare
          (λ d u. Safe c d u × (get id d.bookings ≡ found))
          (own_booking O traveler_id found)
          (Own c)
  unfolding own_booking
  own_booking-own id traveler_id none = Hoare-throw _ (λ d u h. h.0)
  own_booking-own id traveler_id (some b) =
      Hoare-if (b.traveler_id != traveler_id) (throw booking_not_found) (pure b)
        (λ _. Hoare-throw _ (λ d u h. h.0))
        (λ _. Hoare-pure b (λ d u h. record {
          safe = h.0;
          row =
              subst (λ x. get x d.bookings ≡ some b)
                (sym (get-keyed booking_key d.bookings id b h.0.sound.bookings_keyed h.1)) h.1;
        }))

  pub get_booking-own : (id traveler_id : ℕ) → Hoare (Safe c) (get_booking O id traveler_id) (Own c)
  unfolding get_booking
  get_booking-own id traveler_id = Hoare-reads _ _ (λ found. own_booking-own id traveler_id found)

  -- The status at hand may be set where the life of a booking allows it, to any but confirmed.
  pub set_status-Safe :
      (b : BookingReference) (s : BookingReferenceStatus)
      → StatusReach b.status s
      → ¬ (s ≡ confirmed)
      → Hoare (Live c b) (set_status O b s) (λ _. Safe c)
  unfolding set_status
  set_status-Safe b s step other =
      Hoare-modifies (Live c (record b { status = s })) _ _
        (λ d u h. Live-write c d u b (record b { status = s }) h evolves (λ e. absurd (other e)))
        (Hoare-commit (Safe c) _ (λ d u h. Safe-commit c d u h.safe) (Hoare-pure _ (λ d u h. h)))
    where
      evolves : BookingEvolves b (record b { status = s })
      evolves = record {
        same_id = refl;
        same_traveler = refl;
        same_hotel = refl;
        same_hold = refl;
        same_room_type = refl;
        same_check_in = refl;
        same_check_out = refl;
        same_expiry = refl;
        moves = step;
      }

  pub give_up_held : (s : BookingReferenceStatus) → is_held s ≡ true → StatusReach s cancelled
  give_up_held held h = StatusReach.give_up
  give_up_held _ h = absurd (cc h)

  pub release-Safe : (id traveler_id : ℕ) → Hoare (Safe c) (release O id traveler_id) (λ _. Safe c)
  unfolding release
  release-Safe id traveler_id =
      Hoare-bind (Own c) _ _ (get_booking-own id traveler_id) (λ e d u h. h)
        (λ b.
          let releasing = release_on_hotel O b >> set_status O b cancelled in
          let refused = throw (cannot_release O b) in
          Hoare-if (is_closed b.status) (pure b) (if is_held b.status then releasing else refused)
            (λ _. Hoare-pure b (λ d u h. h.safe))
            (λ _.
              Hoare-if (is_held b.status) releasing refused
                (λ was_held.
                  Hoare-past _ _ (release_on_hotel-Frozen O b) (λ e d u h. h.safe)
                    (λ _. set_status-Safe b cancelled (give_up_held b.status was_held) (λ e. cc e)))
                (λ _. Hoare-throw _ (λ d u h. h.safe))))

  module _ (G : PaymentGateway O.State) where
    refund_share-Safe :
        (b : BookingReference) (x : Decimal) (found : Option PaymentTransaction)
        → Hoare
            (λ d u. Live c b d u × (scalar (succeeded_of b.agg_booking_id) d.payments ≡ found))
            (refund_share O G x found)
            (λ _. Live c b)
    unfolding refund_share
    refund_share-Safe b x none = Hoare-pure tt (λ d u h. h.0)
    refund_share-Safe b x (some p) =
        let amount = O.percent_of p.amount_minor x in
        Hoare-if (O.is_positive x) (refund O G p amount) (pure tt)
          (λ _.
            Hoare-weaken _
              (λ d u h.
                (h.0, scalar-get payment_key _ d.payments p h.0.safe.sound.payments_keyed h.1))
              (refund-Safe O G c p amount b) (λ r d u h. h))
          (λ _. Hoare-pure tt (λ d u h. h.0))

    cancel_reserved-Safe :
        (b : BookingReference) (r : String)
        → StatusReach b.status cancelled
        → Hoare (Live c b) (cancel_reserved O G b r) (λ _. Safe c)
    unfolding cancel_reserved
    cancel_reserved-Safe b r step =
        Hoare-past _ _ (resolve_hotel-Frozen O _) (λ e d u h. h.safe)
          (λ found.
            Hoare-past _ _ (from_credential-Frozen O _) (λ e d u h. h.safe)
              (λ client.
                Hoare-past _ _ (cancel_reservation-Frozen O _ _ _) (λ e d u h. h.safe)
                  (λ resp.
                    Hoare-past _ _ (refund_percentage-Frozen O _) (λ e d u h. h.safe)
                      (λ x. Hoare-reads _ _ (λ payment.
                        Hoare-bind (λ _. Live c b) _ _ (refund_share-Safe b x payment)
                          (λ e d u h. h.safe)
                          (λ _.
                            Hoare-bind (λ _. Safe c) _ _
                              (set_status-Safe b cancelled step (λ e. cc e)) (λ e d u h. h)
                              (λ b'. Hoare-pure _ (λ d u h. h))))))))

    cancellable-confirmed :
        (b : BookingReference) (r : String) → cancellable b ≡ some r → b.status ≡ confirmed
    unfolding cancellable
    cancellable-confirmed b r h = ground arith

    cancel_if-Safe :
        (b : BookingReference) (o : Option String)
        → cancellable b ≡ o
        → Hoare (Live c b) (cancel_if O G b o) (λ _. Safe c)
    unfolding cancel_if
    cancel_if-Safe b none e = Hoare-throw _ (λ d u h. h.safe)
    cancel_if-Safe b (some r) e =
        cancel_reserved-Safe b r (rw (cancellable-confirmed b r e) StatusReach.call_off)

    pub cancel-Safe :
        (id traveler_id : ℕ) → Hoare (Safe c) (cancel O G id traveler_id) (λ _. Safe c)
    unfolding cancel
    cancel-Safe id traveler_id =
        Hoare-bind (Own c) _ _ (get_booking-own id traveler_id) (λ e d u h. h)
          (λ b. cancel_if-Safe b (cancellable b) refl)
