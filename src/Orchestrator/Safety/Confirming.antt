-- ===== src/Orchestrator/Safety/Confirming.antt =====
-- app/services/orchestrator.py: confirm keeps the ledger safe; in particular no booking is marked
-- confirmed without a payment of its own.
use hotels_aggregator.Prelude.{ℕ, zero, suc, String, ◌≡◌, refl, true, Option, none, some}
use hotels_aggregator.Prelude.Tests.{leb, if◌then◌else◌}
use hotels_aggregator.Json.{Json}
use hotels_aggregator.Models.Bookings.{
  BookingReference, BookingReferenceStatus, PaymentTransaction, held, confirmed, cancelled, expired,
  is_held, is_confirmed, is_succeeded,
}
use hotels_aggregator.Exceptions.{Exn, hotel_erp_error, HotelErpKind, hotel_unavailable}
use hotels_aggregator.Outside.{Outside}
use hotels_aggregator.Database.{Database}
use hotels_aggregator.Exec.{Exec, Result, ok, raised, pure, throw, tells, ◌>>=◌, ◌>>◌}
use hotels_aggregator.Exec.Keeps.{Keeps-calls, Keeps-tells, Keeps-subscript, Keeps-as_nullable_text}
use hotels_aggregator.Exec.Hoare.{
  Pred, Hoare, Frozen-stable, Frozen-ignores, Hoare-past, Hoare-bind, Hoare-throw, Hoare-pure,
  Hoare-modifies, Hoare-commit, Hoare-if, Hoare-catch, Hoare-weaken,
}
use hotels_aggregator.Cache.{get_hold_quote}
use hotels_aggregator.Client.{HotelErpClient}
use hotels_aggregator.Client.Frozen.{from_credential-Frozen, confirm_hold-Frozen}
use hotels_aggregator.Payment.Gateways.{PaymentGateway}
use hotels_aggregator.Ledger.Evolves.{StatusReach, BookingEvolves}
use hotels_aggregator.Ledger.Sound.{Safe, Safe-commit, Live, Live-write, Paid}
use hotels_aggregator.Orchestrator.Common.{on_unavailable}
use hotels_aggregator.Orchestrator.Frozen.{
  resolve_hotel-Frozen, release_on_hotel-Frozen, get_hold_quote-Frozen,
}
use hotels_aggregator.Orchestrator.Release.{set_status}
use hotels_aggregator.Orchestrator.Confirm.{
  try_confirm, after_failure, confirm_attempts, confirm_with_hotel, decline, settle, pay_and_settle,
  confirm_held, confirm, confirm_unresolved, confirm_retry_backoff, confirm_max_attempts,
  hold_has_expired, cannot_confirm,
}
use hotels_aggregator.Orchestrator.Safety.Payments.{PaidIf, Settled, create_and_capture-Safe}
use hotels_aggregator.Orchestrator.Safety.Closing.{Own, get_booking-own, set_status-Safe}

pub Hoare-on_unavailable :
    {S A : Type 0} {P : Pred} {Q : Result A → Pred} (k : HotelErpKind) (m n : Exec S A)
    → Hoare P m Q
    → Hoare P n Q
    → Hoare P (on_unavailable k m n) Q
Hoare-on_unavailable hotel_unavailable m n hm hn = hm
Hoare-on_unavailable _ m n hm hn = hn

-- A held booking, live and paid.
abbrev pub PaidFor : Database → BookingReference → Pred
PaidFor c b d u = Live c b d u × Paid d b

-- After an attempt: the ledger is safe if it went through, and nothing has changed if it raised.
abbrev Attempted : Database → BookingReference → Result BookingReference → Pred
Attempted c b (ok _) = Safe c
Attempted c b (raised _) = PaidFor c b

confirmed-Evolves :
    (b : BookingReference) (r : Option String)
    → b.status ≡ held
    → BookingEvolves b (record b { status = confirmed; hotel_reservation_id = r })
confirmed-Evolves b r h = record {
  same_id = refl;
  same_traveler = refl;
  same_hotel = refl;
  same_hold = refl;
  same_room_type = refl;
  same_check_in = refl;
  same_check_out = refl;
  same_expiry = refl;
  moves = rw h StatusReach.confirm;
}

module _ (O : Outside) (c : Database) where
  try_confirm-Safe :
      (client : HotelErpClient) (b : BookingReference) (body : Json)
      → b.status ≡ held
      → Hoare (PaidFor c b) (try_confirm O client b body) (Attempted c b)
  unfolding try_confirm
  try_confirm-Safe client b body h =
      Hoare-past _ _ (confirm_hold-Frozen O _ _ _ _) (λ e d u p. p)
        (λ resp.
          Hoare-past _ _ (Keeps-subscript Frozen-stable _ _) (λ e d u p. p)
            (λ reservation.
              Hoare-past _ _ (Keeps-as_nullable_text Frozen-stable _) (λ e d u p. p)
                (λ r.
                  let b' : BookingReference = record b {
                    status = confirmed;
                    hotel_reservation_id = r;
                  } in
                  Hoare-modifies (Live c b') _ _
                    (λ d u p. Live-write c d u b b' p.0 (confirmed-Evolves b r h) (λ _. p.1))
                    (Hoare-commit (Safe c) _ (λ d u p. Safe-commit c d u p.safe)
                      (Hoare-pure _ (λ d u p. p))))))

  after_failure-Safe :
      (b : BookingReference) (rest : Exec O.State BookingReference) (e : Exn)
      → Hoare (PaidFor c b) rest (λ _. Safe c)
      → Hoare (PaidFor c b) (after_failure O b rest e) (λ _. Safe c)
  unfolding after_failure
  after_failure-Safe b rest (hotel_erp_error e) h =
      Hoare-on_unavailable e.kind _ _
        (Hoare-past _ _ (Keeps-calls Frozen-ignores _) (λ e d u p. p.0.safe)
          (λ t.
            Hoare-if (leb b.hold_expires_at t) (throw confirm_unresolved)
              (tells (O.sleep confirm_retry_backoff) >> rest)
              (λ _. Hoare-throw _ (λ d u p. p.0.safe))
              (λ _. Hoare-past _ _ (Keeps-tells Frozen-ignores _) (λ e d u p. p.0.safe) (λ _. h))))
        (Hoare-throw _ (λ d u p. p.0.safe))
  after_failure-Safe b rest _ h = Hoare-throw _ (λ d u p. p.0.safe)

  confirm_attempts-Safe :
      (n : ℕ) (client : HotelErpClient) (b : BookingReference) (body : Json)
      → b.status ≡ held
      → Hoare (PaidFor c b) (confirm_attempts O n client b body) (λ _. Safe c)
  unfolding confirm_attempts
  confirm_attempts-Safe zero client b body h = Hoare-throw _ (λ d u p. p.0.safe)
  confirm_attempts-Safe (suc n) client b body h =
      Hoare-catch (Attempted c b) _ _ (try_confirm-Safe client b body h) (λ a d u p. p)
        (λ e. after_failure-Safe b _ e (confirm_attempts-Safe n client b body h))

  held_of : (s : BookingReferenceStatus) → is_held s ≡ true → s ≡ held
  held_of held h = refl
  held_of _ h = absurd (cc h)

  confirm_with_hotel-Safe :
      (guests : Json) (p : PaymentTransaction) (b : BookingReference)
      → b.status ≡ held
      → Hoare (PaidFor c b) (confirm_with_hotel O guests p b) (λ _. Safe c)
  unfolding confirm_with_hotel
  confirm_with_hotel-Safe guests p b h =
      Hoare-past _ _ (resolve_hotel-Frozen O _) (λ e d u q. q.0.safe)
        (λ found.
          Hoare-past _ _ (from_credential-Frozen O _) (λ e d u q. q.0.safe)
            (λ client. confirm_attempts-Safe confirm_max_attempts client b _ h))

  decline-Safe :
      (b : BookingReference) → b.status ≡ held → Hoare (Live c b) (decline O b) (λ _. Safe c)
  unfolding decline
  decline-Safe b h =
      Hoare-past _ _ (release_on_hotel-Frozen O b) (λ e d u q. q.safe)
        (λ _.
          Hoare-bind (λ _. Safe c) _ _
            (set_status-Safe O c b cancelled (rw h StatusReach.give_up) (λ e. cc e)) (λ e d u q. q)
            (λ _. Hoare-throw _ (λ d u q. q)))

  settle-Safe :
      (guests : Json) (p : PaymentTransaction) (b : BookingReference)
      → b.status ≡ held
      → Hoare (PaidIf c p b) (settle O guests p b) (λ _. Safe c)
  unfolding settle
  settle-Safe guests p b h =
      Hoare-if (is_succeeded p.status) (confirm_with_hotel O guests p b) (decline O b)
        (λ paid.
          Hoare-weaken _ (λ d u q. (q.0, q.1 paid)) (confirm_with_hotel-Safe guests p b h)
            (λ r d u q. q))
        (λ _. Hoare-weaken _ (λ d u q. q.0) (decline-Safe b h) (λ r d u q. q))

  module _ (G : PaymentGateway O.State) where
    settled-Safe :
        (guests : Json) (x : PaymentTransaction × BookingReference)
        → Hoare (Settled O G c (ok x)) (settle O guests x.0 x.1) (λ _. Safe c)
    settled-Safe guests x = record { at = λ w q. (settle-Safe guests x.0 x.1 q.1).at w q.0 }

    pay_and_settle-Safe :
        (token : String) (guests : Json) (b : BookingReference) (quote : Option Json)
        → b.status ≡ held
        → Hoare (Live c b) (pay_and_settle O G token guests b quote) (λ _. Safe c)
    unfolding pay_and_settle
    pay_and_settle-Safe token guests b none h = Hoare-throw _ (λ d u q. q.safe)
    pay_and_settle-Safe token guests b (some quote) h =
        Hoare-past _ _ (Keeps-subscript Frozen-stable _ _) (λ e d u q. q.safe)
          (λ total.
            Hoare-past _ _ (Keeps-subscript Frozen-stable _ _) (λ e d u q. q.safe)
              (λ currency.
                Hoare-bind (Settled O G c) _ _
                  (create_and_capture-Safe O G c b total currency token h) (λ e d u q. q)
                  (λ x. settled-Safe guests x)))

    confirm_held-Safe :
        (token : String) (guests : Json) (b : BookingReference)
        → b.status ≡ held
        → Hoare (Live c b) (confirm_held O G token guests b) (λ _. Safe c)
    unfolding confirm_held
    confirm_held-Safe token guests b h =
        Hoare-past _ _ (Keeps-calls Frozen-ignores _) (λ e d u q. q.safe)
          (λ t.
            Hoare-if (leb b.hold_expires_at t) (set_status O b expired >> throw hold_has_expired)
              (get_hold_quote O b.agg_booking_id >>= λ quote.
                pay_and_settle O G token guests b quote)
              (λ _.
                Hoare-bind (λ _. Safe c) _ _
                  (set_status-Safe O c b expired (rw h StatusReach.run_out) (λ e. cc e))
                  (λ e d u q. q) (λ _. Hoare-throw _ (λ d u q. q)))
              (λ _.
                Hoare-past _ _ (get_hold_quote-Frozen O _) (λ e d u q. q.safe)
                  (λ quote. pay_and_settle-Safe token guests b quote h)))

    pub confirm-Safe :
        (id traveler_id : ℕ) (token : String) (guests : Json)
        → Hoare (Safe c) (confirm O G id traveler_id token guests) (λ _. Safe c)
    unfolding confirm
    confirm-Safe id traveler_id token guests =
        Hoare-bind (Own c) _ _ (get_booking-own O c id traveler_id) (λ e d u q. q)
          (λ b.
            Hoare-if (is_confirmed b.status) (pure b)
              (if is_held b.status
                then confirm_held O G token guests b
                else throw (cannot_confirm b))
              (λ _. Hoare-pure b (λ d u q. q.safe))
              (λ _.
                Hoare-if (is_held b.status) (confirm_held O G token guests b)
                  (throw (cannot_confirm b))
                  (λ was_held. confirm_held-Safe token guests b (held_of b.status was_held))
                  (λ _. Hoare-throw _ (λ d u q. q.safe))))
