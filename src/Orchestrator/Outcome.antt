-- ===== src/Orchestrator/Outcome.antt =====
-- app/services/orchestrator.py: what has been committed when confirm returns.
use hotels_aggregator.Prelude.{
  ℕ, zero, suc, String, ◌≡◌, refl, sym, true, Option, none, some, inl, inr,
}
use hotels_aggregator.Prelude.Tests.{nat_eq, leb, beq_eq, ◌==◌, Bool-cases, if◌then◌else◌}
use hotels_aggregator.Json.{Json}
use hotels_aggregator.Table.{get}
use hotels_aggregator.Table.Laws.{get-put_self}
use hotels_aggregator.Table.Keyed.{IsKeyed, get-keyed}
use hotels_aggregator.Models.Bookings.{
  BookingReference, BookingReferenceStatus, confirmed, is_confirmed, is_held, PaymentTransaction,
  is_succeeded,
}
use hotels_aggregator.Exceptions.{Exn, hotel_erp_error}
use hotels_aggregator.Outside.{Outside}
use hotels_aggregator.Exec.{
  Result, ok, raised, World, Exec, pure, throw, tells, in_session, ◌>>=◌, ◌>>◌,
}
use hotels_aggregator.Exec.Hoare.{
  Pred, Hoare, Hoare-bind, Hoare-reads, Hoare-throw, Hoare-pure, Hoare-modifies, Hoare-commit,
  Hoare-if, Hoare-catch,
}
use hotels_aggregator.History.{session}
use hotels_aggregator.Client.{HotelErpClient}
use hotels_aggregator.Payment.Gateways.{PaymentGateway}
use hotels_aggregator.Payment.Service.{link_payment, create_and_capture}
use hotels_aggregator.Ledger.Sound.{booking_key}
use hotels_aggregator.Orchestrator.Common.{get_booking, own_booking}
use hotels_aggregator.Orchestrator.Confirm.{
  try_confirm, after_failure, confirm_attempts, confirm_with_hotel, decline, settle, pay_and_settle,
  confirm_held, confirm, confirm_unresolved, confirm_retry_backoff, cannot_confirm,
}
use hotels_aggregator.Orchestrator.Safety.Confirming.{Hoare-on_unavailable}

module _ (O : Outside) (id traveler_id : ℕ) where
  open O use {State}

  abbrev Mine : BookingReference → Type 0
  Mine b = (b.agg_booking_id ≡ id) × (b.traveler_id ≡ traveler_id)

  abbrev Any : Pred
  Any d u = Unit

  -- Nothing is said of an exception.
  abbrev Done : Result BookingReference → Pred
  Done (ok b) d u =
      (get id u.bookings ≡ some b) × (b.status ≡ confirmed) × (b.traveler_id ≡ traveler_id)
  Done (raised e) d u = Unit

  -- A step of which nothing is needed.
  skip :
      {A : Type 0} (m : Exec State A) (f : A → Exec State BookingReference)
      → ((a : A) → Hoare Any (f a) Done)
      → Hoare Any (m >>= f) Done
  skip m f k = Hoare-bind (λ _. Any) m f (record { at = λ w p. tt }) (λ e d u p. tt) k

  raises : (e : Exn) → Hoare Any (throw {S = State} e) Done
  raises e = Hoare-throw e (λ d u p. tt)

  try_confirm-Done :
      (client : HotelErpClient) (b : BookingReference) (body : Json)
      → Mine b
      → Hoare Any (try_confirm O client b body) Done
  unfolding try_confirm
  try_confirm-Done client b body mine = skip _ _ (λ resp. skip _ _ (λ reservation. skip _ _ (λ r.
      let b' : BookingReference = record b { status = confirmed; hotel_reservation_id = r } in
      Hoare-modifies (λ d u. get id d.bookings ≡ some b') _ _
        (λ d u p. rw (sym mine.0) (get-put_self b.agg_booking_id b' d.bookings))
        (Hoare-commit (λ d u. get id u.bookings ≡ some b') _ (λ d u p. p)
          (Hoare-pure b' (λ d u p. (p, refl, mine.1)))))))

  after_failure-Done :
      (b : BookingReference) (rest : Exec State BookingReference) (e : Exn)
      → Hoare Any rest Done
      → Hoare Any (after_failure O b rest e) Done
  unfolding after_failure
  after_failure-Done b rest (hotel_erp_error e) h =
      Hoare-on_unavailable e.kind _ _
        (skip _ _ (λ t.
          Hoare-if (leb b.hold_expires_at t) (throw confirm_unresolved)
            (tells (O.sleep confirm_retry_backoff) >> rest) (λ _. raises _)
            (λ _. skip _ _ (λ _. h))))
        (raises _)
  after_failure-Done b rest _ h = raises _

  confirm_attempts-Done :
      (n : ℕ) (client : HotelErpClient) (b : BookingReference) (body : Json)
      → Mine b
      → Hoare Any (confirm_attempts O n client b body) Done
  unfolding confirm_attempts
  confirm_attempts-Done zero client b body mine = raises _
  confirm_attempts-Done (suc n) client b body mine =
      Hoare-catch Done _ _ (try_confirm-Done client b body mine) (λ a d u p. p)
        (λ e. after_failure-Done b _ e (confirm_attempts-Done n client b body mine))

  settle-Done :
      (guests : Json) (p : PaymentTransaction) (b : BookingReference)
      → Mine b
      → Hoare Any (settle O guests p b) Done
  unfolding settle confirm_with_hotel decline
  settle-Done guests p b mine =
      Hoare-if (is_succeeded p.status) (confirm_with_hotel O guests p b) (decline O b)
        (λ _. skip _ _ (λ found. skip _ _ (λ client. confirm_attempts-Done _ client b _ mine)))
        (λ _. skip _ _ (λ _. skip _ _ (λ _. raises _)))

  module _ (G : PaymentGateway State) where
    link_payment-Mine :
        (b : BookingReference) (p : PaymentTransaction) → Mine b → Mine (link_payment O G b p)
    link_payment-Mine b p mine = elim (Bool-cases (is_succeeded p.status)) [
      | inl e ↦ rw e mine
      | inr e ↦ rw e mine
    ]

    -- The booking that the payment step hands on.
    abbrev Handed : Result (PaymentTransaction × BookingReference) → Pred
    Handed (ok x) d u = Mine x.1
    Handed (raised e) d u = Unit

    pass :
        {A : Type 0} (m : Exec State A) (f : A → Exec State (PaymentTransaction × BookingReference))
        → ((a : A) → Hoare Any (f a) Handed)
        → Hoare Any (m >>= f) Handed
    pass m f k = Hoare-bind (λ _. Any) m f (record { at = λ w p. tt }) (λ e d u p. tt) k

    create_and_capture-Handed :
        (b : BookingReference) (amount currency : Json) (token : String)
        → Mine b
        → Hoare Any (create_and_capture O G b amount currency token) Handed
    unfolding create_and_capture
    create_and_capture-Handed b amount currency token mine = pass _ _ (λ attempted.
        pass _ _ (λ intent. pass _ _ (λ status. pass _ _ (λ txn.
          pass _ _ (λ _. pass _ _ (λ _. Hoare-pure _ (λ d u p. link_payment-Mine b txn mine)))))))

    handed-Done :
        (guests : Json) (x : PaymentTransaction × BookingReference)
        → Hoare (Handed (ok x)) (settle O guests x.0 x.1) Done
    handed-Done guests x = record { at = λ w p. (settle-Done guests x.0 x.1 p).at w tt }

    pay_and_settle-Done :
        (token : String) (guests : Json) (b : BookingReference) (quote : Option Json)
        → Mine b
        → Hoare Any (pay_and_settle O G token guests b quote) Done
    unfolding pay_and_settle
    pay_and_settle-Done token guests b none mine = raises _
    pay_and_settle-Done token guests b (some quote) mine = skip _ _ (λ total. skip _ _ (λ currency.
        Hoare-bind Handed _ _ (create_and_capture-Handed b total currency token mine)
          (λ e d u p. tt) (handed-Done guests)))

    confirm_held-Done :
        (token : String) (guests : Json) (b : BookingReference)
        → Mine b
        → Hoare Any (confirm_held O G token guests b) Done
    unfolding confirm_held
    confirm_held-Done token guests b mine = skip _ _ (λ t.
        Hoare-if (leb b.hold_expires_at t) _ _ (λ _. skip _ _ (λ _. raises _))
          (λ _. skip _ _ (λ quote. pay_and_settle-Done token guests b quote mine)))

    -- The start of a session, and the booking that it finds.
    abbrev Fresh : Pred
    Fresh d u = (d ≡ u) × IsKeyed booking_key u.bookings

    abbrev Found : Result BookingReference → Pred
    Found (ok b) d u = Mine b × (get id u.bookings ≡ some b)
    Found (raised e) d u = Unit

    own_booking-Found :
        (found : Option BookingReference)
        → Hoare
            (λ d u. Fresh d u × (get id d.bookings ≡ found))
            (own_booking O traveler_id found)
            Found
    unfolding own_booking
    own_booking-Found none = Hoare-throw _ (λ d u p. tt)
    own_booking-Found (some b) = elim (Bool-cases (b.traveler_id == traveler_id)) [
      | inl e ↦ rw e (
          Hoare-pure b (λ d u p.
            let at_u : get id u.bookings ≡ some b = rw (sym p.0.0) p.1 in
            (
              (
                get-keyed booking_key u.bookings id b p.0.1 at_u,
                beq_eq b.traveler_id traveler_id e,
              ),
              at_u,
            )))
      | inr e ↦ rw e (Hoare-throw _ (λ d u p. tt))
    ]

    confirmed_of : (s : BookingReferenceStatus) → is_confirmed s ≡ true → s ≡ confirmed
    confirmed_of confirmed h = refl
    confirmed_of _ h = absurd (cc h)

    confirm_found :
        (token : String) (guests : Json) (b : BookingReference)
        → Hoare
            (Found (ok b))
            (if is_confirmed b.status
              then pure b
              else if is_held b.status
              then confirm_held O G token guests b
              else throw (cannot_confirm b))
            Done
    confirm_found token guests b =
        Hoare-if (is_confirmed b.status) (pure b) _
          (λ e. Hoare-pure b (λ d u p. (p.1, confirmed_of b.status e, p.0.1)))
          (λ _.
            Hoare-if (is_held b.status) (confirm_held O G token guests b) (throw (cannot_confirm b))
              (λ _. record { at = λ w p. (confirm_held-Done token guests b p.0).at w tt })
              (λ _. Hoare-throw _ (λ d u p. tt)))

    confirm-Done :
        (token : String) (guests : Json)
        → Hoare Fresh (confirm O G id traveler_id token guests) Done
    unfolding confirm get_booking
    confirm-Done token guests =
        Hoare-bind Found _ _ (Hoare-reads _ _ own_booking-Found) (λ e d u p. tt)
          (confirm_found token guests)

  -- In a session on a ledger whose rows stand under their keys: when confirm returns a booking, the
  -- committed row of the requested id is that very booking, its status is confirmed, and it belongs
  -- to the traveler who asked.
  pub confirm-committed :
      (G : PaymentGateway State) (token : String) (guests : Json) (w : World State)
      (b : BookingReference)
      → IsKeyed booking_key w.durable.bookings
      → (in_session (confirm O G id traveler_id token guests) (record w { db = w.durable })).0
        ≡ ok b
      → (get id (session (confirm O G id traveler_id token guests) w).durable.bookings ≡ some b)
        × (b.status ≡ confirmed)
        × (b.traveler_id ≡ traveler_id)
  unfolding session in_session
  confirm-committed G token guests w b keyed returned =
      let done = (confirm-Done G token guests).at (record w { db = w.durable }) (refl, keyed) in
      rw returned at done
