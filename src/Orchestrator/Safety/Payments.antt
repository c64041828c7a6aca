-- ===== src/Orchestrator/Safety/Payments.antt =====
-- app/services/payment.py: PaymentService keeps the ledger safe, and a payment that it returns as
-- succeeded stands in the ledger behind its booking.
use hotels_aggregator.Prelude.{ℕ, String, ◌≡◌, refl, true, Option, none, some, inl, inr}
use hotels_aggregator.Prelude.Int.{ℤ}
use hotels_aggregator.Json.{Json}
use hotels_aggregator.Prelude.Tests.{nat_eq, beq_self, Bool-cases}
use hotels_aggregator.Table.{get}
use hotels_aggregator.Table.Laws.{get-put}
use hotels_aggregator.Models.Bookings.{
  BookingReference, PaymentTransaction, PaymentStatus, is_succeeded, held, confirmed, refunded,
}
use hotels_aggregator.Outside.{Outside}
use hotels_aggregator.Database.{Database}
use hotels_aggregator.Exec.{Result, ok, raised}
use hotels_aggregator.Exec.Keeps.{Keeps, Keeps-calls, Keeps-some_or, Keeps-as_int, Keeps-as_text}
use hotels_aggregator.Exec.Hoare.{
  Frozen-stable, Pred, Hoare, Frozen, Frozen-ignores, Hoare-past, Hoare-bind, Hoare-reads,
  Hoare-throw, Hoare-pure, Hoare-modifies, Hoare-modify, Hoare-commit, Hoare-commit_last, Hoare-if,
}
use hotels_aggregator.Payment.Gateways.{PaymentGateway, GatewayResult}
use hotels_aggregator.Payment.Service.{
  write_payment, capture_intent, insert_unless, insert_payment, link_payment, create_and_capture,
  refund,
}
use hotels_aggregator.Ledger.Evolves.{
  StatusReach, BookingEvolves, BookingEvolves-refl, PaymentReach, PaymentEvolves,
}
use hotels_aggregator.Ledger.Sound.{Safe, Safe-commit, Safe-write_payment, Live, Live-write, Paid}
use hotels_aggregator.Client.Frozen.{frozen_rules}

-- A live booking whose payment is in the ledger, if the payment succeeded.
abbrev pub PaidIf : Database → PaymentTransaction → BookingReference → Database → Database → Type 0
PaidIf c p b d u = Live c b d u × (is_succeeded p.status ≡ true → Paid d b)

-- A payment of the booking stands in the ledger.
abbrev pub Recorded :
    Database → BookingReference → PaymentTransaction → Database → Database → Type 0
Recorded c b p d u =
    Live c b d u × (get p.payment_id d.payments ≡ some p) × (p.agg_booking_id ≡ b.agg_booking_id)

module _ (O : Outside) (G : PaymentGateway O.State) (c : Database) where
  open O use {State}

  capture_intent-Frozen : (i : GatewayResult) → Keeps Frozen (capture_intent O G i)
  unfolding capture_intent
  capture_intent-Frozen i = search frozen_rules depth 8

  -- What an insert leaves: the payment in the ledger, or the booking as it was.
  abbrev Inserted : BookingReference → Result PaymentTransaction → Pred
  Inserted b (ok p) = Recorded c b p
  Inserted b (raised e) = Live c b

  insert_unless-recorded :
      (b : BookingReference) (p : PaymentTransaction) (taken : Option PaymentTransaction)
      → p.agg_booking_id ≡ b.agg_booking_id
      → Hoare
          (λ d u. Live c b d u × (get p.payment_id d.payments ≡ taken))
          (insert_unless O G p taken)
          (Inserted b)
  unfolding insert_unless
  insert_unless-recorded b p (some q) own = Hoare-throw _ (λ d u h. h.0)
  insert_unless-recorded b p none own =
      Hoare-modifies (Recorded c b p) (write_payment p) _
        (λ d u h. (
          record { safe = Safe-write_payment c d u p h.0.safe (rw h.1 tt); row = h.0.row },
          rw (get-put p.payment_id p.payment_id p d.payments) (rw (beq_self p.payment_id)),
          own,
        ))
        (Hoare-pure p (λ d u h. h))

  insert_payment-recorded :
      (b : BookingReference) (amount currency : Json) (ref : String) (status : PaymentStatus)
      → Hoare
          (Live c b)
          (insert_payment O G b.agg_booking_id amount currency ref status)
          (Inserted b)
  unfolding insert_payment
  insert_payment-recorded b amount currency ref status =
      Hoare-past _ _ (Keeps-calls Frozen-ignores _) (λ e d u h. h)
        (λ id.
          Hoare-past _ _ (Keeps-calls Frozen-ignores _) (λ e d u h. h)
            (λ created.
              Hoare-past _ _ (Keeps-as_int Frozen-stable amount) (λ e d u h. h)
                (λ n.
                  Hoare-past _ _ (Keeps-as_text Frozen-stable currency) (λ e d u h. h)
                    (λ s. Hoare-reads _ _ (λ taken. insert_unless-recorded b _ taken refl)))))

  linked-Evolves :
      (b : BookingReference) (x : Option ℕ) → BookingEvolves b (record b { payment_id = x })
  linked-Evolves b x = record {
    same_id = refl;
    same_traveler = refl;
    same_hotel = refl;
    same_hold = refl;
    same_room_type = refl;
    same_check_in = refl;
    same_check_out = refl;
    same_expiry = refl;
    moves = StatusReach.stay;
  }

  link-Evolves :
      (b : BookingReference) (p : PaymentTransaction) → BookingEvolves b (link_payment O G b p)
  link-Evolves b p = elim (Bool-cases (is_succeeded p.status)) [
    | inl e ↦ rw e (linked-Evolves b (some p.payment_id))
    | inr e ↦ rw e (BookingEvolves-refl b)
  ]

  link-Paid :
      (b : BookingReference) (p : PaymentTransaction) (d : Database)
      → get p.payment_id d.payments ≡ some p
      → p.agg_booking_id ≡ b.agg_booking_id
      → is_succeeded p.status ≡ true
      → Paid d (link_payment O G b p)
  link-Paid b p d found own e = rw e (p.payment_id, p, refl, found, own)

  -- The outcome of a payment: its booking is live, and paid if the payment succeeded.
  abbrev pub Settled : Result (PaymentTransaction × BookingReference) → Pred
  Settled (ok (p, b)) d u = PaidIf c p b d u × (b.status ≡ held)
  Settled (raised e) d u = Safe c d u

  pub create_and_capture-Safe :
      (b : BookingReference) (amount currency : Json) (token : String)
      → b.status ≡ held
      → Hoare (Live c b) (create_and_capture O G b amount currency token) Settled
  unfolding create_and_capture
  create_and_capture-Safe b amount currency token is_held =
      Hoare-past _ _ (Keeps-calls Frozen-ignores _) (λ e d u h. h.safe)
        (λ attempted.
          Hoare-past _ _ (Keeps-some_or Frozen-stable _ attempted) (λ e d u h. h.safe)
            (λ intent.
              Hoare-past _ _ (capture_intent-Frozen intent) (λ e d u h. h.safe)
                (λ status.
                  Hoare-bind (Inserted b) _ _
                    (insert_payment-recorded b amount currency intent.gateway_ref status)
                    (λ e d u h. h.safe)
                    (λ p.
                      Hoare-modifies (PaidIf c p (link_payment O G b p)) _ _
                        (λ d u h. (
                          Live-write c d u b (link_payment O G b p) h.0 (link-Evolves b p)
                              (λ e. absurd (not_confirmed p e)),
                          link-Paid b p d h.1 h.2,
                        ))
                        (Hoare-commit (PaidIf c p (link_payment O G b p)) _
                          (λ d u h.
                            (record { safe = Safe-commit c d u h.0.safe; row = h.0.row }, h.1))
                          (Hoare-pure _ (λ d u h. (h, held_still p))))))))
    where
      held_still : (p : PaymentTransaction) → (link_payment O G b p).status ≡ held
      held_still p = elim (Bool-cases (is_succeeded p.status)) [
        | inl e ↦ rw e is_held
        | inr e ↦ rw e is_held
      ]

      not_confirmed : (p : PaymentTransaction) → (link_payment O G b p).status ≡ confirmed → ⊥
      not_confirmed p e = cc (held_still p, e)

  -- A refund writes the payment that it was given, as it stands in the ledger.
  pub refund-Safe :
      (p : PaymentTransaction) (amount : ℤ) (b : BookingReference)
      → Hoare
          (λ d u. Live c b d u × (get p.payment_id d.payments ≡ some p))
          (refund O G p amount)
          (λ _. Live c b)
  unfolding refund
  refund-Safe p amount b =
      Hoare-past _ _ (Keeps-calls Frozen-ignores _) (λ e d u h. h.0)
        (λ result.
          Hoare-bind (λ _. Live c b) _ _
            (Hoare-if _ _ _
              (λ _. Hoare-modify _ (λ d u h. record {
                safe =
                    Safe-write_payment c d u (record p { status = refunded }) h.0.safe
                      (rw h.1 paid_back);
                row = h.0.row;
              }))
              (λ _. Hoare-pure tt (λ d u h. h.0)))
            (λ e d u h. h)
            (λ _.
              Hoare-commit_last (λ d u h. record { safe = Safe-commit c d u h.safe; row = h.row })))
    where
      paid_back : PaymentEvolves p (record p { status = refunded })
      paid_back = record {
        same_id = refl;
        same_booking = refl;
        same_amount = refl;
        same_currency = refl;
        same_ref = refl;
        moves = PaymentReach.pay_back;
      }
