-- ===== src/Payment/Recording.antt =====
-- app/services/payment.py: what the payment step has committed when it returns.
use hotels_aggregator.Prelude.{
  ℕ, String, ◌≡◌, refl, subst, true, false, Option, none, some, inl, inr,
}
use hotels_aggregator.Json.{Json, int, text}
use hotels_aggregator.Prelude.Tests.{nat_eq, Bool-cases}
use hotels_aggregator.Table.{Table, get, put}
use hotels_aggregator.Table.Laws.{get-put_self}
use hotels_aggregator.Models.Bookings.{
  BookingReference, PaymentTransaction, PaymentStatus, is_succeeded,
}
use hotels_aggregator.Outside.{Outside}
use hotels_aggregator.Database.{Database}
use hotels_aggregator.Exec.{Result, ok, raised, World, Exec, ◌>>=◌, as_int, as_text}
use hotels_aggregator.Exec.Hoare.{
  Pred, Hoare, Hoare-bind, Hoare-throw, Hoare-pure, Hoare-modifies, Hoare-commit,
}
use hotels_aggregator.Payment.Gateways.{PaymentGateway}
use hotels_aggregator.Payment.Service.{
  insert_unless, insert_payment, link_payment, create_and_capture,
}

-- The payment is the one asked for.
pub record Charges (b : BookingReference) (amount currency : Json) (p : PaymentTransaction)
    : Type 0 where
  pub for_booking : p.agg_booking_id ≡ b.agg_booking_id
  pub of_amount : amount ≡ int p.amount_minor
  pub in_currency : currency ≡ text p.currency

-- The rows of the payment and of the booking, and the link between them.
pub record Booked (b : BookingReference) (p : PaymentTransaction) (b' : BookingReference)
    (u : Database) : Type 0 where
  pub payment_row : get p.payment_id u.payments ≡ some p
  pub booking_row : get b.agg_booking_id u.bookings ≡ some b'
  pub linked : is_succeeded p.status ≡ true → b' ≡ record b { payment_id = some p.payment_id }
  pub not_linked : is_succeeded p.status ≡ false → b' ≡ b

module _ (O : Outside) (G : PaymentGateway O.State) (b : BookingReference)
    (amount currency : Json) where
  open O use {State}

  abbrev Any : Pred
  Any d u = Unit

  -- What is asserted of a value, and nothing of an exception.
  abbrev Returns : {A : Type 0} → (A → Pred) → Result A → Pred
  Returns Q (ok a) d u = Q a d u
  Returns Q (raised e) d u = Unit

  abbrev Inserted : PaymentTransaction → Pred
  Inserted p d u = (get p.payment_id d.payments ≡ some p) × Charges b amount currency p

  pass :
      {A B : Type 0} {Q : B → Pred} (m : Exec State A) (f : A → Exec State B)
      → ((a : A) → Hoare Any (f a) (Returns Q))
      → Hoare Any (m >>= f) (Returns Q)
  pass m f k = Hoare-bind (λ _. Any) m f (record { at = λ w p. tt }) (λ e d u p. tt) k

  -- What is known of the value that a step returns.
  noting :
      {A B : Type 0} {Q : B → Pred} {R : A → Type 0} {m : Exec State A} {f : A → Exec State B}
      → Hoare Any m (Returns (λ a d u. R a))
      → ((a : A) → R a → Hoare Any (f a) (Returns Q))
      → Hoare Any (m >>= f) (Returns Q)
  noting {R = R} h k =
      Hoare-bind (Returns (λ a d u. R a)) _ _ h (λ e d u p. tt)
        (λ a. record { at = λ w p. (k a p).at w tt })

  as_int-of : (j : Json) → Hoare {S = State} Any (as_int j) (Returns (λ n d u. j ≡ int n))
  unfolding as_int
  as_int-of (int n) = Hoare-pure n (λ d u p. refl)
  as_int-of _ = Hoare-throw _ (λ d u p. tt)

  as_text-of : (j : Json) → Hoare {S = State} Any (as_text j) (Returns (λ s d u. j ≡ text s))
  unfolding as_text
  as_text-of (text s) = Hoare-pure s (λ d u p. refl)
  as_text-of _ = Hoare-throw _ (λ d u p. tt)

  insert_unless-Inserted :
      (p : PaymentTransaction) (taken : Option PaymentTransaction)
      → Charges b amount currency p
      → Hoare Any (insert_unless O G p taken) (Returns Inserted)
  unfolding insert_unless
  insert_unless-Inserted p (some row) charges = Hoare-throw _ (λ d u q. tt)
  insert_unless-Inserted p none charges =
      Hoare-modifies (Inserted p) _ _ (λ d u q. (get-put_self p.payment_id p d.payments, charges))
        (Hoare-pure p (λ d u q. q))

  insert_payment-Inserted :
      (ref : String) (status : PaymentStatus)
      → Hoare Any
          (insert_payment O G b.agg_booking_id amount currency ref status)
          (Returns Inserted)
  unfolding insert_payment
  insert_payment-Inserted ref status = pass _ _ (λ id. pass _ _ (λ created.
      noting (as_int-of amount) (λ n is_n. noting (as_text-of currency) (λ s is_s.
        pass _ _ (λ taken.
          insert_unless-Inserted _ taken
            (record { for_booking = refl; of_amount = is_n; in_currency = is_s }))))))

  abbrev Recorded : PaymentTransaction × BookingReference → Pred
  Recorded x d u = Booked b x.0 x.1 u × Charges b amount currency x.0 × (d ≡ u)

  link-Booked :
      (p : PaymentTransaction) (u : Database)
      → get p.payment_id u.payments ≡ some p
      → get b.agg_booking_id u.bookings ≡ some (link_payment O G b p)
      → Booked b p (link_payment O G b p) u
  link-Booked p u payment booking = record {
    payment_row = payment;
    booking_row = booking;
    linked = λ e. rw e refl;
    not_linked = λ e. rw e refl;
  }

  link_id : (p : PaymentTransaction) → (link_payment O G b p).agg_booking_id ≡ b.agg_booking_id
  link_id p = elim (Bool-cases (is_succeeded p.status)) [ inl e ↦ rw e refl | inr e ↦ rw e refl ]

  row_under :
      (id : ℕ) (a : BookingReference) (t : Table ℕ BookingReference)
      → a.agg_booking_id ≡ id
      → get id (put a.agg_booking_id a t) ≡ some a
  row_under id a t e =
      subst (λ k. get k (put a.agg_booking_id a t) ≡ some a) e (get-put_self a.agg_booking_id a t)

  create_and_capture-Recorded :
      (token : String)
      → Hoare Any (create_and_capture O G b amount currency token) (Returns Recorded)
  unfolding create_and_capture
  create_and_capture-Recorded token = pass _ _ (λ attempted. pass _ _ (λ intent. pass _ _ (λ status.
      Hoare-bind (Returns Inserted) _ _ (insert_payment-Inserted intent.gateway_ref status)
        (λ e d u q. tt)
        (λ p.
          let b' = link_payment O G b p in
          Hoare-modifies (λ d u. Inserted p d u × (get b.agg_booking_id d.bookings ≡ some b')) _ _
            (λ d u q. (q, row_under b.agg_booking_id b' d.bookings (link_id p)))
            (Hoare-commit (λ d u. Recorded (p, b') d u) _
              (λ d u q. (link-Booked p d q.0.0 q.1, q.0.1, refl)) (Hoare-pure _ (λ d u q. q)))))))

  -- When the payment step returns a payment and a booking, both rows are committed: the payment is
  -- of the amount and the currency asked for and names the booking, and the booking is the one
  -- given, linked to the payment exactly if the payment succeeded; nothing is left uncommitted.
  pub create_and_capture-Booked :
      (token : String) (w : World State) (p : PaymentTransaction) (b' : BookingReference)
      → (create_and_capture O G b amount currency token w).0 ≡ ok (p, b')
      → Booked b p b' (create_and_capture O G b amount currency token w).1.durable
        × Charges b amount currency p
        × ((create_and_capture O G b amount currency token w).1.db
            ≡ (create_and_capture O G b amount currency token w).1.durable)
  create_and_capture-Booked token w p b' returned =
      let done = (create_and_capture-Recorded token).at w tt in rw returned at done
