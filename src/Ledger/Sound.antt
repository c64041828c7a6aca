-- ===== src/Ledger/Sound.antt =====
-- The invariant of the booking ledger: a confirmed booking has a payment of its own. The writes of the orchestrator keep it.
use hotels_aggregator.Prelude.{ℕ, ◌≡◌, refl, sym, ◌∙◌, subst, Option, none, some, inl, inr}
use mathlib.Core.Option.{some-injective}
use hotels_aggregator.Prelude.Tests.{◌==◌, nat_eq, Bool-cases, beq_self}
use hotels_aggregator.Table.{get, put}
use hotels_aggregator.Table.Laws.{get-put}
use hotels_aggregator.Table.Keyed.{IsKeyed, put-IsKeyed}
use hotels_aggregator.Models.Bookings.{BookingReference, PaymentTransaction, confirmed}
use hotels_aggregator.Database.{Database}
use hotels_aggregator.Payment.Service.{write_booking, write_payment}
use hotels_aggregator.Ledger.Evolves.{
  BookingEvolves, BookingRow, BookingRow-refl, PaymentRow, PaymentRow-refl, LedgerEvolves,
  LedgerEvolves-refl, LedgerEvolves-trans, row_write,
}

abbrev pub booking_key : BookingReference → ℕ
booking_key b = b.agg_booking_id

abbrev pub payment_key : PaymentTransaction → ℕ
payment_key p = p.payment_id

-- The payment that a booking names is in the ledger and is a payment for this booking.
abbrev pub Paid : Database → BookingReference → Type 0
Paid d b =
    (p : ℕ) × (t : PaymentTransaction) × (b.payment_id ≡ some p)
    × (get p d.payments ≡ some t)
    × (t.agg_booking_id ≡ b.agg_booking_id)

pub record IsSound (d : Database) : Type 0 where
  pub bookings_keyed : IsKeyed booking_key d.bookings
  pub payments_keyed : IsKeyed payment_key d.payments
  pub paid :
      (k : ℕ) (b : BookingReference) → get k d.bookings ≡ some b → b.status ≡ confirmed → Paid d b

paid_row :
    (p : ℕ) (t : PaymentTransaction) (o o' : Option PaymentTransaction) (id : ℕ)
    → o ≡ some t
    → PaymentRow o o'
    → t.agg_booking_id ≡ id
    → (t' : PaymentTransaction) × (o' ≡ some t') × (t'.agg_booking_id ≡ id)
paid_row p t none o' id e r s = absurd (cc e)
paid_row p t (some v) none id e r s = absurd r
paid_row p t (some v) (some w) id e r s =
    (w, refl, r.same_booking ∙ (subst (λ x. x.agg_booking_id ≡ id) (sym (some-injective _ _ e)) s))

-- A payment is never lost, so a paid booking stays paid.
pub Paid-evolves :
    (c d : Database) (b : BookingReference)
    → ((k : ℕ) → PaymentRow (get k c.payments) (get k d.payments))
    → Paid c b
    → Paid d b
Paid-evolves c d b f (p, t, names, found, own) =
    let (t', found', own') =
      paid_row p t (get p c.payments) (get p d.payments) b.agg_booking_id found (f p) own in
    (p, t', names, found', own')

-- Writing a row that is not confirmed, or is paid, keeps the ledger sound.
pub write_booking-IsSound :
    (d : Database) (b : BookingReference)
    → IsSound d
    → (b.status ≡ confirmed → Paid d b)
    → IsSound (write_booking b d)
write_booking-IsSound d b h k = record {
  bookings_keyed = put-IsKeyed booking_key b d.bookings h.bookings_keyed;
  payments_keyed = h.payments_keyed;
  paid = row;
}
  where
    row :
        (j : ℕ) (a : BookingReference)
        → get j (put b.agg_booking_id b d.bookings) ≡ some a
        → a.status ≡ confirmed
        → Paid d a
    row j a found c = elim (Bool-cases (b.agg_booking_id == j)) [
      | inl e ↦
          let same : b ≡ a =
            some-injective _ _
              (sym (rw (get-put j b.agg_booking_id b d.bookings) (rw e)) ∙ found) in
          subst (λ x. Paid d x) same (k (subst (λ x. x.status ≡ confirmed) (sym same) c))
      | inr e ↦ h.paid j a (sym (rw (get-put j b.agg_booking_id b d.bookings) (rw e)) ∙ found) c
    ]

-- Writing a payment that is new or that evolves keeps the ledger sound.
pub write_payment-IsSound :
    (d : Database) (p : PaymentTransaction)
    → IsSound d
    → PaymentRow (get p.payment_id d.payments) (some p)
    → IsSound (write_payment p d)
write_payment-IsSound d p h r = record {
  bookings_keyed = h.bookings_keyed;
  payments_keyed = put-IsKeyed payment_key p d.payments h.payments_keyed;
  paid = λ j a found c.
      Paid-evolves d (write_payment p d) a
        (row_write PaymentRow d.payments p.payment_id p PaymentRow-refl r) (h.paid j a found c);
}

-- What an operation maintains while it runs over a ledger that was `c`: both states of the database
-- are sound, and have evolved from `c`.
pub record Safe (c d u : Database) : Type 0 where
  pub sound : IsSound d
  pub sound_durable : IsSound u
  pub evolved : LedgerEvolves c d
  pub evolved_durable : LedgerEvolves c u

-- The same, with the booking at hand as its row stands.
pub record Live (c : Database) (b : BookingReference) (d u : Database) : Type 0 where
  pub safe : Safe c d u
  pub row : get b.agg_booking_id d.bookings ≡ some b

pub Safe-refl : (c : Database) → IsSound c → Safe c c c
Safe-refl c h = record {
  sound = h;
  sound_durable = h;
  evolved = LedgerEvolves-refl c;
  evolved_durable = LedgerEvolves-refl c;
}

pub Safe-commit : (c d u : Database) → Safe c d u → Safe c d d
Safe-commit c d u h = record {
  sound = h.sound;
  sound_durable = h.sound;
  evolved = h.evolved;
  evolved_durable = h.evolved;
}

pub Safe-write_booking :
    (c d u : Database) (b : BookingReference)
    → Safe c d u
    → BookingRow (get b.agg_booking_id d.bookings) (some b)
    → (b.status ≡ confirmed → Paid d b)
    → Safe c (write_booking b d) u
Safe-write_booking c d u b h r k = record {
  sound = write_booking-IsSound d b h.sound k;
  sound_durable = h.sound_durable;
  evolved = LedgerEvolves-trans c d (write_booking b d) h.evolved (record {
    bookings = row_write BookingRow d.bookings b.agg_booking_id b BookingRow-refl r;
    payments = λ j. PaymentRow-refl (get j d.payments);
  });
  evolved_durable = h.evolved_durable;
}

pub Safe-write_payment :
    (c d u : Database) (p : PaymentTransaction)
    → Safe c d u
    → PaymentRow (get p.payment_id d.payments) (some p)
    → Safe c (write_payment p d) u
Safe-write_payment c d u p h r = record {
  sound = write_payment-IsSound d p h.sound r;
  sound_durable = h.sound_durable;
  evolved = LedgerEvolves-trans c d (write_payment p d) h.evolved (record {
    bookings = λ j. BookingRow-refl (get j d.bookings);
    payments = row_write PaymentRow d.payments p.payment_id p PaymentRow-refl r;
  });
  evolved_durable = h.evolved_durable;
}

-- The row at hand may be written where the booking evolves.
pub Live-write :
    (c d u : Database) (a b : BookingReference)
    → Live c a d u
    → BookingEvolves a b
    → (b.status ≡ confirmed → Paid d b)
    → Live c b (write_booking b d) u
Live-write c d u a b h step k = record {
  safe =
      Safe-write_booking c d u b h.safe
        (subst (λ x. BookingRow (get x d.bookings) (some b)) (sym step.same_id) (rw h.row step)) k;
  row =
      rw (get-put b.agg_booking_id b.agg_booking_id b d.bookings) (rw (beq_self b.agg_booking_id));
}
