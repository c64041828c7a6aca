-- ===== src/Ledger/Evolves.antt =====
-- The permitted changes of the booking ledger, and that they compose.
use hotels_aggregator.Prelude.{ℕ, ◌≡◌, refl, ◌∙◌, subst, Option, none, some, inl, inr}
use hotels_aggregator.Prelude.Tests.{◌==◌, nat_eq, Bool-cases, beq_eq}
use hotels_aggregator.Table.{Table, get, put}
use hotels_aggregator.Table.Laws.{get-put}
use hotels_aggregator.Models.Bookings.{
  BookingReference, BookingReferenceStatus, held, confirmed, cancelled, expired, PaymentTransaction,
  PaymentStatus, failed, refunded,
}
use hotels_aggregator.Database.{Database}

-- The life of a booking: a hold is confirmed, given up or expires, and a confirmed booking may be
-- cancelled. Nothing leaves `cancelled` or `expired`.
pub data StatusReach : BookingReferenceStatus → BookingReferenceStatus → Type 0 where
  stay : {s : BookingReferenceStatus} → StatusReach s s
  confirm : StatusReach held confirmed
  give_up : StatusReach held cancelled
  run_out : StatusReach held expired
  call_off : StatusReach confirmed cancelled

pub StatusReach-trans :
    {r s t : BookingReferenceStatus} → StatusReach r s → StatusReach s t → StatusReach r t
StatusReach-trans stay q = q
StatusReach-trans confirm stay = confirm
StatusReach-trans confirm call_off = give_up
StatusReach-trans give_up stay = give_up
StatusReach-trans run_out stay = run_out
StatusReach-trans call_off stay = call_off

-- What never changes in a row of the ledger, and how its status moves.
pub record BookingEvolves (a b : BookingReference) : Type 0 where
  pub same_id : b.agg_booking_id ≡ a.agg_booking_id
  pub same_traveler : b.traveler_id ≡ a.traveler_id
  pub same_hotel : b.hotel_id ≡ a.hotel_id
  pub same_hold : b.hotel_hold_id ≡ a.hotel_hold_id
  pub same_room_type : b.global_room_type_id ≡ a.global_room_type_id
  pub same_check_in : b.check_in ≡ a.check_in
  pub same_check_out : b.check_out ≡ a.check_out
  pub same_expiry : b.hold_expires_at ≡ a.hold_expires_at
  pub moves : StatusReach a.status b.status

-- A payment stays, or ends as refunded or as failed; none becomes pending or succeeded later, and
-- who paid what is never rewritten.
pub data PaymentReach : PaymentStatus → PaymentStatus → Type 0 where
  stay : {s : PaymentStatus} → PaymentReach s s
  pay_back : {s : PaymentStatus} → PaymentReach s refunded
  fail : {s : PaymentStatus} → PaymentReach s failed

pub PaymentReach-trans :
    {r s t : PaymentStatus} → PaymentReach r s → PaymentReach s t → PaymentReach r t
PaymentReach-trans p stay = p
PaymentReach-trans p pay_back = pay_back
PaymentReach-trans p fail = fail

pub record PaymentEvolves (p q : PaymentTransaction) : Type 0 where
  pub same_id : q.payment_id ≡ p.payment_id
  pub same_booking : q.agg_booking_id ≡ p.agg_booking_id
  pub same_amount : q.amount_minor ≡ p.amount_minor
  pub same_currency : q.currency ≡ p.currency
  pub same_ref : q.gateway_ref ≡ p.gateway_ref
  pub moves : PaymentReach p.status q.status

pub BookingEvolves-refl : (b : BookingReference) → BookingEvolves b b
BookingEvolves-refl b = record {
  same_id = refl;
  same_traveler = refl;
  same_hotel = refl;
  same_hold = refl;
  same_room_type = refl;
  same_check_in = refl;
  same_check_out = refl;
  same_expiry = refl;
  moves = stay;
}

pub BookingEvolves-trans :
    {a b c : BookingReference} → BookingEvolves a b → BookingEvolves b c → BookingEvolves a c
BookingEvolves-trans f g = record {
  same_id = g.same_id ∙ f.same_id;
  same_traveler = g.same_traveler ∙ f.same_traveler;
  same_hotel = g.same_hotel ∙ f.same_hotel;
  same_hold = g.same_hold ∙ f.same_hold;
  same_room_type = g.same_room_type ∙ f.same_room_type;
  same_check_in = g.same_check_in ∙ f.same_check_in;
  same_check_out = g.same_check_out ∙ f.same_check_out;
  same_expiry = g.same_expiry ∙ f.same_expiry;
  moves = StatusReach-trans f.moves g.moves;
}

pub PaymentEvolves-refl : (p : PaymentTransaction) → PaymentEvolves p p
PaymentEvolves-refl p = record {
  same_id = refl;
  same_booking = refl;
  same_amount = refl;
  same_currency = refl;
  same_ref = refl;
  moves = stay;
}

pub PaymentEvolves-trans :
    {p q r : PaymentTransaction} → PaymentEvolves p q → PaymentEvolves q r → PaymentEvolves p r
PaymentEvolves-trans f g = record {
  same_id = g.same_id ∙ f.same_id;
  same_booking = g.same_booking ∙ f.same_booking;
  same_amount = g.same_amount ∙ f.same_amount;
  same_currency = g.same_currency ∙ f.same_currency;
  same_ref = g.same_ref ∙ f.same_ref;
  moves = PaymentReach-trans f.moves g.moves;
}

-- A row that was there is there still and has evolved; a new row is one that may have begun.
abbrev pub RowEvolves {ℓ} :
    {V : Type ℓ} → (V → Type 0) → (V → V → Type 0) → Option V → Option V → Type 0
RowEvolves Begins Steps none none = Unit
RowEvolves Begins Steps none (some w) = Begins w
RowEvolves Begins Steps (some v) none = ⊥
RowEvolves Begins Steps (some v) (some w) = Steps v w

-- A new booking began as a hold.
abbrev pub Begins : BookingReference → Type 0
Begins b = StatusReach held b.status

abbrev pub BookingRow : Option BookingReference → Option BookingReference → Type 0
BookingRow = RowEvolves Begins BookingEvolves

abbrev pub PaymentRow : Option PaymentTransaction → Option PaymentTransaction → Type 0
PaymentRow = RowEvolves (λ _. Unit) PaymentEvolves

pub BookingRow-refl : (o : Option BookingReference) → BookingRow o o
BookingRow-refl none = tt
BookingRow-refl (some b) = BookingEvolves-refl b

pub BookingRow-trans :
    (o p q : Option BookingReference) → BookingRow o p → BookingRow p q → BookingRow o q
BookingRow-trans none none q f g = g
BookingRow-trans none (some b) none f g = absurd g
BookingRow-trans none (some b) (some c) f g = StatusReach-trans f g.moves
BookingRow-trans (some a) none q f g = absurd f
BookingRow-trans (some a) (some b) none f g = absurd g
BookingRow-trans (some a) (some b) (some c) f g = BookingEvolves-trans f g

pub PaymentRow-refl : (o : Option PaymentTransaction) → PaymentRow o o
PaymentRow-refl none = tt
PaymentRow-refl (some p) = PaymentEvolves-refl p

pub PaymentRow-trans :
    (o p q : Option PaymentTransaction) → PaymentRow o p → PaymentRow p q → PaymentRow o q
PaymentRow-trans none none q f g = g
PaymentRow-trans none (some b) none f g = absurd g
PaymentRow-trans none (some b) (some c) f g = tt
PaymentRow-trans (some a) none q f g = absurd f
PaymentRow-trans (some a) (some b) none f g = absurd g
PaymentRow-trans (some a) (some b) (some c) f g = PaymentEvolves-trans f g

-- No row of the ledger is lost, and each moves along the permitted changes.
pub record LedgerEvolves (c d : Database) : Type 0 where
  pub bookings : (k : ℕ) → BookingRow (get k c.bookings) (get k d.bookings)
  pub payments : (k : ℕ) → PaymentRow (get k c.payments) (get k d.payments)

pub LedgerEvolves-refl : (d : Database) → LedgerEvolves d d
LedgerEvolves-refl d = record {
  bookings = λ k. BookingRow-refl (get k d.bookings);
  payments = λ k. PaymentRow-refl (get k d.payments);
}

pub LedgerEvolves-trans :
    (c d e : Database) → LedgerEvolves c d → LedgerEvolves d e → LedgerEvolves c e
LedgerEvolves-trans c d e f g = record {
  bookings = λ k.
      BookingRow-trans (get k c.bookings) (get k d.bookings) (get k e.bookings) (f.bookings k)
        (g.bookings k);
  payments = λ k.
      PaymentRow-trans (get k c.payments) (get k d.payments) (get k e.payments) (f.payments k)
        (g.payments k);
}

-- A write of one row is a permitted change of the table if it is one of that row.
pub row_write {ℓ} :
    {V : Type ℓ} (R : Option V → Option V → Type 0) (t : Table ℕ V) (i : ℕ) (v : V)
    → ((o : Option V) → R o o)
    → R (get i t) (some v)
    → (k : ℕ) → R (get k t) (get k (put i v t))
row_write R t i v r h k = elim (Bool-cases (i == k)) [
  | inl e ↦ rw (get-put k i v t) (rw e (subst (λ x. R (get x t) (some v)) (beq_eq i k e) h))
  | inr e ↦ rw (get-put k i v t) (rw e (r (get k t)))
]
