-- ===== src/Payment/Service.antt =====
-- app/services/payment.py: PaymentService over any gateway.
use hotels_aggregator.Prelude.{ℕ, String, none, some, Option}
use hotels_aggregator.Prelude.Int.{ℤ}
use hotels_aggregator.Json.{Json}
use hotels_aggregator.Prelude.Tests.{if◌then◌else◌, nat_eq}
use hotels_aggregator.Table.{get, put}
use hotels_aggregator.Models.Bookings.{
  BookingReference, PaymentTransaction, PaymentStatus, succeeded, failed, refunded, is_succeeded,
}
use hotels_aggregator.Exceptions.{integrity_error, type_error}
use hotels_aggregator.Outside.{Outside}
use hotels_aggregator.Database.{Database}
use hotels_aggregator.Exec.{
  Exec, pure, throw, reads, calls, modifies, commit, ◌>>=◌, ◌>>◌, some_or, as_int, as_text,
}
use hotels_aggregator.Payment.Gateways.{GatewayResult, PaymentGateway}

-- The write of a changed row at the next flush.
abbrev pub write_booking : BookingReference → Database → Database
write_booking b d = record d { bookings = put b.agg_booking_id b d.bookings }

abbrev pub write_payment : PaymentTransaction → Database → Database
write_payment p d = record d { payments = put p.payment_id p d.payments }

module _ (O : Outside) (G : PaymentGateway O.State) where
  open O use {State, uuid4, now}

  -- The status of a new payment: the outcome of the capture, or failed if there was none.
  unfoldable pub capture_intent : GatewayResult → Exec State PaymentStatus
  capture_intent intent =
      if intent.success
      then (do
        capture ← calls (G.capture intent.gateway_ref)
        pure (if capture.success then succeeded else failed))
      else pure failed

  -- The insert is refused when the id is taken.
  unfoldable pub insert_unless :
      PaymentTransaction → Option PaymentTransaction → Exec State PaymentTransaction
  insert_unless txn (some _) = throw integrity_error
  insert_unless txn none = modifies (write_payment txn) >> pure txn

  abbrev pub new_payment :
      (payment_id agg_booking_id : ℕ)
      → ℤ
      → (currency gateway_ref : String) → PaymentStatus
      → (created_at : ℕ) → PaymentTransaction
  new_payment payment_id agg_booking_id amount_minor currency gateway_ref status created_at =
      record {
        payment_id = payment_id;
        agg_booking_id = agg_booking_id;
        amount_minor = amount_minor;
        currency = currency;
        gateway_ref = gateway_ref;
        status = status;
        created_at = created_at;
      }

  -- `session.add(txn); await session.flush()`: the id and the creation time are filled in, and the
  -- columns refuse a value of another type.
  unfoldable pub insert_payment :
      (agg_booking_id : ℕ)
      → (amount_minor currency : Json) → (gateway_ref : String) → PaymentStatus
      → Exec State PaymentTransaction
  unfolding insert_unless
  insert_payment agg_booking_id amount_minor currency gateway_ref status = do
    payment_id ← calls uuid4
    created_at ← calls now
    amount ← as_int amount_minor
    currency_text ← as_text currency
    taken ← reads (λ d. get payment_id d.payments)
    insert_unless
        (new_payment payment_id agg_booking_id amount currency_text gateway_ref status created_at)
        taken

  -- The link from the booking to its successful payment.
  abbrev pub link_payment : BookingReference → PaymentTransaction → BookingReference
  link_payment b txn =
      if is_succeeded txn.status then record b { payment_id = some txn.payment_id } else b

  -- `PaymentService.create_and_capture`: the payment, and the booking as it is then.
  unfoldable pub create_and_capture :
      BookingReference
      → (amount_minor currency : Json) → (payment_method_token : String)
      → Exec State (PaymentTransaction × BookingReference)
  unfolding capture_intent insert_payment
  create_and_capture booking amount_minor currency token = do
    attempted ← calls (G.create_intent amount_minor currency token)
    intent ← some_or type_error attempted
    status ← capture_intent intent
    txn ← insert_payment booking.agg_booking_id amount_minor currency intent.gateway_ref status
    modifies (write_booking (link_payment booking txn))
    commit
    pure (txn, link_payment booking txn)

  -- `PaymentService.refund`
  unfoldable pub refund : PaymentTransaction → ℤ → Exec State (Unit {0})
  refund payment amount_minor = do
    result ← calls (G.refund payment.gateway_ref amount_minor)
    if result.success
        then modifies (write_payment (record payment { status = refunded }))
        else pure tt
    commit
