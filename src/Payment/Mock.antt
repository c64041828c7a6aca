-- ===== src/Payment/Mock.antt =====
-- app/services/payment.py: MockPaymentGateway.
use hotels_aggregator.Prelude.{ℕ, String, true, false, Option, some}
use hotels_aggregator.Json.{Json}
use hotels_aggregator.Prelude.Int.{ℤ}
use hotels_aggregator.Prelude.Tests.{◌==◌, string_eq, if◌then◌else◌}
use hotels_aggregator.Text.{◌<>◌}
use hotels_aggregator.Outside.{Outside}
use hotels_aggregator.Payment.Gateways.{GatewayResult, PaymentGateway}

abbrev pub latency : ℕ
latency = 10000

abbrev pub fail_token : String
fail_token = "tok_fail"

module _ (O : Outside) where
  open O use {State, sleep, uuid4, uuid_text}

  unfoldable pub create_intent :
      (amount_minor currency : Json)
      → (payment_method_token : String) → State
      → Option GatewayResult × State
  create_intent amount_minor currency token s =
      let (u, s') = uuid4 (sleep latency s) in
      let ref = "mock-" <> uuid_text u in
      (
        some (
            if token == fail_token
            then record { gateway_ref = ref; success = false; message = "card_declined (mock)" }
            else record { gateway_ref = ref; success = true; message = "" }),
        s',
      )

  unfoldable pub capture : String → State → GatewayResult × State
  capture ref s = (record { gateway_ref = ref; success = true; message = "" }, sleep latency s)

  unfoldable pub refund : String → ℤ → State → GatewayResult × State
  refund ref amount_minor s =
      (record { gateway_ref = ref <> "-refund"; success = true; message = "" }, sleep latency s)

  -- `MockPaymentGateway`
  unfoldable pub gateway : PaymentGateway State
  unfolding create_intent capture refund
  gateway = record { create_intent = create_intent; capture = capture; refund = refund }
