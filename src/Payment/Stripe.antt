-- ===== src/Payment/Stripe.antt =====
-- app/services/payment.py: StripePaymentGateway. An exception of the SDK becomes a failed result.
use hotels_aggregator.Prelude.{String, false, Option, none, some, ◌||◌}
use hotels_aggregator.Json.{Json, text}
use hotels_aggregator.Prelude.Int.{ℤ}
use hotels_aggregator.Prelude.Tests.{◌==◌, string_eq, if◌then◌else◌}
use hotels_aggregator.Text.{◌<>◌}
use hotels_aggregator.Outside.{Outside, StripeOutcome, object, card_error, stripe_error}
use hotels_aggregator.Payment.Gateways.{GatewayResult, PaymentGateway}

-- `create_intent` behind the call of the SDK.
unfoldable pub intent_result : StripeOutcome → GatewayResult
intent_result (card_error id message) = record {
  gateway_ref = id;
  success = false;
  message = message;
}
intent_result (stripe_error message) = record {
  gateway_ref = "";
  success = false;
  message = message;
}
intent_result (object id status) =
    let success = status == "requires_capture" in
    record {
      gateway_ref = id;
      success = success;
      message = if success then "" else "unexpected status: " <> status;
    }

unfoldable pub capture_result : String → StripeOutcome → GatewayResult
capture_result ref (object id status) = record {
  gateway_ref = id;
  success = status == "succeeded";
  message = "";
}
capture_result ref (card_error _ message) = record {
  gateway_ref = ref;
  success = false;
  message = message;
}
capture_result ref (stripe_error message) = record {
  gateway_ref = ref;
  success = false;
  message = message;
}

unfoldable pub refund_result : String → StripeOutcome → GatewayResult
refund_result ref (object id status) = record {
  gateway_ref = id;
  success = (status == "succeeded") || (status == "pending");
  message = "";
}
refund_result ref (card_error _ message) = record {
  gateway_ref = ref;
  success = false;
  message = message;
}
refund_result ref (stripe_error message) = record {
  gateway_ref = ref;
  success = false;
  message = message;
}

-- `_stripe_amount`: the amount goes out as it is; the warning for some currencies is a log line.
unfoldable pub stripe_amount : Json → String → Json
stripe_amount amount_minor currency = amount_minor

module _ (O : Outside) where
  open O use {State, lower, stripe_create_intent, stripe_capture, stripe_refund}

  -- What is no text has no `lower`: AttributeError before the call.
  unfoldable pub create_intent :
      (amount_minor currency : Json)
      → (payment_method_token : String) → State
      → Option GatewayResult × State
  unfolding intent_result stripe_amount
  create_intent amount_minor (text currency) token s =
      let (r, s') =
        stripe_create_intent (stripe_amount amount_minor currency) (lower currency) token s in
      (some (intent_result r), s')
  create_intent amount_minor _ token s = (none, s)

  unfoldable pub capture : String → State → GatewayResult × State
  unfolding capture_result
  capture ref s = let (r, s') = stripe_capture ref s in (capture_result ref r, s')

  unfoldable pub refund : String → ℤ → State → GatewayResult × State
  unfolding refund_result
  refund ref amount_minor s =
      let (r, s') = stripe_refund ref amount_minor s in (refund_result ref r, s')

  -- `StripePaymentGateway`
  unfoldable pub gateway : PaymentGateway State
  unfolding create_intent capture refund
  gateway = record { create_intent = create_intent; capture = capture; refund = refund }
