-- ===== src/Payment/Gateways.antt =====
-- app/services/payment.py: the interface of a payment gateway, and its two implementations. The
-- calls of Stripe's SDK are `Outside`'s.
use hotels_aggregator.Prelude.{String, Bool, Option}
use hotels_aggregator.Json.{Json}
use hotels_aggregator.Prelude.Int.{ℤ}
use hotels_aggregator.Prelude.Tests.{string_eq}

pub record GatewayResult : Type 0 where
  pub gateway_ref : String
  pub success : Bool
  pub message : String

pub record PaymentGateway (S : Type 0) : Type 0 where
  -- The amount and the currency are what the quote has, of whatever type; `none` is an exception
  -- on a value of another type.
  pub create_intent :
      (amount_minor currency : Json)
      → (payment_method_token : String) → S
      → Option GatewayResult × S
  pub capture : (gateway_ref : String) → S → GatewayResult × S
  pub refund : (gateway_ref : String) (amount_minor : ℤ) → S → GatewayResult × S
