-- ===== src/Payment/Factory.antt =====
-- app/services/payment.py: the factory of the live gateway.
use hotels_aggregator.Prelude.{String, Option, none, some}
use hotels_aggregator.Prelude.Tests.{string_eq, if◌then◌else◌}
use hotels_aggregator.Text.{nonempty}
use hotels_aggregator.Outside.{Outside}
use hotels_aggregator.Payment.Gateways.{PaymentGateway}
use hotels_aggregator.Payment.Mock
use hotels_aggregator.Payment.Stripe

-- `get_payment_gateway`, on `settings.stripe_secret_key`.
unfoldable pub get_payment_gateway : (O : Outside) → Option String → PaymentGateway O.State
get_payment_gateway O none = Mock.gateway O
get_payment_gateway O (some key) = if nonempty key then Stripe.gateway O else Mock.gateway O
