-- ===== src/Payment.antt =====
-- app/services/payment.py: the gateways and the payment service.
pub mod Gateways
pub mod Mock
pub mod Stripe
pub mod Factory
pub mod Service
pub mod Webhook
pub mod Recording
