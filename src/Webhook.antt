-- ===== src/Webhook.antt =====
-- The receiver of the hotels' webhooks: app/webhooks/verify.py, app/schemas/webhooks.py and
-- `receive_webhook_event` of app/main.py.
pub mod Schema
pub mod Verify
pub mod Genuine
pub mod Receiver
pub mod Safety
pub mod Secret
pub mod Admission
pub mod Tests
