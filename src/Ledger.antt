-- ===== src/Ledger.antt =====
-- The abstract booking ledger: how a row of `booking_reference` and of `payment_transaction` may
-- change over time, for app/services/orchestrator.py, app/services/payment.py and
-- app/workers/hold_watch.py.
pub mod Evolves
pub mod Sound
