-- ===== src/Orchestrator/Safety.antt =====
-- Every operation of app/services/orchestrator.py keeps the booking ledger sound and moves it only
-- along the permitted changes, in the session and in the committed state, whatever the hotel and
-- the payment provider answer and however the operation ends.
pub mod Payments
pub mod Holding
pub mod Confirming
pub mod Closing
pub mod Background
