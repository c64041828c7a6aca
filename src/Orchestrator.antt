-- ===== src/Orchestrator.antt =====
-- app/services/orchestrator.py: the booking state machine, hold -> pay -> confirm or release, and
-- the cancellation of a confirmed reservation.
pub mod Common
pub mod Hold
pub mod Confirm
pub mod Release
pub mod Cancel
pub mod Frozen
pub mod Safety
pub mod Access
pub mod Outcome
pub mod Tests
