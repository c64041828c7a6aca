-- ===== src/Reconciliation.antt =====
-- app/workers/reconciliation.py: the jobs that correct the read model from the hotels' own answers.
pub mod Health
pub mod Fields
pub mod RoomTypes
pub mod Availability
pub mod Jobs
pub mod Reading
pub mod Evolves
pub mod Safety
pub mod Pages
pub mod Nights
pub mod Ends
pub mod Tests
