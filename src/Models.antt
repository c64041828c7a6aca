-- ===== src/Models.antt =====
-- app/db/models.py: the rows of the tables. A UUID is a number, an instant is a number of
-- microseconds since the epoch in UTC, and a calendar date is its ordinal number.
pub mod Hotels
pub mod Bookings
pub mod Indexes
