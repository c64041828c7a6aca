-- ===== src/Schemas.antt =====
-- app/schemas/api.py: the bodies of the requests and of the answers. The validation of a body is
-- pydantic's; a record here is what it lets through.
pub mod Travelers
pub mod Hotels
pub mod Bookings
