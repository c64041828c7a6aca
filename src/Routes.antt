-- ===== src/Routes.antt =====
-- app/api/routes: the endpoints of travelers, reviews, bookings, the hotel portal and the registry
-- of hotels.
pub mod Common
pub mod Travelers
pub mod Reviews
pub mod Portal
pub mod Promotions
pub mod Registry
pub mod Bookings
pub mod Errors
pub mod Tests
