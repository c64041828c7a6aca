-- ===== src/Search.antt =====
-- app/api/routes/search.py: the search of stays over the nightly documents of the index, and its
-- answer in app/schemas/api.py.
pub mod Groups
pub mod Results
pub mod Query
pub mod Grouped
pub mod Nights
pub mod Answers
pub mod Stays
pub mod Tests
