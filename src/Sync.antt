-- ===== src/Sync.antt =====
-- app/services/sync_engine.py and app/search/indexer.py: how a webhook event changes the read
-- model and its mirror in the search index.
pub mod Indexer
pub mod Engine
pub mod Evolves
pub mod Safety
