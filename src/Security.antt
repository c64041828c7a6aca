-- ===== src/Security.antt =====
-- app/security/auth.py and app/api/deps.py: passwords, tokens, and who a request comes from.
pub mod Auth
pub mod Deps
pub mod Frozen
pub mod Scopes
pub mod Sessions
pub mod Tests
