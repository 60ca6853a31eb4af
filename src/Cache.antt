-- ===== src/Cache.antt =====
-- internal/infrastructure/cache: the two-level cache, its protection and its interface.
pub mod Tier
pub mod Wrappers
pub mod Manager
pub mod Protection
mod Tests
