-- ===== src/Business.antt =====
-- internal/business/common: the services that games use, over the interface DAO.
pub mod Dao
pub mod Orders
pub mod Items
pub mod Players
pub mod Sessions
pub mod Handler
mod Tests
