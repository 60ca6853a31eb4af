-- ===== src/Data.antt =====
-- internal/data/dao/dao.go: daoImpl, over gorm as a parameter (Data/Table).
pub mod Rows
pub mod Table
pub mod Orders
pub mod Items
pub mod Players
mod Tests
