-- ===== src/Data/Tests.antt =====
-- The data access object and the sessions over tables with room for one row.
mod OneRow
mod Tables
mod Sessions
mod Game
