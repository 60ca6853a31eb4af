-- ===== src/Utils.antt =====
-- internal/common: data structures that the other parts share.
pub mod RingBuffer
pub mod Lru
pub mod Pool
pub mod Goroutines
pub mod Bulk
pub mod Errors
pub mod TimeWheel
mod Tests
