-- ===== src/Protocol.antt =====
-- internal/protocol and internal/common/types/protocol.go.
pub mod Types
pub mod Binary
pub mod Connection
pub mod Manager
mod Tests
