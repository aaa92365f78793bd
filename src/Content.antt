-- ===== src/Content.antt =====
-- The content domain (services/api/internal/content).
pub mod Types
pub mod MemoryStore
pub mod Normalize
pub mod Store
pub mod Service
pub mod Ids
mod Tests
mod StoreTests
mod OrderTests
