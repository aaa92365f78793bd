-- ===== src/Auth.antt =====
-- The accounts, passwords, tokens and sessions (services/api/internal/auth).
pub mod Types
pub mod Crypto
pub mod Token
pub mod Password
pub mod UserStore
pub mod RefreshStore
pub mod Store
pub mod Service
pub mod Tests
pub mod SessionTests
