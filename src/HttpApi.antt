-- ===== src/HttpApi.antt =====
-- services/api/internal/httpapi: answers, errors, requests and handlers.
pub mod Answers
pub mod Errors
pub mod Requests
pub mod AuthHandlers
pub mod ContentHandlers
mod Tests
pub mod Middleware
pub mod Metrics
pub mod Router
mod CookieTests
