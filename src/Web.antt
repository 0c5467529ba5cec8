-- ===== src/Web.antt =====
-- The HTTP server (internal/api).
pub mod Sessions
pub mod Oidc
pub mod Access
pub mod Validate
pub mod Rest
pub mod Distribution
pub mod Routes
