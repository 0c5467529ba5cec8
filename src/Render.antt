-- ===== src/Render.antt =====
-- Rendering of Redpanda Connect configurations (internal/render).
pub mod Value
pub mod Composite
pub mod Document
pub mod ProjectRewrite
mod Blocks
mod Laws
mod Tests
