-- ===== src/ProjectController.antt =====
-- The PipelineProject controller (internal/controller/pipelineproject_controller.go and the files beside it).
pub mod Calls
pub mod Retention
pub mod Resources
pub mod Views
pub mod Routes
pub mod Caches
pub mod Status
pub mod Managing
pub mod Watches
pub mod Laws
mod Tests
