-- ===== src/Project.antt =====
-- Pipeline projects: their data (api/v1alpha1/pipelineproject_types.go) and the pure topology
-- logic of internal/projectroute/projectroute.go.
pub mod Types
pub mod Naming
pub mod Plan
pub mod Cycle
pub mod Validate
mod Tests
