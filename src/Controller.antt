-- ===== src/Controller.antt =====
-- The Pipeline controller (internal/controller/pipeline_controller.go, pipeline_cluster_assign.go,
-- pipeline_project_assign.go and secret_substitution.go).
pub mod Calls
pub mod Status
pub mod Errors
pub mod Steps
pub mod Placement
pub mod ClusterMode
pub mod PodMode
pub mod Reconcile
mod Rules
mod Sound
mod Laws
mod Tests
