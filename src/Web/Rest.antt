-- ===== src/Web/Rest.antt =====
-- The handlers of the REST interface as programs over the API server
-- (clientForRequest and handleWhoami of internal/api/auth.go, internal/api/errors.go,
-- internal/api/handlers_pipelines.go, handlers_projects.go and handlers_clusters.go).
pub mod Calls
pub mod Shared
pub mod Pipelines
pub mod Projects
pub mod Clusters
pub mod Users
pub mod Agreement
mod Tests
