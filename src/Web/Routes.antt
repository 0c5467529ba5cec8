-- ===== src/Web/Routes.antt =====
-- The table of routes (registerRoutes of internal/api/server.go), with the handlers of pipelines,
-- clusters, projects, namespaces and the user. The routes of metrics, connections, logs, the catalog,
-- OIDC and the static files are left out.
pub mod Promises
pub mod Guards
pub mod Writes
pub mod Guarded
mod Tests
use rpc_operator.Prelude.{String, true, false, List, [], ◌∷◌}
use rpc_operator.Web.Access.{Server, Head, Context, auth_if_enabled, auth_or_anonymous, allowlist}
use rpc_operator.Web.Rest.Calls.{RestAct, RestResponse, reject}
use rpc_operator.Web.Rest.Shared.{RestDeps, Body}
use rpc_operator.Web.Rest.Pipelines.{
  handle_list_all, handle_list_namespaced, handle_get, handle_delete, handle_create, handle_update,
  handle_stop, handle_run, handle_validate, handle_render,
}
use rpc_operator.Web.Rest.Clusters.{
  handle_list_all_clusters, handle_list_namespaced_clusters, handle_get_cluster,
  handle_delete_cluster, handle_create_cluster, handle_update_cluster, handle_cluster_instances,
}
use rpc_operator.Web.Rest.Projects.{
  handle_list_all_projects, handle_list_namespaced_projects, handle_get_project,
  handle_delete_project, handle_create_project, handle_update_project,
}
use rpc_operator.Web.Rest.Users.{handle_list_namespaces, handle_whoami}

abbrev pub Handler : Type 0
Handler = Head → Context → RestAct RestResponse

pub record Route : Type 0 where
  pub pattern : String
  pub handler : Handler

abbrev pub route : String → Handler → Route
route pattern handler = record { pattern = pattern; handler = handler }

module _ (deps : RestDeps) (body : Body) where
  -- `s.authOrAnonymous(s.allowlist(…))` and `s.authIfEnabled(s.allowlist(…))`
  abbrev pub readable : Handler → Handler
  readable h = auth_or_anonymous reject deps.server (allowlist reject deps.server h)

  abbrev pub writable : Handler → Handler
  writable h = auth_if_enabled reject deps.server (allowlist reject deps.server h)

  abbrev pub readable_anywhere : Handler → Handler
  readable_anywhere h = auth_or_anonymous reject deps.server h

  -- the user of a request, and the namespaces
  abbrev pub whoami_route : Route
  whoami_route = route "GET /api/v1/auth/whoami" (readable_anywhere (handle_whoami deps.server))

  abbrev pub namespaces_route : Route
  namespaces_route =
      route "GET /api/v1/namespaces" (readable_anywhere (handle_list_namespaces deps.server))

  -- the routes of the pipelines
  unfoldable pub pipeline_routes : List Route
  pipeline_routes =
      route "GET /api/v1/pipelines" (readable_anywhere (handle_list_all deps.server))
      ∷ route "GET /api/v1/namespaces/{namespace}/pipelines"
          (readable (handle_list_namespaced deps.server))
      ∷ route "GET /api/v1/namespaces/{namespace}/pipelines/{name}"
          (readable (handle_get deps.server))
      ∷ route "POST /api/v1/namespaces/{namespace}/pipelines" (writable (handle_create deps body))
      ∷ route "PUT /api/v1/namespaces/{namespace}/pipelines/{name}"
          (writable (handle_update deps body))
      ∷ route "DELETE /api/v1/namespaces/{namespace}/pipelines/{name}"
          (writable (handle_delete deps.server))
      ∷ route "POST /api/v1/namespaces/{namespace}/pipelines/{name}/stop"
          (writable (handle_stop deps body))
      ∷ route "POST /api/v1/namespaces/{namespace}/pipelines/{name}/run"
          (writable (handle_run deps body))
      ∷ []

  -- the routes of the clusters, up to that of their metrics
  unfoldable pub cluster_routes : List Route
  cluster_routes =
      route "GET /api/v1/pipelineclusters"
        (readable_anywhere (handle_list_all_clusters deps.server))
      ∷ route "GET /api/v1/namespaces/{namespace}/pipelineclusters"
          (readable (handle_list_namespaced_clusters deps.server))
      ∷ route "GET /api/v1/namespaces/{namespace}/pipelineclusters/{name}"
          (readable (handle_get_cluster deps.server))
      ∷ route "POST /api/v1/namespaces/{namespace}/pipelineclusters"
          (writable (handle_create_cluster deps body))
      ∷ route "PUT /api/v1/namespaces/{namespace}/pipelineclusters/{name}"
          (writable (handle_update_cluster deps body))
      ∷ route "DELETE /api/v1/namespaces/{namespace}/pipelineclusters/{name}"
          (writable (handle_delete_cluster deps.server))
      ∷ route "GET /api/v1/namespaces/{namespace}/pipelineclusters/{name}/instances"
          (readable (handle_cluster_instances deps.server))
      ∷ []

  -- the routes of the projects
  unfoldable pub project_routes : List Route
  project_routes =
      route "GET /api/v1/pipelineprojects"
        (readable_anywhere (handle_list_all_projects deps.server))
      ∷ route "GET /api/v1/namespaces/{namespace}/pipelineprojects"
          (readable (handle_list_namespaced_projects deps.server))
      ∷ route "GET /api/v1/namespaces/{namespace}/pipelineprojects/{name}"
          (readable (handle_get_project deps.server))
      ∷ route "POST /api/v1/namespaces/{namespace}/pipelineprojects"
          (writable (handle_create_project deps body))
      ∷ route "PUT /api/v1/namespaces/{namespace}/pipelineprojects/{name}"
          (writable (handle_update_project deps body))
      ∷ route "DELETE /api/v1/namespaces/{namespace}/pipelineprojects/{name}"
          (writable (handle_delete_project deps.server))
      ∷ []

  -- the routes of a specification alone
  unfoldable pub spec_routes : List Route
  spec_routes =
      route "POST /api/v1/pipelines/validate" (handle_validate deps body)
      ∷ route "POST /api/v1/pipelines/render" (handle_render deps body)
      ∷ []
