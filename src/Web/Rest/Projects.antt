-- ===== src/Web/Rest/Projects.antt =====
-- The handlers of projects (internal/api/handlers_projects.go, and ValidateProject of
-- internal/api/validate.go).
use Prim.Native.String.{◌++◌}
use rpc_operator.Prelude.{
  Bool, false, none, String, not, ◌&&◌, ◌||◌, Option, some, List, [], ◌∷◌, map, ◌==◌,
}
use rpc_operator.Fallible.{Fallible}
use rpc_operator.Controller.Status.{is_some}
use rpc_operator.Render.Value.{get as entry}
use rpc_operator.Render.Document.{as_mapping}
use rpc_operator.Effects.{ret, ask}
use rpc_operator.Controller.Calls.{Pipeline, on_answer}
use rpc_operator.Project.Types.{Project}
use rpc_operator.Project.Validate.{ProjectError, PipelineView, Pipelines, validate_project}
use rpc_operator.ProjectController.Views.{project_of, set_view}
use rpc_operator.Render.Document.{Codec}
use rpc_operator.Web.Access.{Server, Head, Context}
use rpc_operator.Web.Validate.{ValidationError, one}
use rpc_operator.Web.Rest.Calls.{
  pipelines, projects, Client, list, get, RestAct, RestResponse, invalid, answered, with_client,
}
use rpc_operator.Web.Rest.Shared.{
  RestDeps, Body, decoded, with_spec_of, list_all, list_namespaced, get_one, delete_one, store_new,
  store_changed, placed, unless_invalid,
}

-- rawTopKey
unfoldable pub raw_top_key : Codec → String → String → Bool
raw_top_key codec raw key = elim (codec.yaml_unmarshal raw) [
  | Fallible.err e ↦ false
  | Fallible.ok v ↦ elim (as_mapping v) [ none ↦ false | some doc ↦ is_some (entry key doc) ]
]

-- the view of a pipeline in ValidateProject
unfoldable pub api_view : Codec → Pipeline → PipelineView
api_view codec p = record {
  name = p.name;
  project_name = project_of p.spec.project_ref;
  has_input =
      (p.spec.raw_yaml == "" && not (p.spec.input.type == ""))
      || (not (p.spec.raw_yaml == "") && raw_top_key codec p.spec.raw_yaml "input");
  has_output =
      (p.spec.raw_yaml == "" && not (p.spec.output.type == ""))
      || (not (p.spec.raw_yaml == "") && raw_top_key codec p.spec.raw_yaml "output");
}

-- the loop over the pipelines
unfoldable pub api_views : Codec → List Pipeline → Pipelines → Pipelines
unfolding api_view
api_views codec [] views = views
api_views codec (p ∷ ps) views = api_views codec ps (set_view (api_view codec p) views)

abbrev pub route_violation : ProjectError → ValidationError
route_violation e = record { path = "spec.routes"; message = e.message }

-- ValidateProject of internal/api/validate.go
unfoldable pub validate_graph :
    Codec → (String → Option String) → Project → List Pipeline → List ValidationError
unfolding api_views
validate_graph codec parse project ps =
    map route_violation (validate_project parse project (api_views codec ps []))

module _ (deps : RestDeps) (body : Body) where
  -- what follows the listing of the pipelines, where the graph with them has no errors
  abbrev pub graph_checked : Project → RestAct RestResponse → List Pipeline → RestAct RestResponse
  graph_checked p m ps =
      unless_invalid deps.server pipelines (validate_graph deps.codec deps.parse p ps) m

  -- validateProjectGraph, and what follows where it finds nothing
  unfoldable pub validate_project_graph :
      Client → String → Project → RestAct RestResponse → RestAct RestResponse
  unfolding validate_graph
  validate_project_graph c ns p m = ask (list c pipelines (some ns)) (λ r.
      on_answer r (graph_checked p m)
        (λ e. ret (invalid (one "spec.routes" ("could not list pipelines: " ++ e.text)))))

  -- handleCreateProject
  unfoldable pub handle_create_project : Head → Context → RestAct RestResponse
  unfolding validate_project_graph
  handle_create_project head ctx = decoded (body projects) (λ b.
      placed deps.server projects head b (λ p.
        with_client deps.server ctx
          (λ c. validate_project_graph c head.namespace p (store_new deps.server projects c p))))

  -- handleUpdateProject
  unfoldable pub handle_update_project : Head → Context → RestAct RestResponse
  unfolding validate_project_graph
  handle_update_project head ctx = decoded (body projects) (λ b. with_client deps.server ctx (λ c.
      ask (get c projects head.namespace head.name) (λ r. answered r (λ current.
        validate_project_graph c head.namespace (with_spec_of projects b current)
          (store_changed deps.server projects c (with_spec_of projects b current))))))

module _ (server : Server) where
  abbrev pub handle_list_all_projects : Head → Context → RestAct RestResponse
  handle_list_all_projects = list_all server projects

  abbrev pub handle_list_namespaced_projects : Head → Context → RestAct RestResponse
  handle_list_namespaced_projects = list_namespaced server projects

  abbrev pub handle_get_project : Head → Context → RestAct RestResponse
  handle_get_project = get_one server projects

  abbrev pub handle_delete_project : Head → Context → RestAct RestResponse
  handle_delete_project = delete_one server projects
