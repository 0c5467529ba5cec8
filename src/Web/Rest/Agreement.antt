-- ===== src/Web/Rest/Agreement.antt =====
-- The REST interface and the controller agree on what a valid project is (internal/api/validate.go and
-- internal/controller/pipelineproject_routes.go).
use rpc_operator.Prelude.{
  String, ◌≡◌, ◌≢◌, refl, ◌↔◌, Bool, true, false, Option, List, [], ◌∷◌, map, ◌==◌, Bool-cases, inl,
  inr, not, ◌&&◌, ◌||◌,
}
use rpc_operator.Controller.Calls.{Pipeline}
use rpc_operator.Project.Types.{Project}
use rpc_operator.Project.Validate.{ProjectError, Pipelines, validate_project}
use rpc_operator.Project.Validate.Messages.{validate_project-Speaks}
use rpc_operator.ProjectController.Views.Laws.{first_message-nil}
use rpc_operator.ProjectController.Views.{
  raw_has_top_key, Listed, pipeline_has_input, pipeline_has_output, view_of_pipeline, views_from,
  route_error_of,
}
use rpc_operator.Render.Document.{Codec}
use rpc_operator.Effects.{ret}
use rpc_operator.Web.Validate.{ValidationError}
use rpc_operator.Web.Rest.Calls.{RestAct, RestResponse, invalid}
use rpc_operator.Web.Rest.Shared.{RestDeps, Body}
use rpc_operator.Web.Rest.Projects.{
  graph_checked, raw_top_key, api_view, api_views, route_violation, validate_graph,
}

-- the pipeline as the controller lists it
abbrev pub as_listed : Pipeline → Listed
as_listed p = record { name = p.name; spec = p.spec }

or_false : (b : Bool) → (b || false) ≡ b
or_false true = refl
or_false false = refl

map-nil : (es : List ProjectError) → map route_violation es ≡ [] → es ≡ []
map-nil [] e = refl
map-nil (x ∷ es) e = cc

module _ (codec : Codec) where
  raw_top_key-raw_has_top_key :
      (raw key : String) → raw_top_key codec raw key ≡ raw_has_top_key codec raw key
  unfolding raw_top_key raw_has_top_key
  raw_top_key-raw_has_top_key raw key = refl

  api_view-view_of_pipeline :
      (p : Pipeline) → api_view codec p ≡ view_of_pipeline codec (as_listed p)
  unfolding api_view view_of_pipeline pipeline_has_input pipeline_has_output
  api_view-view_of_pipeline p = elim (Bool-cases (p.spec.raw_yaml == "")) [
    | inl e ↦
        rw (e, ◌&&◌, ◌||◌, not) cc
          (or_false (not (p.spec.input.type == "")), or_false (not (p.spec.output.type == "")))
    | inr e ↦
        rw
          (
            e,
            ◌&&◌,
            ◌||◌,
            not,
            raw_top_key-raw_has_top_key p.spec.raw_yaml "input",
            raw_top_key-raw_has_top_key p.spec.raw_yaml "output",
          )
          refl
  ]

  api_views-views_from :
      (ps : List Pipeline) (views : Pipelines)
      → api_views codec ps views ≡ views_from codec (map as_listed ps) views
  unfolding api_views views_from
  api_views-views_from [] views = refl
  api_views-views_from (p ∷ ps) views = rw (api_view-view_of_pipeline p) (api_views-views_from ps _)

  pub validate_graph-route_error_of :
      (parse : String → Option String) (project : Project) (ps : List Pipeline)
      → (validate_graph codec parse project ps ≡ [])
        ↔ (route_error_of codec parse project (map as_listed ps) ≡ "")
  unfolding validate_graph route_error_of
  validate_graph-route_error_of parse project ps = (
    λ e. cc (
      map-nil (validate_project parse project (api_views codec ps [])) e,
      api_views-views_from ps [],
    ),
    λ e. cc (
      first_message-nil (validate_project parse project (views_from codec (map as_listed ps) []))
          (validate_project-Speaks parse project (views_from codec (map as_listed ps) [])) e,
      api_views-views_from ps [],
    ),
  )

module _ (deps : RestDeps) (body : Body) where
  -- Behind the listing of the pipelines, the REST interface goes on to store a project where the
  -- controller's check of its routes with the same pipelines has no error to report, and else replies
  -- with the errors of a validation, one at least, and does nothing more.
  pub graph_checked-route_error_of :
      (project : Project) (store : RestAct RestResponse) (ps : List Pipeline)
      → (route_error_of deps.codec deps.parse project (map as_listed ps) ≡ ""
          → graph_checked deps body project store ps ≡ store)
        × (route_error_of deps.codec deps.parse project (map as_listed ps) ≢ ""
            → (e : ValidationError) × (es : List ValidationError) × (graph_checked deps body project
                  store ps
                ≡ ret (invalid (e ∷ es))))
  graph_checked-route_error_of project store ps = (
    λ fine. rw (agree.1 fine) refl,
    λ broken. by_errors (validate_graph deps.codec deps.parse project ps) refl broken,
  )
    where
      agree :
          (validate_graph deps.codec deps.parse project ps ≡ [])
          ↔ (route_error_of deps.codec deps.parse project (map as_listed ps) ≡ "")
      agree = validate_graph-route_error_of deps.codec deps.parse project ps

      by_errors :
          (found : List ValidationError)
          → validate_graph deps.codec deps.parse project ps ≡ found
          → route_error_of deps.codec deps.parse project (map as_listed ps) ≢ ""
          → (e : ValidationError) × (es : List ValidationError) × (graph_checked deps body project
                store ps
              ≡ ret (invalid (e ∷ es)))
      by_errors [] same broken = absurd (broken (agree.0 same))
      by_errors (e ∷ es) same broken = (e, es, rw same refl)
