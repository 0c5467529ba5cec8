-- ===== src/ProjectController/Views.antt =====
-- What the validation sees of the pipelines (validateProjectRoutes, pipelineHasOutput,
-- pipelineHasInput and rawHasTopKey of internal/controller/pipelineproject_routes.go).
pub mod Laws
use rpc_operator.Prelude.{
  String, Bool, false, not, Option, none, some, List, [], ◌∷◌, ◌==◌, if◌then◌else◌,
}
use rpc_operator.Fallible
use rpc_operator.Api.{PipelineSpec}
use rpc_operator.Controller.Status.{is_some}
use rpc_operator.Project.Types.{Project}
use rpc_operator.Project.Validate.{ProjectError, PipelineView, Pipelines, validate_project}
use rpc_operator.Render.Value.{get}
use rpc_operator.Render.Document.{Codec, as_mapping}

-- a pipeline as the API server lists it
pub record Listed : Type 0 where
  pub name : String
  pub spec : PipelineSpec

-- rawHasTopKey
unfoldable pub raw_has_top_key : Codec → String → String → Bool
unfolding get
raw_has_top_key codec raw key = elim (codec.yaml_unmarshal raw) [
  | Fallible.err e ↦ false
  | Fallible.ok v ↦ elim (as_mapping v) [ none ↦ false | some doc ↦ is_some (get key doc) ]
]

-- pipelineHasOutput
unfoldable pub pipeline_has_output : Codec → PipelineSpec → Bool
unfolding raw_has_top_key
pipeline_has_output codec spec =
    if not (spec.raw_yaml == "")
    then raw_has_top_key codec spec.raw_yaml "output"
    else not (spec.output.type == "")

-- pipelineHasInput
unfoldable pub pipeline_has_input : Codec → PipelineSpec → Bool
unfolding raw_has_top_key
pipeline_has_input codec spec =
    if not (spec.raw_yaml == "")
    then raw_has_top_key codec spec.raw_yaml "input"
    else not (spec.input.type == "")

abbrev pub project_of : Option String → String
project_of none = ""
project_of (some name) = name

unfoldable pub view_of_pipeline : Codec → Listed → PipelineView
unfolding pipeline_has_input pipeline_has_output
view_of_pipeline codec p = record {
  name = p.name;
  project_name = project_of p.spec.project_ref;
  has_input = pipeline_has_input codec p.spec;
  has_output = pipeline_has_output codec p.spec;
}

-- `views[p.Name] = v`
unfoldable pub set_view : PipelineView → Pipelines → Pipelines
set_view v [] = (v.name, v) ∷ []
set_view v ((k, w) ∷ views) = if k == v.name then (k, v) ∷ views else (k, w) ∷ set_view v views

-- the loop over the pipelines
unfoldable pub views_from : Codec → List Listed → Pipelines → Pipelines
unfolding set_view view_of_pipeline
views_from codec [] views = views
views_from codec (p ∷ ps) views = views_from codec ps (set_view (view_of_pipeline codec p) views)

abbrev pub first_message : List ProjectError → String
first_message [] = ""
first_message (e ∷ es) = e.message

-- behind the listing of the pipelines; `parse` is the parser of Bloblang
unfoldable pub route_error_of : Codec → (String → Option String) → Project → List Listed → String
unfolding views_from
route_error_of codec parse project pipelines =
    first_message (validate_project parse project (views_from codec pipelines []))
