-- ===== src/Web/Rest/Pipelines.antt =====
-- The handlers of pipelines (internal/api/handlers_pipelines.go).
use rpc_operator.Prelude.{String, Bool, true, false, none, some, is_empty, if◌then◌else◌}
use rpc_operator.Effects.{ret, ask, ◌>>=◌}
use rpc_operator.Fallible.{Fallible}
use rpc_operator.Controller.Calls.{Pipeline, on_answer}
use rpc_operator.Project.Types.{Project}
use rpc_operator.Project.Plan.{plan_for, plan_is_empty}
use rpc_operator.Render.Document.{render_pipeline_yaml}
use rpc_operator.Render.ProjectRewrite.{to_render_plan, apply_project_io}
use rpc_operator.Web.Access.{Server, Head, Context, problem}
use rpc_operator.Web.Validate.{validate_pipeline}
use rpc_operator.Web.Rest.Calls.{
  pipelines, projects, Client, get, patch_stopped, RestAct, RestResponse, object, validated, yaml,
  reject, answered, client_for_request, with_client,
}
use rpc_operator.Web.Rest.Shared.{
  RestDeps, Body, decoded, with_spec_of, list_all, list_namespaced, get_one, delete_one, store_new,
  store_changed, placed, unless_invalid,
}

module _ (server : Server) where
  abbrev pub handle_list_all : Head → Context → RestAct RestResponse
  handle_list_all = list_all server pipelines

  abbrev pub handle_list_namespaced : Head → Context → RestAct RestResponse
  handle_list_namespaced = list_namespaced server pipelines

  abbrev pub handle_get : Head → Context → RestAct RestResponse
  handle_get = get_one server pipelines

  abbrev pub handle_delete : Head → Context → RestAct RestResponse
  handle_delete = delete_one server pipelines

module _ (deps : RestDeps) (body : Body) where
  -- handleCreate
  unfoldable pub handle_create : Head → Context → RestAct RestResponse
  handle_create head ctx = decoded (body pipelines) (λ b. placed deps.server pipelines head b (λ p.
      unless_invalid deps.server pipelines
        (validate_pipeline deps.codec deps.json deps.catalog p.spec)
        (with_client deps.server ctx (λ c. store_new deps.server pipelines c p))))

  -- handleUpdate
  unfoldable pub handle_update : Head → Context → RestAct RestResponse
  handle_update head ctx = decoded (body pipelines) (λ b.
      unless_invalid deps.server pipelines
        (validate_pipeline deps.codec deps.json deps.catalog b.spec)
        (with_client deps.server ctx (λ c. ask (get c pipelines head.namespace head.name) (λ r.
          answered r (λ current.
            store_changed deps.server pipelines c (with_spec_of pipelines b current))))))

  -- patchStopped
  unfoldable pub set_stopped : Bool → Head → Context → RestAct RestResponse
  set_stopped stopped head ctx = with_client deps.server ctx (λ c.
      ask (get c pipelines head.namespace head.name) (λ r. answered r (λ p.
        ask (patch_stopped c p stopped)
          (λ r'. answered r' (λ patched. ret (object 200 pipelines patched))))))

  abbrev pub handle_stop : Head → Context → RestAct RestResponse
  handle_stop = set_stopped true

  abbrev pub handle_run : Head → Context → RestAct RestResponse
  handle_run = set_stopped false

  -- handleValidate
  unfoldable pub handle_validate : Head → Context → RestAct RestResponse
  handle_validate head ctx = decoded (body pipelines) (λ p.
      let errors = validate_pipeline deps.codec deps.json deps.catalog p.spec in
      ret (validated (is_empty errors) errors))

  -- the rewrite in handleRender, or the text as it was
  abbrev pub rewritten_text : Pipeline → Project → String → String
  rewritten_text p project text =
      let plan = plan_for project p.namespace p.name in
      if plan_is_empty plan
      then text
      else elim (apply_project_io deps.codec text (to_render_plan plan)) [
        | Fallible.ok rewritten ↦ rewritten
        | Fallible.err e ↦ text
      ]

  -- the lookup of the project in handleRender
  abbrev pub preview : Pipeline → String → String → Fallible Client → RestAct RestResponse
  preview p name text (Fallible.err e) = ret (yaml text)
  preview p name text (Fallible.ok c) = ask (get c projects p.namespace name) (λ r.
      on_answer r (λ project. ret (yaml (rewritten_text p project text))) (λ e. ret (yaml text)))

  -- handleRender
  unfoldable pub handle_render : Head → Context → RestAct RestResponse
  handle_render head ctx = decoded (body pipelines) (λ p.
      elim (render_pipeline_yaml deps.codec p.spec) [
        | Fallible.err e ↦ reject (problem 422 "render failed" e)
        | Fallible.ok text ↦ elim p.spec.project_ref [
          | none ↦ ret (yaml text)
          | some name ↦ client_for_request deps.server ctx >>= preview p name text
        ]
      ])
