-- ===== src/Render/ProjectRewrite.antt =====
-- The rewrite of a project pipeline's input, output and processors (internal/render/project_rewrite.go).
use Prim.Native.String
use Prim.Native.String.{String, [], ◌∷◌}
use rpc_operator.Prelude.{
  ℕ, suc, ◌&&◌, Option, none, some, List, [], ◌∷◌, ◌==◌, if◌then◌else◌, is_empty, nat_eq,
}
use rpc_operator.Prelude.Quote.{quote}
use rpc_operator.Fallible.{Fallible, ok, err, ◌>>=◌, wrap}
use rpc_operator.Project.Plan.{IncomingTarget, IoPlan}
use rpc_operator.Render.Value.{Value, str, arr, obj, Items, nil, cons, Fields, end, field, get, put}
use rpc_operator.Render.Document.{Codec, as_mapping}

-- `IncomingRoute` mirrors `IncomingTarget` without its route name.
pub record IncomingRoute : Type 0 where
  pub subject : String
  pub durable : String
  pub when : String

pub record ProjectIoPlan : Type 0 where
  pub nats_url : String
  pub outgoing_subjects : List String
  pub incoming : List IncomingRoute

-- the loop of `toRenderPlan` (internal/controller/pipeline_project_assign.go)
unfoldable pub to_incoming_routes : List IncomingTarget → List IncomingRoute
to_incoming_routes [] = []
to_incoming_routes (t ∷ ts) =
    record { subject = t.subject; durable = t.durable; when = t.when } ∷ to_incoming_routes ts

unfoldable pub to_render_plan : IoPlan → ProjectIoPlan
unfolding to_incoming_routes
to_render_plan p = record {
  nats_url = p.nats_url;
  outgoing_subjects = p.outgoing_subjects;
  incoming = to_incoming_routes p.incoming;
}

abbrev single : Value → Items
single v = cons v nil

unfoldable pub nats_output : String → String → Value
nats_output url subject = obj (
    field "nats_jetstream"
      (obj (
        field "urls" (arr (single (str url))) (
          field "subject" (str subject)
            (field "metadata" (obj (field "include_patterns" (arr (single (str ".*"))) end)) end))))
      end)

unfoldable pub nats_outputs : String → List String → Items
unfolding nats_output
nats_outputs url [] = nil
nats_outputs url (s ∷ ss) = cons (nats_output url s) (nats_outputs url ss)

-- `buildOutput`: one output, or a fan_out broker; the callers give at least one subject
unfoldable pub build_output : String → List String → Value
unfolding nats_outputs
build_output url (s ∷ []) = nats_output url s
build_output url subjects = obj (
    field "broker"
      (obj
        (field "pattern" (str "fan_out") (field "outputs" (arr (nats_outputs url subjects)) end)))
      end)

unfoldable pub nats_input : String → IncomingRoute → Value
nats_input url i = obj (
    field "nats_jetstream"
      (obj (
        field "urls" (arr (single (str url))) (
          field "subject" (str i.subject)
            (field "durable" (str i.durable) (field "queue" (str "") end)))))
      end)

unfoldable pub nats_inputs : String → List IncomingRoute → Items
unfolding nats_input
nats_inputs url [] = nil
nats_inputs url (i ∷ is) = cons (nats_input url i) (nats_inputs url is)

unfoldable pub build_input : String → List IncomingRoute → Value
unfolding nats_inputs
build_input url (i ∷ []) = nats_input url i
build_input url incoming =
    obj (field "broker" (obj (field "inputs" (arr (nats_inputs url incoming)) end)) end)

unfoldable pub filter_mapping : String → String
filter_mapping when = String.◌++◌ "root = if !(" (String.◌++◌ when ") { deleted() } else { this }")

-- `withWhen`
unfoldable pub count_when : List IncomingRoute → ℕ
count_when [] = 0
count_when (i ∷ is) = let rest = count_when is in if i.when == "" then rest else suc rest

-- one case of the switch
unfoldable pub switch_case : IncomingRoute → Value
unfolding filter_mapping
switch_case i = obj (
    field "check" (str (String.◌++◌ "@nats_subject == " (quote i.subject))) (
      field "processors" (arr (single (obj (field "mapping" (str (filter_mapping i.when)) end))))
        end))

unfoldable pub switch_cases : List IncomingRoute → Items
unfolding switch_case
switch_cases [] = nil
switch_cases (i ∷ is) =
    let rest = switch_cases is in if i.when == "" then rest else cons (switch_case i) rest

abbrev pub predicate_of : List IncomingRoute → Value
predicate_of (i ∷ []) = obj (field "mapping" (str (filter_mapping i.when)) end)
predicate_of incoming = obj (field "switch" (arr (switch_cases incoming)) end)

unfoldable pub build_predicate_processor : List IncomingRoute → Option Value
unfolding count_when switch_cases
build_predicate_processor incoming =
    if nat_eq (count_when incoming) 0 then none else some (predicate_of incoming)

-- `pipe, _ := doc["pipeline"].(map[string]any)`; nil becomes a new map
abbrev pub entries_of : Option Value → Fields
entries_of (some (obj fs)) = fs
entries_of _ = end

-- `existing, _ := pipe["processors"].([]any)`
abbrev pub items_of : Option Value → Items
items_of (some (arr vs)) = vs
items_of _ = nil

unfoldable pub prepend_processor : Fields → Value → Fields
prepend_processor doc proc =
    let pipe = entries_of (get "pipeline" doc) in
    put "pipeline"
      (obj (put "processors" (arr (cons proc (items_of (get "processors" pipe)))) pipe)) doc

-- the consumer side: the input, and the predicate in front of the processors
unfoldable pub rewrite_input : ProjectIoPlan → Fields → Fields
rewrite_input plan doc =
    let doc' = put "input" (build_input plan.nats_url plan.incoming) doc in
    elim (build_predicate_processor plan.incoming) [
      | none ↦ doc'
      | some proc ↦ prepend_processor doc' proc
    ]

-- `ApplyProjectIO` on the decoded document
unfoldable pub rewrite_document : ProjectIoPlan → Fields → Fields
rewrite_document plan doc =
    let doc' =
      if is_empty plan.outgoing_subjects
      then doc
      else put "output" (build_output plan.nats_url plan.outgoing_subjects) doc in
    if is_empty plan.incoming then doc' else rewrite_input plan doc'

module _ (codec : Codec) where
  unfoldable pub apply_project_io : String → ProjectIoPlan → Fallible String
  apply_project_io yaml_text plan =
      if is_empty plan.outgoing_subjects && is_empty plan.incoming then ok yaml_text else do
        raw ← wrap (λ e. String.◌++◌ "invalid YAML: " e) (codec.yaml_unmarshal yaml_text)
        elim (as_mapping raw) [
          | none ↦ err "YAML must be a mapping"
          | some doc ↦ codec.yaml_marshal (obj (rewrite_document plan doc))
        ]
