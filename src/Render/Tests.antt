-- ===== src/Render/Tests.antt =====
-- The theorems on rendered documents, at a small document.
use rpc_operator.Prelude.{◌≡◌, [], ◌∷◌}
use rpc_operator.Render.Value.{str, arr, obj, Items, nil, cons, Fields, end, field}
use rpc_operator.Render.Composite.{render_composite_fields, render_items}
use rpc_operator.Render.ProjectRewrite.{ProjectIoPlan}
use rpc_operator.Render.Laws.{HttpHandling, http_handling, render_composite_fields-arr}

abbrev plan : ProjectIoPlan
plan = record {
  nats_url = "nats://p-nats.ns.svc:4222";
  outgoing_subjects = "rpc.p.out" ∷ [];
  incoming = record { subject = "rpc.p.in"; durable = "p-in-x"; when = "this.ok" } ∷ [];
}

abbrev doc : Fields
doc =
    field "pipeline" (obj (field "processors" (arr (cons (str "log") nil)) end))
      (field "logger" (str "json") end)

http_handling_example : HttpHandling doc (str "stdin") (cons (str "log") nil) (str "drop")
http_handling_example = http_handling doc (str "stdin") (cons (str "log") nil) (str "drop")

-- an array of component specs
abbrev specs : Items
specs = cons (obj (field "type" (str "drop") (field "config" (obj end) end))) (
    cons
      (obj (field "type" (str "log") (field "config" (obj (field "level" (str "INFO") end)) end)))
      nil)

render_composite_fields-arr_example : render_composite_fields (arr specs) ≡ arr (render_items specs)
render_composite_fields-arr_example = render_composite_fields-arr specs
