-- ===== src/Render/Laws.antt =====
-- What the rewrite of a project pipeline changes in its document, and what it leaves.
use rpc_operator.Prelude.{
  String, ◌≡◌, refl, inl, inr, true, false, Option, none, some, ◌==◌, if◌then◌else◌, Bool-cases,
  Option-cases, arith, eq_iff, ◌∙◌, is_empty, ap,
}
use rpc_operator.Render.Value.{
  Value, arr, obj, str, bool, Items, nil, cons, Fields, field, end, get, put, get-put, get-delete,
}
use rpc_operator.Render.Composite.{
  render_composite_fields, render_items, render_fields, specs_to_rpc, spec_value_to_rpc,
  looks_like_component_spec, looks_like_component_spec_array, all_look_like, spec_to_rpc,
}
use rpc_operator.Render.Document.{document, inject_http, strip_http}
use rpc_operator.Render.Blocks.{IsOutput, IsInput, IsPredicate}
use rpc_operator.Render.ProjectRewrite.{
  ProjectIoPlan, build_output, build_input, build_predicate_processor, entries_of, items_of,
}

-- `doc.pipeline.processors`
abbrev pub processors_of : Fields → Items
processors_of doc = items_of (get "processors" (entries_of (get "pipeline" doc)))

abbrev with_predicate : Option Value → Items → Items
with_predicate none vs = vs
with_predicate (some proc) vs = cons proc vs

-- The document behind the rewrite, key by key.
pub record Rewritten (plan : ProjectIoPlan) (doc after : Fields) : Type 0 where
  pub output : get "output" after ≡ (
      if is_empty plan.outgoing_subjects
      then get "output" doc
      else some (build_output plan.nats_url plan.outgoing_subjects))
  pub input : get "input" after ≡ (
      if is_empty plan.incoming
      then get "input" doc
      else some (build_input plan.nats_url plan.incoming))
  pub processors :
      processors_of after
      ≡ with_predicate (build_predicate_processor plan.incoming) (processors_of doc)
  pub output_block :
      IsOutput plan.nats_url plan.outgoing_subjects
        (build_output plan.nats_url plan.outgoing_subjects)
  pub input_block : IsInput plan.nats_url plan.incoming (build_input plan.nats_url plan.incoming)
  pub predicate : IsPredicate plan.incoming (build_predicate_processor plan.incoming)
  pub pipeline_others :
      (key : String)
      → (key == "processors") ≡ false
      → get key (entries_of (get "pipeline" after)) ≡ get key (entries_of (get "pipeline" doc))
  pub others :
      (key : String)
      → (key == "output") ≡ false
      → (key == "input") ≡ false
      → (key == "pipeline") ≡ false
      → get key after ≡ get key doc

sym_test : (s t : String) → (s == t) ≡ false → (t == s) ≡ false
sym_test s t h = ground (arith, eq_iff s t, eq_iff t s)

module _ (plan : ProjectIoPlan) (doc : Fields) where
  abbrev side : Fields
  side = put "input" (build_input plan.nats_url plan.incoming) doc

module _ (plan : ProjectIoPlan) (doc : Fields) where
  -- the document after the producer side
  abbrev sent : Fields
  sent =
      if is_empty plan.outgoing_subjects
      then doc
      else put "output" (build_output plan.nats_url plan.outgoing_subjects) doc

-- The server that the probes of a pod ask: it is enabled, and listens on port 4195.
abbrev pub IsProbed : Fields → Type 0
IsProbed doc =
    (http : Fields) × (get "http" doc ≡ some (obj http))
    × (get "enabled" http ≡ some (bool true))
    × (get "address" http ≡ some (str "0.0.0.0:4195"))

-- The http block of a raw document `doc` and of a structured one for a pod, and behind the strip for a
-- stream.
pub record HttpHandling (doc : Fields) (input : Value) (processors : Items) (output : Value)
    : Type 0 where
  pub structured_probed : IsProbed (document input processors output)
  pub structured_stream : get "http" (strip_http (document input processors output)) ≡ none
  pub structured_others :
      (key : String)
      → (key == "http") ≡ false
      → get key (strip_http (document input processors output))
        ≡ get key (document input processors output)
  pub pod_probed : get "http" doc ≡ none → IsProbed (inject_http doc)
  pub user_http_kept : (v : Value) → get "http" doc ≡ some v → inject_http doc ≡ doc
  pub stream_has_none : get "http" (strip_http (inject_http doc)) ≡ none
  pub others :
      (key : String)
      → (key == "http") ≡ false
      → get key (strip_http (inject_http doc)) ≡ get key doc

get-inject_http :
    (doc : Fields) (key : String)
    → (key == "http") ≡ false
    → get key (inject_http doc) ≡ get key doc
unfolding inject_http
get-inject_http doc key h = elim (Option-cases (get "http" doc)) [
  | inl e ↦ rw (e, inject_http, get-put, sym_test key "http" h) refl
  | inr (v, e) ↦ rw (e, inject_http) refl
]

get-strip_http :
    (doc : Fields) (key : String) → (key == "http") ≡ false → get key (strip_http doc) ≡ get key doc
unfolding strip_http
get-strip_http doc key h = rw (strip_http, get-delete, sym_test key "http" h) refl

strip_http-none : (doc : Fields) → get "http" (strip_http doc) ≡ none
unfolding strip_http
strip_http-none doc = rw (strip_http, get-delete) refl

inject_http-IsProbed : (doc : Fields) → get "http" doc ≡ none → IsProbed (inject_http doc)
unfolding inject_http
inject_http-IsProbed doc h = (
  field "enabled" (bool true) (field "address" (str "0.0.0.0:4195") end),
  rw (h, inject_http, get-put) refl,
  unfold get in refl,
  unfold get in refl,
)

-- A pod's structured document, and its raw document where it has no http block of its own, has the
-- enabled http server on port 4195; a raw document with an http block is left as it is. A stream's
-- document of either form has no http block, and every other key of the document is kept.
pub http_handling :
    (doc : Fields) (input : Value) (processors : Items) (output : Value)
    → HttpHandling doc input processors output
unfolding get
http_handling doc input processors output = record {
  structured_probed =
      (field "enabled" (bool true) (field "address" (str "0.0.0.0:4195") end), refl, refl, refl);
  structured_stream = strip_http-none (document input processors output);
  structured_others = λ key h. get-strip_http (document input processors output) key h;
  pod_probed = inject_http-IsProbed doc;
  user_http_kept = λ v h. unfold inject_http in rw (h, inject_http) refl;
  stream_has_none = strip_http-none (inject_http doc);
  others = λ key h. get-strip_http (inject_http doc) key h ∙ get-inject_http doc key h;
}

-- where every element is a component spec
specs_to_rpc-render : (vs : Items) → all_look_like vs ≡ true → specs_to_rpc vs ≡ render_items vs
unfolding render_composite_fields render_items specs_to_rpc spec_value_to_rpc all_look_like
specs_to_rpc-render nil h = refl
specs_to_rpc-render (cons (obj fs) vs) h = elim (Bool-cases (looks_like_component_spec fs)) [
  | inl e ↦ rw e (
      ap (cons (spec_to_rpc fs (render_fields fs)))
        (specs_to_rpc-render vs (rw (e, all_look_like) at h)))
  | inr e ↦ cc (rw (e, all_look_like) at h)
]
specs_to_rpc-render (cons v vs) h = cc

-- The rendering of an array is the array of its rendered elements, whether or not all of them are
-- component specs.
pub render_composite_fields-arr :
    (vs : Items) → render_composite_fields (arr vs) ≡ arr (render_items vs)
unfolding render_composite_fields looks_like_component_spec_array
render_composite_fields-arr nil = refl
render_composite_fields-arr (cons v vs) = elim (Bool-cases (all_look_like (cons v vs))) [
  | inl e ↦ rw e (ap arr (specs_to_rpc-render (cons v vs) e))
  | inr e ↦ rw e refl
]
