-- ===== src/Render/Document.antt =====
-- The rendered document and its http block (internal/render/render.go). The YAML and JSON libraries
-- are the parameter `Codec`.
use Prim.Native.String.{◌++◌}
use rpc_operator.Prelude.{
  ℕ, suc, String, true, Option, none, some, List, [], ◌∷◌, ◌==◌, if◌then◌else◌, ◌||◌,
}
use rpc_operator.Prelude.Decimal.{itoa}
use rpc_operator.Fallible.{Fallible, ok, err, ◌>>=◌, wrap}
use rpc_operator.Api.{ComponentSpec, PipelineSpec}
use rpc_operator.Render.Value.{
  Value, bool, str, arr, obj, Items, nil, cons, Fields, end, field, get, put, delete,
}
use rpc_operator.Render.Composite.{render_composite_fields}

-- sigs.k8s.io/yaml and encoding/json
pub record Codec : Type 0 where
  pub yaml_unmarshal : String → Fallible Value
  pub yaml_marshal : Value → Fallible String
  pub json_unmarshal : String → Fallible Value

-- the block with the http server that the probes need
abbrev pub http_block : Value
http_block = obj (field "enabled" (bool true) (field "address" (str "0.0.0.0:4195") end))

-- `doc, ok := raw.(map[string]any)`, with `ok && doc != nil`
abbrev pub as_mapping : Value → Option Fields
as_mapping (obj fs) = some fs
as_mapping _ = none

-- `injectHTTPConfig` on the decoded document: the block is added if absent
unfoldable pub inject_http : Fields → Fields
inject_http doc = elim (get "http" doc) [ some _ ↦ doc | none ↦ put "http" http_block doc ]

-- `stripHTTPBlock` on the decoded document
unfoldable pub strip_http : Fields → Fields
strip_http doc = delete "http" doc

abbrev pub document : Value → Items → Value → Fields
document input processors output = field "input" input (
    field "pipeline" (obj (field "processors" (arr processors) end))
      (field "output" output (field "http" http_block end)))

module _ (codec : Codec) where
  -- `len(raw) > 0 && string(raw) != "null"`, and its decoding
  component_config : String → Fallible Value
  component_config raw =
      if raw == "" || raw == "null"
      then ok (obj end)
      else wrap (λ e. "config not valid JSON: " ++ e) (codec.json_unmarshal raw)

  unfoldable pub component_block : ComponentSpec → Fallible Value
  unfolding component_config put
  component_block c = do
    cfg ← component_config c.config
    let result = field c.type (render_composite_fields cfg) end
    ok (obj (if c.label == "" then result else put "label" (str c.label) result))

  -- the loop over the processors, from index `i`
  unfoldable pub processor_blocks : ℕ → List ComponentSpec → Fallible Items
  unfolding component_block
  processor_blocks i [] = ok nil
  processor_blocks i (c ∷ cs) = do
    b ← wrap (λ e. "processors[" ++ itoa i ++ "]: " ++ e) (component_block c)
    rest ← processor_blocks (suc i) cs
    ok (cons b rest)

  unfoldable pub inject_http_config : String → Fallible String
  inject_http_config raw_yaml = do
    raw ← wrap (λ e. "invalid YAML: " ++ e) (codec.yaml_unmarshal raw_yaml)
    elim (as_mapping raw) [
      | none ↦ err "YAML must be a mapping"
      | some doc ↦ codec.yaml_marshal (obj (inject_http doc))
    ]

  unfoldable pub strip_http_block : String → Fallible String
  strip_http_block yaml_text = do
    raw ← wrap (λ e. "invalid YAML: " ++ e) (codec.yaml_unmarshal yaml_text)
    elim (as_mapping raw) [
      | none ↦ ok yaml_text
      | some doc ↦ codec.yaml_marshal (obj (strip_http doc))
    ]

  unfoldable pub structured_document : PipelineSpec → Fallible Value
  unfolding component_block processor_blocks
  structured_document spec = do
    input ← wrap (λ e. "input: " ++ e) (component_block spec.input)
    output ← wrap (λ e. "output: " ++ e) (component_block spec.output)
    processors ← processor_blocks 0 spec.processors
    ok (obj (document input processors output))

  unfoldable pub render_pipeline_yaml : PipelineSpec → Fallible String
  unfolding inject_http_config structured_document
  render_pipeline_yaml spec =
      if spec.raw_yaml == ""
      then (structured_document spec >>= codec.yaml_marshal)
      else inject_http_config spec.raw_yaml

  unfoldable pub render_stream_config : PipelineSpec → Fallible String
  unfolding render_pipeline_yaml strip_http_block
  render_stream_config spec = do out ← render_pipeline_yaml spec; strip_http_block out
