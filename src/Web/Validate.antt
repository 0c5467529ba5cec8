-- ===== src/Web/Validate.antt =====
-- The validation of pipelines before they are stored (internal/api/validate.go). The JSON Schema
-- library and encoding/json are the parameter `JsonOps`.
pub mod Parts
pub mod Components
mod Tests
use Prim.Native.String
use Prim.Native.String.{◌++◌ as text_append}
use Prim.Native.String.{[] as empty_text, ◌∷◌ as text_cons}
use Prim.Native.Char.{code}
use rpc_operator.Prelude.{
  ℕ, zero, suc, String, Bool, true, false, not, ◌&&◌, ◌||◌, Option, none, some, List, [], ◌∷◌, ◌++◌,
  any, is_empty, ◌==◌, if◌then◌else◌,
}
use rpc_operator.Prelude.Decimal.{itoa}
use rpc_operator.Prelude.Quote.{quote}
use rpc_operator.Fallible.{Fallible, ok, err}
use rpc_operator.Api.{ComponentSpec, SecretRef, PipelineSpec}
use rpc_operator.Controller.Status.{is_some}
use rpc_operator.Secrets.{is_name_start, is_name_char}
use rpc_operator.Render.Value.{Value, obj, null, Fields, delete}
use rpc_operator.Render.Document.{Codec, render_pipeline_yaml}

infixl 6 ◌&◌
abbrev pub ◌&◌ : String → String → String
s & t = text_append s t

pub record ValidationError : Type 0 where
  pub path : String
  pub message : String

abbrev pub one : String → String → List ValidationError
one path message = record { path = path; message = message } ∷ []

-- CompositeField of internal/api/catalog/catalog.go
pub record CompositeField : Type 0 where
  pub field : String
  pub kind : String
  pub multi : Bool

-- The fields of a catalog's Component that the validation reads.
pub record Component : Type 0 where
  pub config_schema : String
  pub composite_fields : List CompositeField

-- `byKey` of a Catalog
abbrev pub Catalog : Type 0
Catalog = String → Option Component

-- Catalog.Get
abbrev pub catalog_get : Catalog → String → String → Option Component
catalog_get catalog category name = catalog (category & "/" & name)

-- `compile` is AddResource and Compile of a schema compiler; its result validates an instance.
-- `raw_field` reads a JSON object as a map of raw texts and looks a key up, where an absent key has the
-- empty text; `parse_items` reads an array of objects with a `type` and a raw `config`.
pub record JsonOps : Type 0 where
  pub parse_schema : String → Fallible Value
  pub compile : String → Value → Fallible (Value → Fallible (Unit {0}))
  pub raw_field : String → String → Option String
  pub parse_items : String → Option (List (String × String))
  pub json_marshal : Value → Fallible String

-- `len(raw) == 0 || string(raw) == "null"`
abbrev pub is_blank : String → Bool
is_blank raw = raw == "" || raw == "null"

abbrev pub delete_all : List CompositeField → Fields → Fields
delete_all [] m = m
delete_all (cf ∷ cfs) m = delete_all cfs (if cf.field == "" then m else delete cf.field m)

abbrev pub name_chars : String → Bool
name_chars empty_text = true
name_chars (text_cons c s) = is_name_char (code c) && name_chars s

-- envVarNameRe
unfoldable pub is_env_var_name : String → Bool
is_env_var_name empty_text = false
is_env_var_name (text_cons c s) = is_name_start (code c) && name_chars s

-- the first error of an entry's variable
abbrev pub env_var_errors : String → List String → String → List ValidationError
env_var_errors path seen name =
    if name == ""
    then one (path & ".envVar") "envVar is required"
    else if not (is_env_var_name name)
    then one (path & ".envVar") "envVar must match [A-Za-z_][A-Za-z0-9_]*"
    else if any (λ n. n == name) seen
    then one (path & ".envVar") ("duplicate envVar " & quote name)
    else []

abbrev pub secret_ref_path : ℕ → String
secret_ref_path i = "spec.secretRefs[" & itoa i & "]"

-- the loop of validateSecretRefs, from index `i`, with the variables seen before
unfoldable pub secret_ref_errors : ℕ → List String → List SecretRef → List ValidationError
secret_ref_errors i seen [] = []
secret_ref_errors i seen (r ∷ refs) =
    env_var_errors (secret_ref_path i) seen r.env_var
    ++ ((if r.secret_name == ""
          then one (secret_ref_path i & ".secretName") "secretName is required"
          else [])
        ++ ((if r.key == "" then one (secret_ref_path i & ".key") "key is required" else [])
            ++ secret_ref_errors (suc i) (r.env_var ∷ seen) refs))

-- validateSecretRefs
unfoldable pub validate_secret_refs : List SecretRef → List ValidationError
unfolding secret_ref_errors
validate_secret_refs refs = secret_ref_errors 0 [] refs

-- the path of an item, and the item as a component
abbrev pub item_path : String → CompositeField → ℕ → String
item_path path cf i = (if cf.field == "" then path else path & "." & cf.field) & "[" & itoa i & "]"

abbrev pub item_spec : String → String → ComponentSpec
item_spec type config = record { type = type; label = ""; config = config }

module _ (codec : Codec) (json : JsonOps) (catalog : Catalog) where
  -- stripCompositeFields
  unfoldable pub strip_composite_fields : String → List CompositeField → String
  strip_composite_fields raw fields =
      if is_blank raw then "{}" else elim (codec.json_unmarshal raw) [
        | err e ↦ raw
        | ok v ↦ elim v [
          | obj m ↦ elim (json.json_marshal (obj (delete_all fields m))) [ ok s ↦ s | err e ↦ raw ]
          | null ↦ elim (json.json_marshal null) [ ok s ↦ s | err e ↦ raw ]
          | _ ↦ raw
        ]
      ]

  -- validateConfig
  unfoldable pub validate_config : String → String → String → List ValidationError
  validate_config path raw schema = elim (json.parse_schema schema) [
    | err e ↦ one path ("schema parse: " & e)
    | ok doc ↦ elim (json.compile path doc) [
      | err e ↦ one path ("schema compile: " & e)
      | ok check ↦ elim (json.parse_schema (if is_blank raw then "{}" else raw)) [
        | err e ↦ one path ("config is not valid JSON: " & e)
        | ok instance ↦ elim (check instance) [ err e ↦ one path e | ok _ ↦ [] ]
      ]
    ]
  ]

  -- the errors of a component's own configuration, where a direct array has none
  abbrev pub own_errors : String → String → String → List CompositeField → List ValidationError
  own_errors path raw schema [] = validate_config path raw schema
  own_errors path raw schema (cf ∷ cfs) =
      if is_empty cfs && cf.field == ""
      then []
      else validate_config path (strip_composite_fields raw (cf ∷ cfs)) schema

  -- the items of a composite field, where they can be read
  abbrev pub items_of : String → CompositeField → Option (List (String × String))
  items_of raw cf =
      if cf.field == "" then json.parse_items raw else elim (json.raw_field cf.field raw) [
        | none ↦ none
        | some data_text ↦ json.parse_items data_text
      ]

  -- `nested` validates the component of an item.
  module _ (nested : String → ComponentSpec → String → List ValidationError) where
    -- the inner loop of validateNestedComponents, from index `i`
    abbrev pub item_errors :
        String → CompositeField → ℕ → List (String × String) → List ValidationError
    item_errors path cf i [] = []
    item_errors path cf i ((type, config) ∷ items) =
        nested (item_path path cf i) (item_spec type config) cf.kind
        ++ item_errors path cf (suc i) items

    abbrev pub field_errors : String → String → CompositeField → List ValidationError
    field_errors path raw cf = elim (items_of raw cf) [
      | none ↦ []
      | some items ↦ item_errors path cf 0 items
    ]

    -- validateNestedComponents
    abbrev pub validate_nested_components :
        String → String → List CompositeField → List ValidationError
    validate_nested_components path raw [] = []
    validate_nested_components path raw (cf ∷ cfs) =
        field_errors path raw cf ++ validate_nested_components path raw cfs

    -- what follows a component's entry of the catalog; without composite fields there are no items
    abbrev pub entry_errors : String → String → Component → List ValidationError
    entry_errors path raw comp =
        own_errors (path & ".config") raw comp.config_schema comp.composite_fields
        ++ validate_nested_components (path & ".config") raw comp.composite_fields

    -- validateComponent
    abbrev pub component_errors : String → ComponentSpec → String → List ValidationError
    component_errors path c category =
        if c.type == ""
        then one (path & ".type") "type is required"
        else elim (catalog_get catalog category c.type) [
          | none ↦ one (path & ".type") (
              "unknown "
              & category
              & " component "
              & quote c.type
              & " (catalog covers v0.2 starter set only)")
          | some comp ↦ entry_errors path c.config comp
        ]

  -- The recursion, on fuel.
  unfoldable pub validate_component : ℕ → String → ComponentSpec → String → List ValidationError
  unfolding validate_config strip_composite_fields
  validate_component zero path c category = []
  validate_component (suc fuel) path c category =
      component_errors (validate_component fuel) path c category

  -- the fuel of a component: a nesting takes a character at least
  abbrev pub fuel_for : ComponentSpec → ℕ
  fuel_for c = suc (String.count c.config)

  abbrev pub validate_top : String → ComponentSpec → String → List ValidationError
  validate_top path c category = validate_component (fuel_for c) path c category

  -- the loop over the processors, from index `i`
  unfoldable pub processor_errors : ℕ → List ComponentSpec → List ValidationError
  unfolding validate_component
  processor_errors i [] = []
  processor_errors i (c ∷ cs) =
      validate_top ("spec.processors[" & itoa i & "]") c "processors"
      ++ ((if c.label == ""
            then one ("spec.processors[" & itoa i & "].label") "label is required for processors"
            else [])
          ++ processor_errors (suc i) cs)

  -- whether an input or an output is validated
  abbrev pub is_required : PipelineSpec → ComponentSpec → Bool
  is_required spec c = not (is_some spec.project_ref) || not (c.type == "")

  abbrev pub render_errors : String → String → PipelineSpec → List ValidationError
  render_errors path text spec = elim (render_pipeline_yaml codec spec) [
    | ok _ ↦ []
    | err e ↦ one path (text & e)
  ]

  -- ValidatePipeline
  unfoldable pub validate_pipeline : PipelineSpec → List ValidationError
  unfolding validate_component processor_errors
  validate_pipeline spec =
      if is_some spec.project_ref && not (spec.cluster_ref == "")
      then one "spec.projectRef" "use projectRef or clusterRef, not both"
      else if not (spec.raw_yaml == "")
      then render_errors "spec.rawYAML" "" spec ++ validate_secret_refs spec.secret_refs
      else (if is_required spec spec.input
          then validate_top "spec.input" spec.input "inputs"
          else [])
        ++ (processor_errors 0 spec.processors
            ++ ((if is_required spec spec.output
                  then validate_top "spec.output" spec.output "outputs"
                  else [])
                ++ (validate_secret_refs spec.secret_refs
                    ++ (if is_some spec.project_ref
                        then []
                        else render_errors "spec" "render failed: " spec))))
