-- ===== src/Web/Validate/Tests.antt =====
-- The theorem on components, at a catalog with a composite component.
use Prim.Native.String
use Prim.Native.String.{[] as empty_text, ◌∷◌ as text_cons}
use text.Mathlib.TextLemmas.{length-cons}
use rpc_operator.Prelude.{
  ℕ, zero, suc, ◌<◌, ◌≤◌, false, inl, inr, Text-cases, eq_iff, ◌≡◌, refl, ◌↔◌, String, none, some,
  List, [], ◌∷◌, ◌==◌, if◌then◌else◌, true, get_elem?, arith,
}
use rpc_operator.Prelude.Decimal.{itoa}
use rpc_operator.Fallible.{ok}
use rpc_operator.Api.{ComponentSpec}
use rpc_operator.Render.Value.{str}
use rpc_operator.Render.Document.{Codec}
use rpc_operator.Web.Validate.{
  JsonOps, Catalog, validate_component, validate_secret_refs, is_env_var_name,
}
use rpc_operator.Web.Validate.Components.{Shrinks, AllEntries, validate_component-AllEntries}

abbrev codec : Codec
codec = record {
  yaml_marshal = λ v. ok "yaml";
  yaml_unmarshal = λ text. ok (str text);
  json_unmarshal = λ text. ok (str text);
}

-- Arrays hold one item without a configuration, and every schema takes all.
abbrev json : JsonOps
json = record {
  parse_schema = λ text. ok (str text);
  compile = λ path doc. ok (λ v. ok tt);
  raw_field = λ field raw. none;
  parse_items = λ raw. if raw == "" then none else some (("stdin", "") ∷ []);
  json_marshal = λ v. ok "";
}

abbrev catalog : Catalog
catalog key =
    if key == "inputs/stdin"
    then some (record { config_schema = "{}"; composite_fields = [] })
    else if key == "inputs/broker"
    then some (record {
      config_schema = "{}";
      composite_fields = record { field = ""; kind = "inputs"; multi = true } ∷ [];
    })
    else none

abbrev broker : ComponentSpec
broker = record { type = "broker"; label = ""; config = "[x]" }

accepted : validate_component codec json catalog 4 "spec.input" broker "inputs" ≡ []
unfolding validate_component
accepted = refl

no_secret :
    (validate_secret_refs (record { env_var = "1A"; secret_name = "s"; key = "k" } ∷ []))
    ≡ record {
      path = "spec.secretRefs[0].envVar";
      message = "envVar must match [A-Za-z_][A-Za-z0-9_]*";
    }
      ∷ []
unfolding validate_secret_refs is_env_var_name itoa
no_secret = refl

count-positive : (s : String) → (s == "") ≡ false → 1 ≤ String.count s
count-positive empty_text e = cc e
count-positive (text_cons c s) e = grind (arith, length-cons c s)

one_item :
    (raw : String) (items : List (String × String)) (i : ℕ) (type config : String)
    → json.parse_items raw ≡ some items
    → get_elem? items i ≡ some (type, config)
    → String.count config < String.count raw
one_item raw items i type config e g = elim (Text-cases raw "") [
  | inl blank ↦ cc (rw ((eq_iff raw "").1 blank) at e)
  | inr given ↦ of_first i given (rw given at e) g
]
  where
    of_first :
        (i : ℕ)
        → (raw == "") ≡ false
        → some (("stdin", "") ∷ []) ≡ some items
        → get_elem? items i ≡ some (type, config)
        → String.count config < String.count raw
    of_first zero given same g =
        let empty : "" ≡ config = cc (same, g) in rw (← empty) (count-positive raw given)
    of_first (suc i) given same g = cc (same, g)

json-Shrinks : Shrinks json
json-Shrinks = record { field_within = λ field raw part e. cc e; item_within = one_item }

validate_component-AllEntries_example :
    (validate_component codec json catalog 4 "spec.input" broker "inputs" ≡ [])
    ↔ AllEntries codec json catalog "spec.input" broker "inputs"
validate_component-AllEntries_example =
    validate_component-AllEntries codec json catalog json-Shrinks 4 "spec.input" broker "inputs"
      (omega arith)
