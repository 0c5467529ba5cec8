-- ===== src/Render/Composite.antt =====
-- `renderCompositeFields` and its helpers (internal/render/render.go): component specs inside a
-- configuration become `{type: config}`.
use rpc_operator.Prelude.{
  String, Bool, true, false, not, ◌&&◌, ◌||◌, Option, none, some, ◌==◌, if◌then◌else◌,
}
use rpc_operator.Render.Value.{
  Value, null, bool, num, str, arr, obj, Items, nil, cons, Fields, end, field, get,
}

-- `t, ok := m["type"].(string)`
abbrev pub type_name : Fields → Option String
type_name fs = elim (get "type" fs) [ some (str t) ↦ some t | _ ↦ none ]

-- every key is "type", "config" or "label"
unfoldable pub only_spec_keys : Fields → Bool
only_spec_keys end = true
only_spec_keys (field k v fs) = (k == "type" || k == "config" || k == "label") && only_spec_keys fs

unfoldable pub looks_like_component_spec : Fields → Bool
unfolding get only_spec_keys
looks_like_component_spec fs = elim (type_name fs) [
  | none ↦ false
  | some t ↦ not (t == "") && only_spec_keys fs
]

abbrev item_looks_like : Value → Bool
item_looks_like (obj fs) = looks_like_component_spec fs
item_looks_like _ = false

unfoldable pub all_look_like : Items → Bool
all_look_like nil = true
all_look_like (cons v vs) = item_looks_like v && all_look_like vs

unfoldable pub looks_like_component_spec_array : Items → Bool
unfolding all_look_like
looks_like_component_spec_array nil = false
looks_like_component_spec_array (cons v vs) = all_look_like (cons v vs)

-- `{typeName: …}`, from the entries and the same entries rendered; a missing or null config is `{}`
unfoldable pub spec_to_rpc : Fields → Fields → Value
spec_to_rpc fs rendered =
    let name : String = elim (type_name fs) [ some t ↦ t | none ↦ "" ] in
    let config : Value = elim (get "config" fs) [
      | none ↦ obj end
      | some null ↦ obj end
      | some _ ↦ elim (get "config" rendered) [ some v ↦ v | none ↦ obj end ]
    ] in
    obj (field name config end)

unfoldable mutual
  pub render_composite_fields : Value → Value
  render_composite_fields (arr vs) =
      if looks_like_component_spec_array vs then arr (specs_to_rpc vs) else arr (render_items vs)
  render_composite_fields (obj fs) =
      if looks_like_component_spec fs
      then spec_to_rpc fs (render_fields fs)
      else obj (render_fields fs)
  render_composite_fields null = null
  render_composite_fields (bool b) = bool b
  render_composite_fields (num n) = num n
  render_composite_fields (str s) = str s

  pub render_items : Items → Items
  render_items nil = nil
  render_items (cons v vs) = cons (render_composite_fields v) (render_items vs)

  pub render_fields : Fields → Fields
  render_fields end = end
  render_fields (field k v fs) = field k (render_composite_fields v) (render_fields fs)

  -- `componentSpecArrayToRPC`: every element is an object, or the call panics
  pub specs_to_rpc : Items → Items
  specs_to_rpc nil = nil
  specs_to_rpc (cons v vs) = cons (spec_value_to_rpc v) (specs_to_rpc vs)

  -- `componentSpecToRPCMap(item.(map[string]any))`
  pub spec_value_to_rpc : Value → Value
  spec_value_to_rpc (obj fs) = spec_to_rpc fs (render_fields fs)
  spec_value_to_rpc v = v
