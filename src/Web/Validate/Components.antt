-- ===== src/Web/Validate/Components.antt =====
-- Which components are valid: those in which every component that occurs, at any depth, is of the
-- catalog and has a configuration that conforms to its schema (validateComponent of
-- internal/api/validate.go).
use Prim.Native.String
use rpc_operator.Prelude.{
  ℕ, zero, suc, ◌<◌, ◌≤◌, String, ◌≡◌, ◌≢◌, refl, sym, ◌∙◌, subst, ◌↔◌, ◌⊎◌, inl, inr, false, ◌&&◌,
  some, List, [], ◌∷◌, Memᴰ, get_elem?, is_empty, arith, eq_iff, ◌==◌, if◌then◌else◌, Bool-cases,
  Option-cases, Text-cases, text_eq-false,
}
use rpc_operator.Fallible.{Fallible, ok, err}
use rpc_operator.Api.{ComponentSpec}
use rpc_operator.Render.Value.{Value}
use rpc_operator.Render.Document.{Codec}
use rpc_operator.Web.Validate.{
  ◌&◌, ValidationError, CompositeField, Component, JsonOps, Catalog, catalog_get, items_of,
  item_path, item_spec, is_blank, strip_composite_fields, validate_config, own_errors,
  component_errors, validate_component, validate_nested_components,
}
use rpc_operator.Web.Validate.Parts.{append_nil_iff, ItemsFit, validate_nested_components_iff}

-- The items of an array, and a field of an object, are parts of their text.
pub record Shrinks (json : JsonOps) : Type 0 where
  pub field_within :
      (field raw part : String)
      → json.raw_field field raw ≡ some part
      → String.count part ≤ String.count raw
  pub item_within :
      (raw : String) (items : List (String × String)) (i : ℕ) (type config : String)
      → json.parse_items raw ≡ some items
      → get_elem? items i ≡ some (type, config)
      → String.count config < String.count raw

some-injective : {A : Type 0} {a b : A} → some a ≡ some b → a ≡ b
some-injective e = cc e

Fallible-cases :
    {A : Type 0} (r : Fallible A) → ((e : String) × (r ≡ err e)) ⊎ ((a : A) × (r ≡ ok a))
Fallible-cases (ok a) = inr (a, refl)
Fallible-cases (err e) = inl (e, refl)

module _ (codec : Codec) (json : JsonOps) (catalog : Catalog) where
  -- A configuration conforms to a schema.
  abbrev pub Conforms : String → String → String → Type 0
  Conforms path raw schema =
      (doc : Value) × (check : Value → Fallible (Unit {0})) × (instance_value : Value)
      × (json.parse_schema schema ≡ ok doc)
      × (json.compile path doc ≡ ok check)
      × (json.parse_schema (if is_blank raw then "{}" else raw) ≡ ok instance_value)
      × (check instance_value ≡ ok tt)

  -- What is checked of a component's own configuration: nothing if it is an array of components, and
  -- else all but the fields that hold components.
  abbrev pub OwnFits : String → String → String → List CompositeField → Type 0
  OwnFits path raw schema [] = Conforms path raw schema
  OwnFits path raw schema (cf ∷ cfs) =
      (is_empty cfs && cf.field == "") ≡ false
      → Conforms path (strip_composite_fields codec json catalog raw (cf ∷ cfs)) schema

  -- A component of the catalog, with a configuration of its own that conforms.
  abbrev pub IsEntry : String → ComponentSpec → String → Type 0
  IsEntry path c category =
      (c.type ≢ "")
      × (comp : Component) × (catalog_get catalog category c.type ≡ some comp)
      × OwnFits (path & ".config") c.config comp.config_schema comp.composite_fields

  -- A component occurs in another one, at any depth: it is that, or it occurs in an item of it.
  pub data Occurs (q : String) (d : ComponentSpec) (l : String)
      : String → ComponentSpec → String → Type 0 where
    itself :
        {p : String} {c : ComponentSpec} {k : String} → p ≡ q → c ≡ d → k ≡ l → Occurs q d l p c k
    inside :
        {p : String} {c : ComponentSpec} {k : String} (comp : Component) (cf : CompositeField)
        (items : List (String × String)) (i : ℕ) (type config : String)
        → catalog_get catalog k c.type ≡ some comp
        → Memᴰ cf comp.composite_fields
        → items_of codec json catalog c.config cf ≡ some items
        → get_elem? items i ≡ some (type, config)
        → Occurs q d l (item_path (p & ".config") cf i) (item_spec type config) cf.kind
        → Occurs q d l p c k

  validate_config_iff :
      (path raw schema : String)
      → (validate_config codec json catalog path raw schema ≡ []) ↔ Conforms path raw schema
  unfolding validate_config
  validate_config_iff path raw schema = (
    λ e. elim (Fallible-cases (json.parse_schema schema)) [
      | inl (t, p) ↦ cc (rw (p, validate_config) at e)
      | inr (doc, p) ↦ elim (Fallible-cases (json.compile path doc)) [
        | inl (t, q) ↦ cc (rw (p, q, validate_config) at e)
        | inr (check, q) ↦
            elim (Fallible-cases (json.parse_schema (if is_blank raw then "{}" else raw))) [
              | inl (t, r) ↦ cc (rw (p, q, r, validate_config) at e)
              | inr (v, r) ↦ elim (Fallible-cases (check v)) [
                | inl (t, f) ↦ cc (rw (p, q, r, f, validate_config) at e)
                | inr (u, f) ↦ (doc, check, v, p, q, r, f)
              ]
            ]
      ]
    ],
    λ (doc, check, v, p, q, r, f). rw (p, q, r, f, validate_config) refl,
  )

  own_errors_iff :
      (path raw schema : String) (cfs : List CompositeField)
      → (own_errors codec json catalog path raw schema cfs ≡ []) ↔ OwnFits path raw schema cfs
  own_errors_iff path raw schema [] = validate_config_iff path raw schema
  own_errors_iff path raw schema (cf ∷ cfs) = elim (Bool-cases (is_empty cfs && cf.field == "")) [
    | inl direct ↦ (λ e other. cc (direct, other), λ k. rw direct refl)
    | inr other ↦ rw other (
      (λ e _.
          (validate_config_iff path (strip_composite_fields codec json catalog raw (cf ∷ cfs))
              schema).0
            e),
      λ k.
          (validate_config_iff path (strip_composite_fields codec json catalog raw (cf ∷ cfs))
              schema).1
            (k refl),
    )
  ]

  module _ (nested : String → ComponentSpec → String → List ValidationError) where
    -- every item of a component is valid
    abbrev pub ItemsOf : String → ComponentSpec → Component → Type 0
    ItemsOf path c comp =
        (cf : CompositeField)
        → Memᴰ cf comp.composite_fields
        → ItemsFit codec json catalog nested (path & ".config") c.config cf

    -- a component of the catalog with its items
    abbrev pub IsNode : String → ComponentSpec → String → Type 0
    IsNode path c category =
        (c.type ≢ "")
        × (comp : Component) × (catalog_get catalog category c.type ≡ some comp)
        × OwnFits (path & ".config") c.config comp.config_schema comp.composite_fields
        × ItemsOf path c comp

    component_errors_iff :
        (path : String) (c : ComponentSpec) (category : String)
        → (component_errors codec json catalog nested path c category ≡ []) ↔ IsNode path c category
    component_errors_iff path c category = (
      λ e. elim (Text-cases c.type "") [
        | inl none_given ↦ cc (rw ((eq_iff c.type "").1 none_given, component_errors) at e)
        | inr given ↦ elim (Option-cases (catalog_get catalog category c.type)) [
          | inl unknown ↦ cc (rw (given, unknown, component_errors) at e)
          | inr (comp, known) ↦
              let both =
                (append_nil_iff
                    (own_errors codec json catalog (path & ".config") c.config comp.config_schema
                      comp.composite_fields)
                    (validate_nested_components codec json catalog nested (path & ".config")
                      c.config comp.composite_fields)).0
                  (rw (given, known, component_errors) at e) in
              (
                (λ same. cc ((eq_iff c.type "").1 same, given)),
                comp,
                known,
                (own_errors_iff (path & ".config") c.config comp.config_schema
                      comp.composite_fields).0
                    both.0,
                (validate_nested_components_iff codec json catalog nested (path & ".config")
                      c.config comp.composite_fields).0
                    both.1,
              )
        ]
      ],
      λ (typed, comp, known, own, items).
          rw (text_eq-false c.type "" typed, known, component_errors)
            ((append_nil_iff
                (own_errors codec json catalog (path & ".config") c.config comp.config_schema
                  comp.composite_fields)
                (validate_nested_components codec json catalog nested (path & ".config") c.config
                  comp.composite_fields)).1
              (
                (own_errors_iff (path & ".config") c.config comp.config_schema
                      comp.composite_fields).1
                    own,
                (validate_nested_components_iff codec json catalog nested (path & ".config")
                      c.config comp.composite_fields).1
                    items,
              )),
    )

  items_of-within :
      Shrinks json
      → (raw : String) (cf : CompositeField) (items : List (String × String)) (i : ℕ)
        (type config : String)
      → items_of codec json catalog raw cf ≡ some items
      → get_elem? items i ≡ some (type, config)
      → String.count config < String.count raw
  items_of-within shrinks raw cf items i type config e g = elim (Bool-cases (cf.field == "")) [
    | inl direct ↦ shrinks.item_within raw items i type config (rw direct at e) g
    | inr named ↦ elim (Option-cases (json.raw_field cf.field raw)) [
      | inl missing ↦ cc (rw (named, missing, items_of) at e)
      | inr (part, found) ↦
          let less : String.count config < String.count part =
            shrinks.item_within part items i type config (rw (named, found, items_of) at e) g in
          let within : String.count part ≤ String.count raw =
            shrinks.field_within cf.field raw part found in
          omega (arith, less, within)
    ]
  ]

  -- everything that occurs in a component is of the catalog and conforms
  abbrev pub AllEntries : String → ComponentSpec → String → Type 0
  AllEntries path c category =
      (q : String) (d : ComponentSpec) (l : String) → Occurs q d l path c category → IsEntry q d l

  module _ (shrinks : Shrinks json) where
    module _ (nested : String → ComponentSpec → String → List ValidationError) where
      IsNode-AllEntries :
          (path : String) (c : ComponentSpec) (category : String)
          → ((p : String) (c' : ComponentSpec) (k : String)
              → String.count c'.config < String.count c.config
              → nested p c' k ≡ []
              → AllEntries p c' k)
          → IsNode nested path c category
          → AllEntries path c category
      IsNode-AllEntries path c category deeper (typed, comp, known, own, items) q d l
            (itself p_q c_d k_l) =
          subst (λ (x : String). IsEntry q d x) k_l
            (subst (λ (x : ComponentSpec). IsEntry q x category) c_d
              (subst (λ (x : String). IsEntry x c category) p_q (typed, comp, known, own)))
      IsNode-AllEntries path c category deeper (typed, comp, known, own, items) q d l
            (inside comp' cf its i type config known' m e g o) =
          deeper (item_path (path & ".config") cf i) (item_spec type config) cf.kind
            (items_of-within shrinks c.config cf its i type config e g)
            (items cf
              (subst (λ (x : Component). Memᴰ cf x.composite_fields)
                (some-injective (sym known' ∙ known)) m)
              its i type config e g)
            q d l o

      AllEntries-IsNode :
          (path : String) (c : ComponentSpec) (category : String)
          → ((p : String) (c' : ComponentSpec) (k : String)
              → String.count c'.config < String.count c.config
              → AllEntries p c' k
              → nested p c' k ≡ [])
          → AllEntries path c category
          → IsNode nested path c category
      AllEntries-IsNode path c category deeper entries =
          let (typed, comp, known, own) = entries path c category (itself refl refl refl) in
          (
            typed,
            comp,
            known,
            own,
            λ cf m its i type config e g.
                deeper (item_path (path & ".config") cf i) (item_spec type config) cf.kind
                  (items_of-within shrinks c.config cf its i type config e g)
                  (λ q d l o. entries q d l (inside comp cf its i type config known m e g o)),
          )

    -- With fuel enough, a component has no errors exactly where every component that occurs in it, at any
    -- depth and itself included, is of the catalog and has a configuration of its own that conforms.
    pub validate_component-AllEntries :
        (fuel : ℕ) (path : String) (c : ComponentSpec) (category : String)
        → String.count c.config < fuel
        → (validate_component codec json catalog fuel path c category ≡ [])
          ↔ AllEntries path c category
    unfolding validate_component
    validate_component-AllEntries zero path c category h = ground arith
    validate_component-AllEntries (suc fuel) path c category h =
        let nested = validate_component codec json catalog fuel in
        let steps = component_errors_iff nested path c category in
        (
          (λ e.
              IsNode-AllEntries nested path c category
                (λ p c' k less f.
                  (validate_component-AllEntries fuel p c' k (omega (arith, less, h))).0 f)
                (steps.0 e)),
          λ entries. steps.1 (
              AllEntries-IsNode nested path c category
                (λ p c' k less f.
                  (validate_component-AllEntries fuel p c' k (omega (arith, less, h))).1 f)
                entries),
        )
