-- ===== src/Web/Validate/Parts.antt =====
-- The errors of a list of parts (the loops of internal/api/validate.go).
use native.Mathlib.Nat.{zero-add}
use rpc_operator.Prelude.{
  ℕ, zero, suc, ◌+◌, String, ◌≡◌, refl, sym, ◌∙◌, subst, ◌↔◌, some, List, [], ◌∷◌, ◌++◌, Memᴰ,
  get_elem?, arith, Option-cases, inl, inr,
}
use rpc_operator.Api.{ComponentSpec}
use rpc_operator.Render.Document.{Codec}
use rpc_operator.Web.Validate.{
  ValidationError, CompositeField, JsonOps, Catalog, items_of, item_path, item_spec, item_errors,
  field_errors, validate_nested_components,
}

pub append_nil_iff : {A : Type 0} (xs ys : List A) → (xs ++ ys ≡ []) ↔ ((xs ≡ []) × (ys ≡ []))
append_nil_iff [] ys = (λ e. (refl, e), λ (e, e'). e')
append_nil_iff (x ∷ xs) ys = (λ e. cc, λ (e, e'). cc)

module _ (codec : Codec) (json : JsonOps) (catalog : Catalog)
    (nested : String → ComponentSpec → String → List ValidationError) where
  -- every item of a composite field has no errors
  abbrev pub ItemsFit : String → String → CompositeField → Type 0
  ItemsFit path raw cf =
      (items : List (String × String)) (i : ℕ) (type config : String)
      → items_of codec json catalog raw cf ≡ some items
      → get_elem? items i ≡ some (type, config)
      → nested (item_path path cf i) (item_spec type config) cf.kind ≡ []

  item_errors-fit :
      (path : String) (cf : CompositeField) (i : ℕ) (items : List (String × String))
      → item_errors codec json catalog nested path cf i items ≡ []
      → (j : ℕ) (type config : String) → get_elem? items j ≡ some (type, config)
      → nested (item_path path cf (i + j)) (item_spec type config) cf.kind ≡ []
  item_errors-fit path cf i [] e j type config g = cc
  item_errors-fit path cf i ((t, c) ∷ items) e zero type config g =
      let both =
        (append_nil_iff (nested (item_path path cf i) (item_spec t c) cf.kind)
            (item_errors codec json catalog nested path cf (suc i) items)).0
          e in
      let still : i + 0 ≡ i = omega arith in cc (g, still, both.0)
  item_errors-fit path cf i ((t, c) ∷ items) e (suc j) type config g =
      let both =
        (append_nil_iff (nested (item_path path cf i) (item_spec t c) cf.kind)
            (item_errors codec json catalog nested path cf (suc i) items)).0
          e in
      let next : suc i + j ≡ i + suc j = omega arith in
      rw (← next) (item_errors-fit path cf (suc i) items both.1 j type config g)

  fit-item_errors :
      (path : String) (cf : CompositeField) (i : ℕ) (items : List (String × String))
      → ((j : ℕ) (type config : String)
          → get_elem? items j ≡ some (type, config)
          → nested (item_path path cf (i + j)) (item_spec type config) cf.kind ≡ [])
      → item_errors codec json catalog nested path cf i items ≡ []
  fit-item_errors path cf i [] k = refl
  fit-item_errors path cf i ((t, c) ∷ items) k =
      let still : i + 0 ≡ i = omega arith in
      (append_nil_iff (nested (item_path path cf i) (item_spec t c) cf.kind)
          (item_errors codec json catalog nested path cf (suc i) items)).1
        (
          rw still at (k 0 t c refl),
          fit-item_errors path cf (suc i) items (λ j type config g.
              let next : i + suc j ≡ suc i + j = omega arith in
              rw next at (k (suc j) type config g)),
        )

  field_errors_iff :
      (path raw : String) (cf : CompositeField)
      → (field_errors codec json catalog nested path raw cf ≡ []) ↔ ItemsFit path raw cf
  field_errors_iff path raw cf = elim (Option-cases (items_of codec json catalog raw cf)) [
    | inl e ↦ (λ f items i type config s g. cc (e, s), λ k. rw (e, field_errors) refl)
    | inr (items', e) ↦ (
      λ f items i type config s g.
          let same : some items' ≡ some items = sym e ∙ s in
          rw (zero-add i) at (
            item_errors-fit path cf 0 items' (rw (e, field_errors) at f) i type config
              (cc (same, g))),
      λ k.
          rw (e, field_errors)
            (fit-item_errors path cf 0 items'
              (λ j type config g. rw (sym (zero-add j)) at (k items' j type config e g))),
    )
  ]

  pub validate_nested_components_iff :
      (path raw : String) (cfs : List CompositeField)
      → (validate_nested_components codec json catalog nested path raw cfs ≡ [])
        ↔ ((cf : CompositeField) → Memᴰ cf cfs → ItemsFit path raw cf)
  validate_nested_components_iff path raw [] = (λ e cf m. elim m [ ], λ k. refl)
  validate_nested_components_iff path raw (cf ∷ cfs) = (
    forth (validate_nested_components_iff path raw cfs).0,
    λ k.
        (append_nil_iff (field_errors codec json catalog nested path raw cf)
            (validate_nested_components codec json catalog nested path raw cfs)).1
          (
            (field_errors_iff path raw cf).1 (k cf (Memᴰ.head refl)),
            (validate_nested_components_iff path raw cfs).1 (λ cf' m. k cf' (Memᴰ.tail m)),
          ),
  )
    where
      both :
          validate_nested_components codec json catalog nested path raw (cf ∷ cfs) ≡ []
          → (field_errors codec json catalog nested path raw cf ≡ [])
            × (validate_nested_components codec json catalog nested path raw cfs ≡ [])
      both e =
          (append_nil_iff (field_errors codec json catalog nested path raw cf)
              (validate_nested_components codec json catalog nested path raw cfs)).0
            e

      forth :
          (validate_nested_components codec json catalog nested path raw cfs ≡ []
            → (cf' : CompositeField) → Memᴰ cf' cfs
            → ItemsFit path raw cf')
          → validate_nested_components codec json catalog nested path raw (cf ∷ cfs) ≡ []
          → (cf' : CompositeField) → Memᴰ cf' (cf ∷ cfs)
          → ItemsFit path raw cf'
      forth rest e cf' (Memᴰ.head same) =
          subst (ItemsFit path raw) (sym same) ((field_errors_iff path raw cf).0 (both e).0)
      forth rest e cf' (Memᴰ.tail m) = rest (both e).1 cf' m
