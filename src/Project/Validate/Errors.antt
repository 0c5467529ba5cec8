-- ===== src/Project/Validate/Errors.antt =====
-- Where the checks of names, routes and views in `ValidateProject` find no violation.
use rpc_operator.Prelude.{
  ℕ, ◌+◌, String, ◌≡◌, ◌↔◌, ◌⊎◌, inl, inr, refl, sym, Bool, true, false, ◌&&◌, Option, none, List,
  [], ◌∷◌, ◌++◌, Memᴰ, All, any, ◌==◌, if◌then◌else◌, Bool-cases, Option-cases, Text-cases, eq_iff,
  arith,
}
use rpc_operator.Project.Types.{RouteTarget, ProjectRoute, Project}
use rpc_operator.Project.Plan.{is_producer, is_consumer}
use rpc_operator.Project.Validate.{
  PipelineView, Pipelines, view_of, in_project, outside, duplicate_errors, predicate_mapping,
  predicate_errors, target_errors, targets_errors, route_error, io_conflicts, route_errors,
  view_errors, io_errors,
}
use rpc_operator.Project.Validate.Valid.{AreDistinct, InProject, IsTarget, IsRoute, IsView}

append-nil {ℓ} : {A : Type ℓ} (xs ys : List A) → (xs ++ ys ≡ []) ↔ ((xs ≡ []) × (ys ≡ []))
append-nil [] ys = (λ e. (refl, e), λ p. p.1)
append-nil (x ∷ xs) ys = (λ e. cc e, λ p. cc (p.0))

one_if-nil {ℓ} : {A : Type ℓ} (b : Bool) (e : A) → ((if b then e ∷ [] else []) ≡ []) ↔ (b ≡ false)
one_if-nil true e = (λ h. cc h, λ h. cc h)
one_if-nil false e = (λ h. refl, λ h. refl)

pub both-nil {ℓ κ μ} :
    {A : Type ℓ} {P : Type κ} {Q : Type μ} {xs ys : List A}
    → ((xs ≡ []) ↔ P)
    → ((ys ≡ []) ↔ Q)
    → (xs ++ ys ≡ []) ↔ (P × Q)
both-nil {xs = xs} {ys = ys} p q = (
  λ e. let h = (append-nil xs ys).0 e in (p.0 h.0, q.0 h.1),
  λ k. (append-nil xs ys).1 (p.1 k.0, q.1 k.1),
)

pub gate-nil {ℓ κ} :
    {A : Type ℓ} {P : Type κ} (e : A) (b : Bool)
    → ((b ≡ false) ↔ P)
    → ((if b then e ∷ [] else []) ≡ []) ↔ P
gate-nil e b p = (λ h. p.0 ((one_if-nil b e).0 h), λ k. (one_if-nil b e).1 (p.1 k))

any_name-Memᴰ :
    (name : String) (seen : List String) → any (λ n. n == name) seen ≡ true → Memᴰ name seen
any_name-Memᴰ name [] e = cc e
any_name-Memᴰ name (x ∷ seen) e = elim (Text-cases x name) [
  | inl same ↦ Memᴰ.head (sym same)
  | inr other ↦ Memᴰ.tail (any_name-Memᴰ name seen (ground arith))
]

Memᴰ-any_name :
    (name : String) (seen : List String) → Memᴰ name seen → any (λ n. n == name) seen ≡ true
Memᴰ-any_name name [] m = elim m [ ]
Memᴰ-any_name name (x ∷ seen) (Memᴰ.head e) = ground (arith, eq_iff x name)
Memᴰ-any_name name (x ∷ seen) (Memᴰ.tail m) = let rest = Memᴰ-any_name name seen m in ground arith

pub duplicate_errors-nil :
    (seen : List String) (routes : List ProjectRoute)
    → (duplicate_errors seen routes ≡ []) ↔ AreDistinct seen routes
unfolding duplicate_errors
duplicate_errors-nil seen [] = (λ e. tt, λ d. refl)
duplicate_errors-nil seen (r ∷ rs) = elim (Bool-cases (any (λ n. n == r.name) seen)) [
  | inl hit ↦
      rw (hit, duplicate_errors) (λ e. cc e, λ d. absurd (d.0 (any_name-Memᴰ r.name seen hit)))
  | inr new ↦
      rw (new, duplicate_errors)
        (
          λ e. (
            λ m. cc (new, Memᴰ-any_name r.name seen m),
            (duplicate_errors-nil (r.name ∷ seen) rs).0 e,
          ),
          λ d. (duplicate_errors-nil (r.name ∷ seen) rs).1 d.1,
        )
]

module _ (parse : String → Option String) (project : Project) (pipelines : Pipelines) where
  outside-InProject :
      (name : String)
      → (outside parse project pipelines name ≡ false) ↔ InProject parse project pipelines name
  unfolding in_project
  outside-InProject name = elim (Text-cases name "") [
    | inl e ↦ (λ h. ground (arith, eq_iff name ""), λ k. absurd (k.0 e))
    | inr e ↦ elim (Option-cases (view_of name pipelines)) [
      | inl n ↦ rw (e, n, in_project) (λ h. cc h, λ k. cc (k.2))
      | inr (pv, s) ↦
          rw (e, s, in_project)
            (
              λ h. (
                λ same. ground (arith, eq_iff name ""),
                pv,
                refl,
                ground (arith, eq_iff pv.project_name project.name),
              ),
              λ k.
                  let same : pv ≡ k.1 = cc (k.2) in
                  let named : pv.project_name ≡ project.name = rw same (k.3) in
                  ground (arith, eq_iff pv.project_name project.name),
            )
    ]
  ]

  predicate_errors-nil :
      (r : ProjectRoute) (j : ℕ) (t : RouteTarget)
      → (predicate_errors parse project pipelines r j t ≡ [])
        ↔ ((t.when ≡ "") ⊎ (parse (predicate_mapping t.when) ≡ none))
  unfolding predicate_errors
  predicate_errors-nil r j t = elim (Text-cases t.when "") [
    | inl e ↦ rw ((eq_iff t.when "").1 e, predicate_errors) (λ h. inl e, λ h. refl)
    | inr e ↦ elim (Option-cases (parse (predicate_mapping t.when))) [
      | inl n ↦ rw (e, n, predicate_errors) (λ h. inr refl, λ h. refl)
      | inr (text, s) ↦
          rw (e, s, predicate_errors)
            (λ h. cc h, λ h. elim h [ inl k ↦ ground (arith, eq_iff t.when "") | inr k ↦ cc k ])
    ]
  ]

  target_errors-nil :
      (r : ProjectRoute) (j : ℕ) (t : RouteTarget)
      → (target_errors parse project pipelines r j t ≡ []) ↔ IsTarget parse project pipelines t
  unfolding target_errors
  target_errors-nil r j t =
      both-nil
        (gate-nil _ (outside parse project pipelines t.pipeline) (outside-InProject t.pipeline))
        (predicate_errors-nil r j t)

  targets_errors-nil :
      (r : ProjectRoute) (j : ℕ) (ts : List RouteTarget)
      → (targets_errors parse project pipelines r j ts ≡ [])
        ↔ All (IsTarget parse project pipelines) ts
  unfolding targets_errors
  targets_errors-nil r j [] = (λ e. tt, λ a. refl)
  targets_errors-nil r j (t ∷ ts) =
      both-nil (target_errors-nil r j t) (targets_errors-nil r (j + 1) ts)

  route_error-nil :
      (r : ProjectRoute)
      → (route_error parse project pipelines r ≡ []) ↔ IsRoute parse project pipelines r
  unfolding route_error
  route_error-nil r =
      both-nil (gate-nil _ (outside parse project pipelines r.from) (outside-InProject r.from))
        (targets_errors-nil r 0 r.to)

  pub route_errors-nil :
      (routes : List ProjectRoute)
      → (route_errors parse project pipelines routes ≡ [])
        ↔ All (IsRoute parse project pipelines) routes
  unfolding route_errors
  route_errors-nil [] = (λ e. tt, λ a. refl)
  route_errors-nil (r ∷ rs) = both-nil (route_error-nil r) (route_errors-nil rs)

  -- a fault where both tests hold
  and_false : (a b : Bool) → ((a && b) ≡ false) ↔ (a ≡ true → b ≡ false)
  and_false true b = (λ e h. e, λ f. f refl)
  and_false false b = (λ e h. cc h, λ f. refl)

  io_conflicts-nil :
      (name : String) (pv : PipelineView)
      → (io_conflicts parse project pipelines name pv ≡ []) ↔ (
          (is_producer project.spec.routes name ≡ true → pv.has_output ≡ false)
          × (is_consumer project.spec.routes name ≡ true → pv.has_input ≡ false))
  unfolding io_conflicts
  io_conflicts-nil name pv =
      both-nil
        (gate-nil _ (is_producer project.spec.routes name && pv.has_output)
          (and_false (is_producer project.spec.routes name) pv.has_output))
        (gate-nil _ (is_consumer project.spec.routes name && pv.has_input)
          (and_false (is_consumer project.spec.routes name) pv.has_input))

  view_errors-nil :
      (name : String) (pv : PipelineView)
      → (view_errors parse project pipelines name pv ≡ [])
        ↔ IsView parse project pipelines (name, pv)
  unfolding view_errors
  view_errors-nil name pv = elim (Text-cases pv.project_name project.name) [
    | inl same ↦
        rw ((eq_iff pv.project_name project.name).1 same, view_errors)
          (λ e k. (io_conflicts-nil name pv).0 e, λ f. (io_conflicts-nil name pv).1 (f same))
    | inr other ↦
        rw (other, view_errors)
          (λ e k. ground (arith, eq_iff pv.project_name project.name), λ f. refl)
  ]

  pub io_errors-nil :
      (views : Pipelines)
      → (io_errors parse project pipelines views ≡ []) ↔ All (IsView parse project pipelines) views
  unfolding io_errors
  io_errors-nil [] = (λ e. tt, λ a. refl)
  io_errors-nil ((name, pv) ∷ rest) = both-nil (view_errors-nil name pv) (io_errors-nil rest)
