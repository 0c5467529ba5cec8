-- ===== src/Project/Validate/Messages.antt =====
-- Every violation that `ValidateProject` of internal/projectroute/projectroute.go reports has a text, so
-- that a first text that is empty means that there is none.
use Prim.Native.String
use Prim.Native.String.{[], ◌∷◌}
use text.Mathlib.TextLemmas.{cons-append, cons≢nil}
use rpc_operator.Prelude.{
  ℕ, ◌+◌, String, ◌≡◌, ◌≢◌, refl, Bool, true, false, ◌&&◌, Option, none, some, List, [], ◌∷◌, All,
  All-append, All-Memᴰ, All-of_Memᴰ, any, ◌==◌, if◌then◌else◌, eq_iff,
}
use rpc_operator.Prelude.Sorting.{sort-Memᴰ, text_le}
use rpc_operator.Project.Types.{RouteTarget, ProjectRoute, CacheResource, Project}
use rpc_operator.Project.Plan.{is_producer, is_consumer}
use rpc_operator.Project.Cycle.Search.{Outcome, found, clear, out_of_fuel, find_cycle}
use rpc_operator.Project.Validate.{
  ProjectError, project_error, PipelineView, Pipelines, duplicate_errors, predicate_errors,
  target_errors, targets_errors, route_error, route_errors, io_conflicts, view_errors, io_errors,
  cycle_errors, cache_error, cache_errors, all_errors, validate_project, predicate_mapping,
  target_label,
}

abbrev pub Speaks : ProjectError → Type 0
Speaks e = e.message ≢ ""

append_nonempty : (s t : String) → s ≢ "" → String.◌++◌ s t ≢ ""
append_nonempty [] t n e = n refl
append_nonempty (c ∷ s) t n e = cons≢nil (rw cons-append at e)

literal_nonempty : (s : String) → (s == "") ≡ false → s ≢ ""
literal_nonempty s f e = cc ((eq_iff s "").1 e, f)

All-when : (b : Bool) (e : ProjectError) → Speaks e → All Speaks (if b then e ∷ [] else [])
All-when true e s = (s, tt)
All-when false e s = tt

duplicate_errors-Speaks :
    (seen : List String) (rs : List ProjectRoute) → All Speaks (duplicate_errors seen rs)
unfolding duplicate_errors
duplicate_errors-Speaks seen [] = tt
duplicate_errors-Speaks seen (r ∷ rs) =
    only (any (λ n. n == r.name) seen) _ _
      (append_nonempty "route name " _ (literal_nonempty "route name " refl))
      (duplicate_errors-Speaks (r.name ∷ seen) rs)
  where
    only :
        (b : Bool) (e : ProjectError) (es : List ProjectError)
        → Speaks e
        → All Speaks es
        → All Speaks (if b then e ∷ es else es)
    only true e es s k = (s, k)
    only false e es s k = k

label_nonempty : (x y : String) → String.◌++◌ (String.◌++◌ "route '" x) y ≢ ""
label_nonempty x y =
    append_nonempty _ y (append_nonempty "route '" x (literal_nonempty "route '" refl))

module _ (parse : String → Option String) (project : Project) (pipelines : Pipelines) where
  predicate_errors-Speaks :
      (r : ProjectRoute) (j : ℕ) (t : RouteTarget)
      → All Speaks (predicate_errors parse project pipelines r j t)
  unfolding predicate_errors
  predicate_errors-Speaks r j t = by_when (t.when == "") (parse (predicate_mapping t.when))
    where
      by_when :
          (b : Bool) (o : Option String)
          → All Speaks (
              if b then [] else elim o [
                | none ↦ []
                | some text ↦
                    record {
                      route = r.name;
                      message = String.◌++◌ (target_label r j) (String.◌++◌ ".when: " text);
                    }
                    ∷ []
              ])
      by_when true o = tt
      by_when false none = tt
      by_when false (some text) = (label_nonempty _ _, tt)

  target_errors-Speaks :
      (r : ProjectRoute) (j : ℕ) (t : RouteTarget)
      → All Speaks (target_errors parse project pipelines r j t)
  unfolding target_errors
  target_errors-Speaks r j t =
      All-append Speaks _ _ (All-when _ _ (label_nonempty _ _)) (predicate_errors-Speaks r j t)

  targets_errors-Speaks :
      (r : ProjectRoute) (j : ℕ) (ts : List RouteTarget)
      → All Speaks (targets_errors parse project pipelines r j ts)
  unfolding targets_errors
  targets_errors-Speaks r j [] = tt
  targets_errors-Speaks r j (t ∷ ts) =
      All-append Speaks _ _ (target_errors-Speaks r j t) (targets_errors-Speaks r (j + 1) ts)

  route_errors-Speaks :
      (rs : List ProjectRoute) → All Speaks (route_errors parse project pipelines rs)
  unfolding route_errors route_error
  route_errors-Speaks [] = tt
  route_errors-Speaks (r ∷ rs) =
      All-append Speaks _ _
        (All-append Speaks _ _
          (All-when _ _ (append_nonempty "route '" _ (literal_nonempty "route '" refl)))
          (targets_errors-Speaks r 0 r.to))
        (route_errors-Speaks rs)

  io_conflicts-Speaks :
      (name : String) (pv : PipelineView)
      → All Speaks (io_conflicts parse project pipelines name pv)
  unfolding io_conflicts
  io_conflicts-Speaks name pv =
      All-append Speaks
        (if is_producer project.spec.routes name && pv.has_output
          then project_error "output is managed by the project's routes; remove it" ∷ []
          else [])
        (if is_consumer project.spec.routes name && pv.has_input
          then project_error "input is managed by the project's routes; remove it" ∷ []
          else [])
        (All-when _ (project_error "output is managed by the project's routes; remove it")
          (literal_nonempty "output is managed by the project's routes; remove it" refl))
        (All-when _ (project_error "input is managed by the project's routes; remove it")
          (literal_nonempty "input is managed by the project's routes; remove it" refl))

  io_errors-Speaks : (views : Pipelines) → All Speaks (io_errors parse project pipelines views)
  unfolding io_errors view_errors
  io_errors-Speaks [] = tt
  io_errors-Speaks ((name, pv) ∷ views) =
      All-append Speaks _ _ (of_view (pv.project_name == project.name)) (io_errors-Speaks views)
    where
      of_view :
          (b : Bool) → All Speaks (if b then io_conflicts parse project pipelines name pv else [])
      of_view true = io_conflicts-Speaks name pv
      of_view false = tt

  cycle_errors-Speaks : (o : Outcome) → All Speaks (cycle_errors parse project pipelines o)
  unfolding cycle_errors
  cycle_errors-Speaks (found []) = tt
  cycle_errors-Speaks (found (n ∷ ns)) = (
    append_nonempty "route graph contains a cycle: " _
        (literal_nonempty "route graph contains a cycle: " refl),
    tt,
  )
  cycle_errors-Speaks (clear st) = tt
  cycle_errors-Speaks out_of_fuel = tt

  cache_errors-Speaks :
      (crs : List CacheResource) → All Speaks (cache_errors parse project pipelines crs)
  unfolding cache_errors cache_error
  cache_errors-Speaks [] = tt
  cache_errors-Speaks (cr ∷ crs) =
      All-append Speaks _ _
        (All-when _ _
          (append_nonempty "cacheResources[" _ (literal_nonempty "cacheResources[" refl)))
        (cache_errors-Speaks crs)

  pub validate_project-Speaks : All Speaks (validate_project parse project pipelines)
  unfolding validate_project all_errors
  validate_project-Speaks = All-of_Memᴰ _ (λ e m.
      All-Memᴰ Speaks _
        (All-append Speaks _ _
          (All-append Speaks _ _
            (All-append Speaks _ _
              (All-append Speaks _ _ (duplicate_errors-Speaks [] project.spec.routes)
                (route_errors-Speaks project.spec.routes))
              (io_errors-Speaks pipelines))
            (cycle_errors-Speaks (find_cycle project.spec.routes)))
          (cache_errors-Speaks project.spec.cache_resources))
        ((sort-Memᴰ (λ a b. text_le a.message b.message) (all_errors parse project pipelines)).0 m))
