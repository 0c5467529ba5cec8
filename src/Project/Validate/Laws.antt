-- ===== src/Project/Validate/Laws.antt =====
-- `ValidateProject` finds no violation exactly in a valid project.
use rpc_operator.Prelude.{String, ◌≡◌, ◌↔◌, refl, subst, Option, List, [], ◌∷◌, ◌++◌, Memᴰ, All}
use rpc_operator.Prelude.Sorting.{sort, sort-Memᴰ, text_le}
use rpc_operator.Project.Types.{ProjectRoute, Project}
use rpc_operator.Project.Cycle.Graph.{Leads, one, more, IsWalk}
use rpc_operator.Project.Cycle.Search.{Outcome, found, clear, out_of_fuel, find_cycle}
use rpc_operator.Project.Cycle.Invariant.{Decides, IsCycle}
use rpc_operator.Project.Cycle.Correct.{find_cycle-Decides}
use rpc_operator.Project.Validate.{
  ProjectError, Pipelines, cycle_errors, all_errors, validate_project,
}
use rpc_operator.Project.Validate.Valid.{AreDistinct, IsRoute, IsView, IsCache, IsValid}
use rpc_operator.Project.Validate.Errors.{
  both-nil, duplicate_errors-nil, route_errors-nil, io_errors-nil,
}
use rpc_operator.Project.Validate.Caches.{cache_errors-nil}

-- a walk from one node to another
IsWalk-Leads :
    (routes : List ProjectRoute) (u v : String) (between : List String)
    → IsWalk routes (u ∷ (between ++ v ∷ []))
    → Leads routes u v
IsWalk-Leads routes u v [] (e, w) = one e
IsWalk-Leads routes u v (m ∷ between) (e, w) = more e (IsWalk-Leads routes m v between w)

IsCycle-Leads :
    (routes : List ProjectRoute) (c : List String) (k : IsCycle routes c)
    → Leads routes k.first k.first
IsCycle-Leads routes c k =
    IsWalk-Leads routes k.first k.first k.between (subst (IsWalk routes) k.shape k.walk)

module _ (parse : String → Option String) (project : Project) (pipelines : Pipelines) where
  cycle_errors-nil :
      (o : Outcome)
      → Decides project.spec.routes o
      → (cycle_errors parse project pipelines o ≡ [])
        ↔ ((u : String) → ¬ Leads project.spec.routes u u)
  unfolding cycle_errors
  cycle_errors-nil (found (n ∷ ns)) d =
      (λ e. cc e, λ h. absurd (h d.first (IsCycle-Leads project.spec.routes (n ∷ ns) d)))
  cycle_errors-nil (found []) d = cc (d.shape)
  cycle_errors-nil (clear st) d = (λ e. d, λ h. refl)
  cycle_errors-nil out_of_fuel d = absurd d

  sort_nothing : sort (λ (a : ProjectError) (b : ProjectError). text_le a.message b.message) [] ≡ []
  unfolding sort
  sort_nothing = refl

  sort-nil : (l : List ProjectError) → (sort (λ a b. text_le a.message b.message) l ≡ []) ↔ (l ≡ [])
  sort-nil [] = (λ e. refl, λ e. sort_nothing)
  sort-nil (x ∷ l) = (λ e. absurd (gone e), λ e. cc e)
    where
      gone : sort (λ a b. text_le a.message b.message) (x ∷ l) ≡ [] → ⊥
      gone e =
          elim (subst (λ s. Memᴰ x s) e
            ((sort-Memᴰ (λ a b. text_le a.message b.message) (x ∷ l)).1 (Memᴰ.head refl))) [ ]

  abbrev Parts : Type 0
  Parts =
      (((AreDistinct [] project.spec.routes
            × All (IsRoute parse project pipelines) project.spec.routes)
          × All (IsView parse project pipelines) pipelines)
        × ((u : String) → ¬ Leads project.spec.routes u u))
      × All (IsCache parse project pipelines) project.spec.cache_resources

  parts : (all_errors parse project pipelines ≡ []) ↔ Parts
  unfolding all_errors
  parts =
      both-nil
        (both-nil
          (both-nil
            (both-nil (duplicate_errors-nil [] project.spec.routes)
              (route_errors-nil parse project pipelines project.spec.routes))
            (io_errors-nil parse project pipelines pipelines))
          (cycle_errors-nil (find_cycle project.spec.routes)
            (find_cycle-Decides project.spec.routes)))
        (cache_errors-nil parse project pipelines project.spec.cache_resources)

  -- `ValidateProject` reports no violation exactly where the route names are distinct, every route leads
  -- from a pipeline of the project to pipelines of the project with predicates that parse, no producer
  -- has an output and no consumer an input of its own, no pipeline leads back to itself along the routes,
  -- and every cache resource sets one of its two forms.
  pub validate_project-IsValid :
      (validate_project parse project pipelines ≡ []) ↔ IsValid parse project pipelines
  unfolding validate_project
  validate_project-IsValid = (
    λ e.
        let p = parts.0 ((sort-nil (all_errors parse project pipelines)).0 e) in
        record {
          distinct = p.0.0.0.0;
          routes = p.0.0.0.1;
          views = p.0.0.1;
          acyclic = p.0.1;
          caches = p.1;
        },
    λ v.
        (sort-nil (all_errors parse project pipelines)).1
          (parts.1 ((((v.distinct, v.routes), v.views), v.acyclic), v.caches)),
  )
