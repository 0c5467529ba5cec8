-- ===== src/Project/Tests.antt =====
-- Runs of the project's topology logic on a small project, and the theorems at it.
use rpc_operator.Prelude.{◌≡◌, refl, ◌↔◌, Bool, true, false, Option, none, List, [], ◌∷◌, String}
use rpc_operator.Project.Types.{ProjectRoute, Project}
use rpc_operator.Project.Naming.{nats_url}
use rpc_operator.Project.Plan.{role_of, plan_for}
use rpc_operator.Project.Plan.Laws.{PlanLists, plan_for-PlanLists, role_by_plan, role_of-plan_for}
use rpc_operator.Project.Validate.{PipelineView, Pipelines, validate_project}
use rpc_operator.Project.Validate.Valid.{IsValid}
use rpc_operator.Project.Validate.Laws.{validate_project-IsValid}
use rpc_operator.Project.Cycle.Search.{found, find_cycle}
use rpc_operator.Project.Cycle.Invariant.{Decides}
use rpc_operator.Project.Cycle.Correct.{find_cycle-Decides}

abbrev route : String → String → String → ProjectRoute
route name from to = record {
  name = name;
  from = from;
  to = record { pipeline = to; when = "" } ∷ [];
  retention = none;
}

abbrev ring : List ProjectRoute
ring = route "one" "b" "c" ∷ route "two" "c" "a" ∷ route "three" "a" "b" ∷ route "four" "a" "d" ∷ []

find_cycle-ring : find_cycle ring ≡ found ("a" ∷ "b" ∷ "c" ∷ "a" ∷ [])
unfolding find_cycle
find_cycle-ring = refl

find_cycle-Decides_example : Decides ring (find_cycle ring)
find_cycle-Decides_example = find_cycle-Decides ring

abbrev parse : String → Option String
parse mapping = none

abbrev view : String → Bool → Bool → String × PipelineView
view name has_input has_output = (
  name,
  record { name = name; project_name = "p"; has_input = has_input; has_output = has_output },
)

abbrev chain : Project
chain = record {
  name = "p";
  namespace = "ns";
  spec = record {
    cluster = none;
    nats = none;
    routes = route "one" "a" "b" ∷ route "two" "b" "c" ∷ [];
    cache_resources = record { name = "seen"; nats_kv = none; config = "{}" } ∷ [];
  };
}

abbrev views : Pipelines
views = view "a" true false ∷ view "b" false false ∷ view "c" false true ∷ []

validate_project-IsValid_example :
    (validate_project parse chain views ≡ []) ↔ IsValid parse chain views
validate_project-IsValid_example = validate_project-IsValid parse chain views

plan_for-PlanLists_example :
    PlanLists "p" "b" (plan_for chain "ns" "b") (nats_url "p" "ns") chain.spec.routes
plan_for-PlanLists_example = plan_for-PlanLists chain "ns" "b"

role_of-plan_for_example : role_of chain.spec.routes "b" ≡ role_by_plan (plan_for chain "ns" "b")
role_of-plan_for_example = role_of-plan_for chain "ns" "b"
