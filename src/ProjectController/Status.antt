-- ===== src/ProjectController/Status.antt =====
-- The status of a project, and when it is written (`Reconcile` and deriveProjectPhase of
-- internal/controller/pipelineproject_controller.go).
use Prim.Native.String.{◌++◌}
use rpc_operator.Prelude.{
  ℕ, String, Bool, true, false, not, ◌&&◌, ◌||◌, Option, none, some, List, [], ◌∷◌, ◌==◌,
  if◌then◌else◌, leb, ltb, nat_eq, is_empty,
}
use rpc_operator.Prelude.Decimal.{itoa}
use rpc_operator.Api.Conditions.{Condition, ConditionOps}
use rpc_operator.Controller.Status.{condition_changed, ready_condition}
use rpc_operator.Project.Types.{Project}
use rpc_operator.ProjectController.Calls.{RouteStatus}
use rpc_operator.ProjectController.Caches.{CacheStatus}

-- PipelineProjectPhase; `no_phase` is the empty phase of a new object
pub data ProjectPhase : Type 0 where
  no_phase provisioning ready degraded deleting : ProjectPhase

-- ProjectChildStatus
pub record ChildStatus : Type 0 where
  pub name : String
  pub ready : ℕ
  pub total : ℕ

-- PipelineProjectStatus
pub record ProjectStatus : Type 0 where
  pub phase : ProjectPhase
  pub cluster : ChildStatus
  pub nats : ChildStatus
  pub routes : List RouteStatus
  pub cache_resources : List CacheStatus
  pub observed_generation : ℕ
  pub conditions : List Condition

-- a project as the API server has it
pub record LiveProject : Type 0 where
  pub project : Project
  pub generation : ℕ
  pub is_deleting : Bool
  pub has_finalizer : Bool
  pub status : ProjectStatus

abbrev pub project_phase_eq : ProjectPhase → ProjectPhase → Bool
project_phase_eq no_phase no_phase = true
project_phase_eq provisioning provisioning = true
project_phase_eq ready ready = true
project_phase_eq degraded degraded = true
project_phase_eq deleting deleting = true
project_phase_eq _ _ = false

abbrev pub child_eq : ChildStatus → ChildStatus → Bool
child_eq a b = a.name == b.name && nat_eq a.ready b.ready && nat_eq a.total b.total

-- deriveProjectPhase
unfoldable pub derive_project_phase : ChildStatus → ChildStatus → ProjectPhase
derive_project_phase cluster nats =
    if ltb 0 cluster.total
      && leb cluster.total cluster.ready
      && ltb 0 nats.total
      && leb nats.total nats.ready
    then ready
    else provisioning

-- the phase, where a violation of the routes overrides the children
unfoldable pub project_phase : String → ChildStatus → ChildStatus → ProjectPhase
project_phase route_error cluster nats =
    if route_error == "" then derive_project_phase cluster nats else degraded

-- the condition RoutesValid
unfoldable pub routes_condition : String → Condition
routes_condition route_error =
    if route_error == ""
    then record {
      type = "RoutesValid";
      status = "True";
      reason = "Valid";
      message = "all routes valid";
    }
    else record {
      type = "RoutesValid";
      status = "False";
      reason = "InvalidRoutes";
      message = route_error;
    }

abbrev pub children_message : ChildStatus → ChildStatus → String
children_message cluster nats =
    "cluster "
    ++ itoa cluster.ready
    ++ "/"
    ++ itoa cluster.total
    ++ ", nats "
    ++ itoa nats.ready
    ++ "/"
    ++ itoa nats.total

-- the condition Ready
unfoldable pub project_condition : ProjectPhase → ChildStatus → ChildStatus → Condition
project_condition ready cluster nats =
    ready_condition "True" "AllReady" (children_message cluster nats)
project_condition degraded cluster nats =
    ready_condition "False" "ChildDegraded" (children_message cluster nats)
project_condition _ cluster nats =
    ready_condition "False" "Provisioning" (children_message cluster nats)

-- `routesCondChanged`: the reason is not compared
abbrev pub routes_condition_changed : Option Condition → Condition → Bool
routes_condition_changed none wanted = true
routes_condition_changed (some c) wanted =
    not (c.status == wanted.status) || not (c.message == wanted.message)

-- `reflect.DeepEqual` on two statuses: a condition has the time at which it was made, so that a status
-- with a condition differs from the recorded one
abbrev pub same_route : RouteStatus → RouteStatus → Bool
same_route a b =
    a.name == b.name
    && a.subject == b.subject
    && a.stream == b.stream
    && a.phase == b.phase
    && is_empty a.conditions
    && is_empty b.conditions

abbrev pub same_cache : CacheStatus → CacheStatus → Bool
same_cache a b =
    a.name == b.name
    && a.bucket == b.bucket
    && a.phase == b.phase
    && is_empty a.conditions
    && is_empty b.conditions

abbrev pub same_all {ℓ} : {A : Type ℓ} → (A → A → Bool) → List A → List A → Bool
same_all same [] [] = true
same_all same (x ∷ xs) (y ∷ ys) = same x y && same_all same xs ys
same_all same _ _ = false

-- `!reflect.DeepEqual(old, new)` on slices: a recorded slice is nil where it is empty, since it was
-- decoded from a field with `omitempty`; `none` is a new slice that is nil, and it differs from one
-- that is made and empty
unfoldable pub slice_changed {ℓ} : {A : Type ℓ} → (A → A → Bool) → List A → Option (List A) → Bool
slice_changed same [] none = false
slice_changed same (x ∷ xs) none = true
slice_changed same [] (some ys) = true
slice_changed same (x ∷ xs) (some ys) = not (same_all same (x ∷ xs) ys)

abbrev pub items_of {ℓ} : {A : Type ℓ} → Option (List A) → List A
items_of none = []
items_of (some xs) = xs

-- What a reconcile found out: the violation of the routes (empty if there is none), the children, and
-- the statuses of the routes and of the cache resources as slices.
pub record Findings : Type 0 where
  pub route_error : String
  pub cluster : ChildStatus
  pub nats : ChildStatus
  pub routes : Option (List RouteStatus)
  pub cache_resources : Option (List CacheStatus)
  pub caches_kept : Bool

module _ (conditions : ConditionOps) where
  abbrev pub wanted_condition : Findings → Condition
  wanted_condition f =
      project_condition (project_phase f.route_error f.cluster f.nats) f.cluster f.nats

  unfoldable pub project_status_changed : LiveProject → Findings → Bool
  project_status_changed live f =
      let s = live.status in
      condition_changed (conditions.find s.conditions "Ready") (wanted_condition f)
      || routes_condition_changed (conditions.find s.conditions "RoutesValid")
          (routes_condition f.route_error)
      || slice_changed same_route s.routes f.routes
      || not f.caches_kept && slice_changed same_cache s.cache_resources f.cache_resources
      || not (project_phase_eq s.phase (project_phase f.route_error f.cluster f.nats))
      || not (child_eq s.cluster f.cluster)
      || not (child_eq s.nats f.nats)
      || not (nat_eq s.observed_generation live.generation)

  unfoldable pub project_status_of : LiveProject → Findings → ProjectStatus
  project_status_of live f = record {
    phase = project_phase f.route_error f.cluster f.nats;
    cluster = f.cluster;
    nats = f.nats;
    routes = items_of f.routes;
    cache_resources = items_of f.cache_resources;
    observed_generation = live.generation;
    conditions =
        conditions.set (conditions.set live.status.conditions (wanted_condition f))
          (routes_condition f.route_error);
  }
