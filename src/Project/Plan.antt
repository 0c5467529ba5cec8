-- ===== src/Project/Plan.antt =====
-- Roles and I/O plans of the pipelines of a project (internal/projectroute/projectroute.go).
pub mod Laws
use rpc_operator.Prelude.{String, List, [], ◌∷◌, ◌++◌, Bool, ◌&&◌, any, is_empty}
use rpc_operator.Prelude.{◌==◌, if◌then◌else◌}
use rpc_operator.Project.Types.{RouteTarget, ProjectRoute, Project}
use rpc_operator.Project.Naming.{subject, durable_name, nats_url}

unfoldable pub is_producer : List ProjectRoute → String → Bool
is_producer routes pipeline = any (λ r. r.from == pipeline) routes

unfoldable pub is_consumer : List ProjectRoute → String → Bool
is_consumer routes pipeline = any (λ r. any (λ t. t.pipeline == pipeline) r.to) routes

pub data Role : Type 0 where
  standalone source middle sink : Role

unfoldable pub role_of : List ProjectRoute → String → Role
unfolding is_producer is_consumer
role_of routes pipeline =
    let p = is_producer routes pipeline in
    let c = is_consumer routes pipeline in
    if p && c then middle else if p then source else if c then sink else standalone

pub record IncomingTarget : Type 0 where
  pub route : String
  pub subject : String
  pub durable : String
  pub when : String

pub record IoPlan : Type 0 where
  pub nats_url : String
  pub outgoing_subjects : List String
  pub incoming : List IncomingTarget

module _ (project pipeline : String) where
  -- the inner loop of `PlanFor`, over the targets of one route
  plan_targets : ProjectRoute → List RouteTarget → IoPlan → IoPlan
  plan_targets r [] plan = plan
  plan_targets r (t ∷ ts) plan =
      let hit = record plan {
        incoming =
            plan.incoming
            ++ record {
              route = r.name;
              subject = subject project r.name;
              durable = durable_name project r.name pipeline;
              when = t.when;
            }
              ∷ [];
      } in
      plan_targets r ts (if t.pipeline == pipeline then hit else plan)

  -- the outer loop
  plan_routes : List ProjectRoute → IoPlan → IoPlan
  plan_routes [] plan = plan
  plan_routes (r ∷ rs) plan =
      let sent = record plan {
        outgoing_subjects = plan.outgoing_subjects ++ subject project r.name ∷ [];
      } in
      plan_routes rs (plan_targets r r.to (if r.from == pipeline then sent else plan))

unfoldable pub plan_for : Project → String → String → IoPlan
unfolding plan_targets plan_routes
plan_for project namespace pipeline =
    plan_routes project.name pipeline project.spec.routes
      (record { nats_url = nats_url project.name namespace; outgoing_subjects = []; incoming = [] })

-- IOPlan.IsEmpty
unfoldable pub plan_is_empty : IoPlan → Bool
plan_is_empty p = is_empty p.outgoing_subjects && is_empty p.incoming
