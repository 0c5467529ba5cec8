-- ===== src/Project/Plan/Laws.antt =====
-- What the I/O plan of a pipeline holds, and that it agrees with the pipeline's role
-- (internal/projectroute/projectroute.go).
use mathlib.Core.List.{append_assoc, append-nil}
use rpc_operator.Prelude.{
  String, ◌≡◌, refl, ◌∙◌, ap, inl, inr, List, [], ◌∷◌, ◌++◌, map, Bool, true, false, not, ◌&&◌,
  ◌||◌, any, keep, is_empty, ◌==◌, if◌then◌else◌, Bool-cases,
}
use rpc_operator.Project.Types.{RouteTarget, ProjectRoute, Project}
use rpc_operator.Project.Naming.{subject, durable_name, nats_url}
use rpc_operator.Project.Plan.{
  is_producer, is_consumer, Role, standalone, source, middle, sink, role_of, IncomingTarget, IoPlan,
  plan_targets, plan_routes, plan_for,
}

abbrev with_io : IoPlan → List String → List IncomingTarget → IoPlan
with_io plan s i = record plan { outgoing_subjects = s; incoming = i }

with_io_eq :
    (plan : IoPlan) {s s' : List String} {i i' : List IncomingTarget}
    → s ≡ s'
    → i ≡ i'
    → with_io plan s i ≡ with_io plan s' i'
with_io_eq plan e e' = rw (e, e') refl

module _ (project pipeline : String) where
  -- the subject of each route that starts at the pipeline, in the order of the routes
  abbrev pub sent : List ProjectRoute → List String
  sent routes = map (λ r. subject project r.name) (keep (λ r. r.from == pipeline) routes)

  abbrev pub consumer : ProjectRoute → RouteTarget → IncomingTarget
  consumer r t = record {
    route = r.name;
    subject = subject project r.name;
    durable = durable_name project r.name pipeline;
    when = t.when;
  }

  -- a consumer for each target of each route that is the pipeline, in their order
  abbrev pub received : List ProjectRoute → List IncomingTarget
  received [] = []
  received (r ∷ rs) = map (consumer r) (keep (λ t. t.pipeline == pipeline) r.to) ++ received rs

  plan_targets-incoming :
      (r : ProjectRoute) (ts : List RouteTarget) (plan : IoPlan)
      → plan_targets project pipeline r ts plan ≡ record plan {
        incoming = plan.incoming ++ map (consumer r) (keep (λ t. t.pipeline == pipeline) ts);
      }
  unfolding plan_targets
  plan_targets-incoming r [] plan = rw append-nil refl
  plan_targets-incoming r (t ∷ ts) plan = elim (Bool-cases (t.pipeline == pipeline)) [
    | inl e ↦
        rw (e, plan_targets, keep)
          (plan_targets-incoming r ts
              (record plan { incoming = plan.incoming ++ consumer r t ∷ [] })
            ∙ ap (λ l. record plan { incoming = l })
                (append_assoc plan.incoming (consumer r t ∷ [])
                  (map (consumer r) (keep (λ t'. t'.pipeline == pipeline) ts))))
    | inr e ↦ rw (e, plan_targets, keep) (plan_targets-incoming r ts plan)
  ]

  plan_routes-both :
      (routes : List ProjectRoute) (plan : IoPlan)
      → plan_routes project pipeline routes plan ≡ record plan {
        outgoing_subjects = plan.outgoing_subjects ++ sent routes;
        incoming = plan.incoming ++ received routes;
      }
  unfolding plan_routes
  plan_routes-both [] plan = rw (append-nil plan.outgoing_subjects, append-nil plan.incoming) refl
  plan_routes-both (r ∷ rs) plan = elim (Bool-cases (r.from == pipeline)) [
    | inl e ↦
        rw (e, plan_routes, keep, plan_targets-incoming)
          (plan_routes-both rs _
            ∙ with_io_eq plan
                (append_assoc plan.outgoing_subjects (subject project r.name ∷ []) (sent rs))
                (append_assoc plan.incoming
                  (map (consumer r) (keep (λ t. t.pipeline == pipeline) r.to)) (received rs)))
    | inr e ↦
        rw (e, plan_routes, keep, plan_targets-incoming)
          (plan_routes-both rs _
            ∙ with_io_eq plan refl (
                append_assoc plan.incoming
                  (map (consumer r) (keep (λ t. t.pipeline == pipeline) r.to)) (received rs)))
  ]

  -- the plan's lists
  abbrev pub PlanLists : IoPlan → String → List ProjectRoute → Type 0
  PlanLists plan url routes =
      (plan.nats_url ≡ url)
      × (plan.outgoing_subjects ≡ sent routes)
      × (plan.incoming ≡ received routes)

  is_producer-sent :
      (routes : List ProjectRoute) → is_producer routes pipeline ≡ not (is_empty (sent routes))
  unfolding is_producer
  is_producer-sent [] = refl
  is_producer-sent (r ∷ rs) = elim (Bool-cases (r.from == pipeline)) [
    | inl e ↦ rw (e, is_producer, keep) refl
    | inr e ↦ rw (e, is_producer, keep) (is_producer-sent rs)
  ]

  is_empty-append {ℓ} :
      {A : Type ℓ} (xs ys : List A) → is_empty (xs ++ ys) ≡ (is_empty xs && is_empty ys)
  is_empty-append [] ys = refl
  is_empty-append (x ∷ xs) ys = refl

  any-keep :
      (r : ProjectRoute) (ts : List RouteTarget)
      → any (λ t. t.pipeline == pipeline) ts
        ≡ not (is_empty (map (consumer r) (keep (λ t. t.pipeline == pipeline) ts)))
  any-keep r [] = refl
  any-keep r (t ∷ ts) = elim (Bool-cases (t.pipeline == pipeline)) [
    | inl e ↦ rw (e, keep, any) refl
    | inr e ↦ rw (e, keep, any) (any-keep r ts)
  ]

  is_consumer-received :
      (routes : List ProjectRoute) → is_consumer routes pipeline ≡ not (is_empty (received routes))
  unfolding is_consumer
  is_consumer-received [] = refl
  is_consumer-received (r ∷ rs) =
      rw
        (
          is_empty-append (map (consumer r) (keep (λ t. t.pipeline == pipeline) r.to))
              (received rs),
          is_consumer,
          any-keep r r.to,
        )
        (or_not (is_empty (map (consumer r) (keep (λ t. t.pipeline == pipeline) r.to)))
          (is_empty (received rs)) _ (is_consumer-received rs))
    where
      or_not : (a b c : Bool) → c ≡ not b → (not a || c) ≡ not (a && b)
      or_not true b c e = e
      or_not false b c e = refl

-- the role that a plan gives
abbrev pub role_by_plan : IoPlan → Role
role_by_plan p =
    if is_empty p.outgoing_subjects
    then if is_empty p.incoming then standalone else sink
    else if is_empty p.incoming
    then source
    else middle

module _ (project : Project) (namespace pipeline : String) where
  -- `PlanFor` lists the subject of every route that starts at the pipeline, and a consumer for every
  -- target that is the pipeline, in the order of the routes and of their targets.
  pub plan_for-PlanLists :
      PlanLists project.name pipeline
        (plan_for project namespace pipeline)
        (nats_url project.name namespace)
        project.spec.routes
  unfolding plan_for
  plan_for-PlanLists =
      rw (plan_for, plan_routes-both project.name pipeline project.spec.routes) (refl, refl, refl)

  -- The role of a pipeline is the one that its plan gives: a source where it has outputs and no inputs, a
  -- sink where it has inputs and no outputs, in the middle where it has both, and else standalone.
  pub role_of-plan_for :
      role_of project.spec.routes pipeline ≡ role_by_plan (plan_for project namespace pipeline)
  unfolding role_of
  role_of-plan_for =
      let p = plan_for-PlanLists in
      rw
        (
          role_of,
          is_producer-sent project.name pipeline project.spec.routes,
          is_consumer-received project.name pipeline project.spec.routes,
          p.1,
          p.2,
        )
        (by_emptiness (is_empty (sent project.name pipeline project.spec.routes))
          (is_empty (received project.name pipeline project.spec.routes)))
    where
      by_emptiness :
          (a b : Bool)
          → (if not a && not b
              then middle
              else if not a
              then source
              else if not b
              then sink
              else standalone)
            ≡ (if a then if b then standalone else sink else if b then source else middle)
      by_emptiness true true = refl
      by_emptiness true false = refl
      by_emptiness false true = refl
      by_emptiness false false = refl
