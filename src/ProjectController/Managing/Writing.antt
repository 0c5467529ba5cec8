-- ===== src/ProjectController/Managing/Writing.antt =====
-- The routes, the cache resources and the status in a reconcile of a project
-- (internal/controller/pipelineproject_controller.go).
use rpc_operator.Prelude.{
  ◌≤◌, ◌<◌, String, ◌≡◌, refl, ◌⊎◌, inl, inr, Bool, true, false, Option, none, some, List, Memᴰ,
  ◌==◌, Bool-cases, eq_iff, arith,
}
use rpc_operator.Effects.{ret, ask, Every}
use rpc_operator.Effects.Rules.{Every-bind, Every-if}
use rpc_operator.Controller.Calls.{Answer, ok, err, Error, is_conflict, done, no_requeue}
use rpc_operator.Controller.Steps.{Leaves}
use rpc_operator.ProjectController.Calls.{NatsHistory, RouteStatus, RouteOutcome}
use rpc_operator.ProjectController.Laws as RouteLaws
use rpc_operator.ProjectController.Caches.{CacheStatus, CacheOutcome}
use rpc_operator.ProjectController.Caches.Promises as CachePromises
use rpc_operator.ProjectController.Resources.{
  build_project_cluster, project_nats_replicas, project_nats_storage, build_nats_server,
}
use rpc_operator.ProjectController.Views.{Listed, route_error_of}
use rpc_operator.ProjectController.Status.{
  ready, degraded, ChildStatus, LiveProject, Findings, derive_project_phase, project_phase,
  project_status_changed, project_status_of, items_of,
}
use rpc_operator.ProjectController.Managing.{
  apply_cluster, apply_nats_server, list_pipelines, update_project, ProjectDeps, manage_routes,
  manage_caches, write_project_status, after_project_update,
}
use rpc_operator.ProjectController.Managing.Promises.{
  ProjectHistory, event, Stable, AsRoutes, AsCaches, RoutesHold, ChildrenReady, AreInstances,
  RoutesReported, Sound,
}
use rpc_operator.ProjectController.Managing.Deletion.{Ends}
use rpc_operator.ProjectController.Managing.Routing.{
  listed-RoutesHold, Streamed, streams-Streamed, Cached, caches-Cached,
}

-- the phase `ready` is given only where the routes hold and the counts are reached
project_phase-ready :
    (e : String) (c n : ChildStatus)
    → project_phase e c n ≡ ready
    → (e ≡ "") × (0 < c.total) × (c.total ≤ c.ready) × (0 < n.total) × (n.total ≤ n.ready)
unfolding project_phase derive_project_phase
project_phase-ready e c n h =
    (ground (arith, eq_iff e ""), ground arith, ground arith, ground arith, ground arith)

-- and `degraded` wherever they do not hold
project_phase-degraded :
    (e : String) (c n : ChildStatus) → (e == "") ≡ false → project_phase e c n ≡ degraded
unfolding project_phase
project_phase-degraded e c n h = rw h refl

module _ (deps : ProjectDeps) (live : LiveProject) (lives : live.is_deleting ≡ false)
    (kept : live.has_finalizer ≡ true) where
  -- both children were applied with these counts
  abbrev pub Applied : ChildStatus → ChildStatus → ProjectHistory → Type 0
  Applied c n h =
      Memᴰ (event (apply_cluster (build_project_cluster live.project)) (ok c.ready)) h
      × Memᴰ
          (event
            (apply_nats_server (
              build_nats_server live.project.name deps.nats_image
                (project_nats_replicas live.project) (project_nats_storage live.project)))
            (ok n.ready))
          h
      × (c.total ≡ (build_project_cluster live.project).replicas)
      × (n.total ≡ project_nats_replicas live.project)

  module _ (cluster nats : ChildStatus) (pipelines : List Listed) where
    abbrev pub found : String
    found = route_error_of deps.codec deps.parse live.project pipelines

    -- what is known when the routes are looked at
    abbrev pub Known : ProjectHistory → Type 0
    Known h = Applied cluster nats h × Memᴰ (event list_pipelines (ok pipelines)) h

    pub Known-later : Stable Known
    Known-later h e ((c, n, s, t), l) = ((Memᴰ.tail c, Memᴰ.tail n, s, t), Memᴰ.tail l)

    -- the statuses of the routes, as the status will have them
    abbrev pub Routed : ProjectHistory → Option (List RouteStatus) → Type 0
    Routed h routes =
        Known h
        × (((found ≡ "")
              × (deps.has_streams ≡ true
                  → (new : NatsHistory) × AsRoutes new h
                    × RouteLaws.Settles live.project live.status.routes new
                        (record { statuses = items_of routes; failure = none })))
            ⊎ (((found == "") ≡ false) × (routes ≡ none)))

    Routed-later : (routes : Option (List RouteStatus)) → Stable (λ h. Routed h routes)
    Routed-later routes h e (k, inl (f, s)) = (
      Known-later h e k,
      inl (
        f,
        λ wired.
            let (new, within, settles) = s wired in (new, λ x m. Memᴰ.tail (within x m), settles),
      ),
    )
    Routed-later routes h e (k, inr r) = (Known-later h e k, inr r)

    holds_there : (h : ProjectHistory) → found ≡ "" → Known h → RoutesHold deps live h
    holds_there h e k = listed-RoutesHold deps live pipelines h k.1 e

    pub manage_routes-Routed :
        (h : ProjectHistory)
        → Known h
        → Every (Sound deps live) (Leaves Routed) h (manage_routes deps live found)
    unfolding manage_routes
    manage_routes-Routed h k = elim (Bool-cases (found == "")) [
      | inl fine ↦
          let empty : found ≡ "" = (eq_iff found "").0 fine in
          rw fine (
            Every-bind (Sound deps live) (Streamed deps live Known Known-later lives kept)
              (Leaves Routed) _ h _
              (streams-Streamed deps live Known Known-later lives kept
                (λ h' k'. holds_there h' empty k') h k)
              (λ h' out s. answered empty h' out out.failure refl s))
      | inr broken ↦ rw broken (k, inr (broken, refl))
    ]
      where
        answered :
            found ≡ ""
            → (h' : ProjectHistory) (out : RouteOutcome) (failure : Option Error)
            → out.failure ≡ failure
            → Streamed deps live Known Known-later lives kept h' out
            → Leaves Routed h' (elim failure [ none ↦ ok (some out.statuses) | some e ↦ err e ])
        answered empty h' out none same s = (
          s.0,
          inl (
            empty,
            λ wired.
                let (new, within, settles) = s.1 wired in
                (new, within, (settles.0, λ _. settles.1 same)),
          ),
        )
        answered empty h' out (some e) same s = tt

    module _ (routes : Option (List RouteStatus)) where
      abbrev pub Filled : ProjectHistory → Option (List CacheStatus) → Type 0
      Filled h caches =
          Routed h routes
          × (deps.has_instances ≡ true
              → (urls : List String) × AreInstances deps live h urls
                × (new : CachePromises.CacheHistory) × AsCaches new h
                × CachePromises.Covers deps.codec live.project urls live.status.cache_resources
                    live.project.spec.cache_resources (items_of caches) none new)

      pub manage_caches-Filled :
          (h : ProjectHistory)
          → Routed h routes
          → Every (Sound deps live) (Leaves Filled) h (manage_caches deps live)
      unfolding manage_caches
      manage_caches-Filled h k =
          Every-bind (Sound deps live)
            (Cached deps live (λ h'. Routed h' routes) (Routed-later routes) lives kept)
            (Leaves Filled) _ h _
            (caches-Cached deps live (λ h'. Routed h' routes) (Routed-later routes) lives kept h k)
            (λ h' out c. answered h' out out.failure refl c)
        where
          answered :
              (h' : ProjectHistory) (out : CacheOutcome) (failure : Option Error)
              → out.failure ≡ failure
              → Cached deps live (λ h''. Routed h'' routes) (Routed-later routes) lives kept h' out
              → Leaves Filled h' (elim failure [ none ↦ ok (some out.statuses) | some e ↦ err e ])
          answered h' out none same c = (c.0, λ wired. c.1 wired same)
          answered h' out (some e) same c = tt

      abbrev facts : Option (List CacheStatus) → Bool → Findings
      facts caches b = record {
        route_error = found;
        cluster = cluster;
        nats = nats;
        routes = routes;
        cache_resources = caches;
        caches_kept = b;
      }

      pub write_project_status-Sound :
          (caches : Option (List CacheStatus)) (b : Bool) (h : ProjectHistory)
          → Filled h caches
          → Every (Sound deps live) Ends h (write_project_status deps live (facts caches b))
      unfolding write_project_status project_status_of
      write_project_status-Sound caches b h (((a, l), r), c) =
          Every-if (Sound deps live) Ends h
            (project_status_changed deps.conditions live (facts caches b))
            (ask (update_project (project_status_of deps.conditions live (facts caches b)))
              after_project_update)
            (ret (done no_requeue))
            (λ _. ((lives, kept, is_ready, reported r, c), λ r'. by_reply _ r')) (λ _. tt)
        where
          is_ready :
              project_phase found cluster nats ≡ ready
              → RoutesHold deps live h × ChildrenReady deps live h
          is_ready p =
              let (empty, c0, c1, n0, n1) = project_phase-ready found cluster nats p in
              (
                holds_there h empty (a, l),
                (
                  cluster.ready,
                  nats.ready,
                  a.0,
                  a.1,
                  rw (← a.2) c0,
                  rw (← a.2) c1,
                  rw (← a.3) n0,
                  rw (← a.3) n1,
                ),
              )

          reported :
              ((found ≡ "")
                  × (deps.has_streams ≡ true
                      → (new : NatsHistory) × AsRoutes new h
                        × RouteLaws.Settles live.project live.status.routes new
                            (record { statuses = items_of routes; failure = none })))
                ⊎ (((found == "") ≡ false) × (routes ≡ none))
              → RoutesReported deps live h (project_status_of deps.conditions live (facts caches b))
          reported (inl (empty, s)) = inl (
            holds_there h empty (a, l),
            λ wired.
                let (new, within, settles) = s wired in (new, within, settles.0, settles.1 refl),
          )
          reported (inr (broken, n)) =
              inr (project_phase-degraded found cluster nats broken, rw n refl)

          by_reply :
              (h' : ProjectHistory) (r : Answer (Unit {0}))
              → Every (Sound deps live) Ends h' (after_project_update r)
          by_reply h' (ok u) = tt
          by_reply h' (err e) =
              Every-if (Sound deps live) Ends h' (is_conflict e) _ _ (λ _. tt) (λ _. tt)
