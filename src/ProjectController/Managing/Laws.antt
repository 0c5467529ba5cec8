-- ===== src/ProjectController/Managing/Laws.antt =====
-- What `Reconcile` of internal/controller/pipelineproject_controller.go promises of streams, statuses and
-- the finalizer, whatever the services reply.
use rpc_operator.Prelude.{
  ℕ, String, ◌≡◌, refl, true, false, not, ◌&&◌, List, [], ◌∷◌, Memᴰ, ◌==◌, arith,
}
use rpc_operator.Effects.{ret, ask, Every}
use rpc_operator.Effects.Rules.{Every-bind, Every-if, Every-policy}
use rpc_operator.Controller.Calls.{ok}
use rpc_operator.Controller.Steps.{Leaves-of_ok, require-Every}
use rpc_operator.ProjectController.Calls.{NatsHistory}
use rpc_operator.ProjectController.Laws as RouteLaws
use rpc_operator.ProjectController.Resources.{
  ChildCluster, NatsServer, build_project_cluster, project_nats_replicas, project_nats_storage,
  nats_server_config, build_nats_server, child_cluster_name, child_nats_name,
}
use rpc_operator.ProjectController.Views.{Listed, route_error_of}
use rpc_operator.ProjectController.Status.{ready, ChildStatus, LiveProject}
use rpc_operator.ProjectController.Managing.{
  ProjectCall, add_finalizer, remove_finalizer, list_claims, delete_claim, routing, caching,
  apply_cluster, apply_nats_config, apply_nats_service, apply_nats_server, list_pipelines, warn,
  update_project, ProjectDeps, warn_routes, manage_routes, manage_caches, manage, provision,
  reconcile_live_project,
}
use rpc_operator.ProjectController.Managing.Promises.{
  ProjectHistory, event, RoutesHold, ChildrenReady, IsReclaimed, Discards, CacheTends,
  RoutesReported, CachesReported, Sound,
}
use rpc_operator.ProjectController.Managing.Deletion.{Ends, release_project-Sound}
use rpc_operator.ProjectController.Managing.Writing.{
  Known, Known-later, Routed, manage_routes-Routed, Filled, manage_caches-Filled,
  write_project_status-Sound,
}

module _ (deps : ProjectDeps) (live : LiveProject) where
  -- a call whose reply is all that counts
  abbrev Replied : {A : Type 0} → (ProjectHistory → Type 0) → ProjectHistory → A → Type 0
  Replied K h a = K h

  module _ (lives : live.is_deleting ≡ false) (kept : live.has_finalizer ≡ true) where
    abbrev found_in : List Listed → String
    found_in pipelines = route_error_of deps.codec deps.parse live.project pipelines

    manage-Sound :
        (cluster nats : ChildStatus) (pipelines : List Listed) (h : ProjectHistory)
        → Known deps live lives kept cluster nats pipelines h
        → Every (Sound deps live) Ends h (manage deps live cluster nats pipelines)
    unfolding manage warn_routes
    manage-Sound cluster nats pipelines h k =
        Every-bind (Sound deps live)
          (λ h' (_ : Unit {0}). Known deps live lives kept cluster nats pipelines h') Ends _ h
          (warn_routes deps (found_in pipelines))
          (Every-if (Sound deps live)
            (λ h' (_ : Unit {0}). Known deps live lives kept cluster nats pipelines h') h
            (not (found_in pipelines == "") && deps.has_recorder)
            (ask (warn (found_in pipelines)) (λ _. ret tt)) (ret tt)
            (λ _. (tt, λ _. Known-later deps live lives kept cluster nats pipelines h _ k))
            (λ _. k))
          (λ h₁ _ k₁.
            require-Every (Sound deps live) (Routed deps live lives kept cluster nats pipelines)
              Ends _ h₁ (manage_routes deps live (found_in pipelines)) (λ h' e. tt)
              (manage_routes-Routed deps live lives kept cluster nats pipelines h₁ k₁)
              (λ h₂ routes r.
                require-Every (Sound deps live)
                  (Filled deps live lives kept cluster nats pipelines routes) Ends _ h₂
                  (manage_caches deps live) (λ h' e. tt)
                  (manage_caches-Filled deps live lives kept cluster nats pipelines routes h₂ r)
                  (λ h₃ caches f.
                    write_project_status-Sound deps live lives kept cluster nats pipelines routes
                      caches (not deps.has_instances) h₃ f)))

    provision-Sound : (h : ProjectHistory) → Every (Sound deps live) Ends h (provision deps live)
    unfolding provision
    provision-Sound h =
        require-Every (Sound deps live) (λ h' c. HasCluster h' c) Ends _ h
          (ask (apply_cluster child) ret) (λ h' e. tt)
          (
            tt,
            λ r.
                Leaves-of_ok (λ (h' : ProjectHistory) c. HasCluster h' c) _ r
                  (λ c e. Memᴰ.head (rw e refl)),
          )
          (λ h₁ c m₁.
            require-Every (Sound deps live) (λ h' (_ : Unit {0}). HasCluster h' c) Ends _ h₁
              (ask (apply_nats_config config) ret) (λ h' e. tt)
              (
                tt,
                λ r.
                    Leaves-of_ok (λ (h' : ProjectHistory) (_ : Unit {0}). HasCluster h' c) _ r
                      (λ _ _. Memᴰ.tail m₁),
              )
              (λ h₂ _ m₂.
                require-Every (Sound deps live) (λ h' (_ : Unit {0}). HasCluster h' c) Ends _ h₂
                  (ask apply_nats_service ret) (λ h' e. tt)
                  (
                    tt,
                    λ r.
                        Leaves-of_ok (λ (h' : ProjectHistory) (_ : Unit {0}). HasCluster h' c) _ r
                          (λ _ _. Memᴰ.tail m₂),
                  )
                  (λ h₃ _ m₃.
                    require-Every (Sound deps live) (λ h' n. HasBoth c h' n) Ends _ h₃
                      (ask (apply_nats_server server) ret) (λ h' e. tt)
                      (
                        tt,
                        λ r.
                            Leaves-of_ok (λ (h' : ProjectHistory) n. HasBoth c h' n) _ r
                              (λ n e. (Memᴰ.tail m₃, Memᴰ.head (rw e refl))),
                      )
                      (λ h₄ n m₄.
                        require-Every (Sound deps live)
                          (λ h' pipelines.
                            Known deps live lives kept (cluster_of c) (nats_of n) pipelines h')
                          Ends _ h₄ (ask list_pipelines ret) (λ h' e. tt)
                          (
                            tt,
                            λ r.
                                Leaves-of_ok
                                  (λ (h' : ProjectHistory) pipelines.
                                    Known deps live lives kept (cluster_of c) (nats_of n) pipelines
                                      h')
                                  _ r
                                  (λ pipelines e. (
                                    (Memᴰ.tail m₄.0, Memᴰ.tail m₄.1, refl, refl),
                                    Memᴰ.head (rw e refl),
                                  )),
                          )
                          (λ h₅ pipelines k.
                            manage-Sound (cluster_of c) (nats_of n) pipelines h₅ k)))))
      where
        child : ChildCluster
        child = build_project_cluster live.project

        config : String
        config = nats_server_config live.project.name (project_nats_replicas live.project)

        server : NatsServer
        server =
            build_nats_server live.project.name deps.nats_image (project_nats_replicas live.project)
              (project_nats_storage live.project)

        HasCluster : ProjectHistory → ℕ → Type 0
        HasCluster h' c = Memᴰ (event (apply_cluster child) (ok c)) h'

        HasBoth : ℕ → ProjectHistory → ℕ → Type 0
        HasBoth c h' n = HasCluster h' c × Memᴰ (event (apply_nats_server server) (ok n)) h'

        cluster_of : ℕ → ChildStatus
        cluster_of c = record {
          name = child_cluster_name live.project.name;
          ready = c;
          total = child.replicas;
        }

        nats_of : ℕ → ChildStatus
        nats_of n = record {
          name = child_nats_name live.project.name;
          ready = n;
          total = project_nats_replicas live.project;
        }

  reconcile_live_project-Sound :
      (h : ProjectHistory) → Every (Sound deps live) Ends h (reconcile_live_project deps live)
  unfolding reconcile_live_project
  reconcile_live_project-Sound h =
      Every-if (Sound deps live) Ends h live.is_deleting _ _
        (λ deletes. release_project-Sound deps live deletes h)
        (λ lives.
          Every-if (Sound deps live) Ends h (not live.has_finalizer) _ _
            (λ _.
              require-Every (Sound deps live) (λ h' (_ : Unit {0}). Unit {0}) Ends _ h
                (ask add_finalizer ret) (λ h' e. tt)
                (
                  tt,
                  λ r.
                      Leaves-of_ok (λ (h' : ProjectHistory) (_ : Unit {0}). Unit {0})
                        (event add_finalizer r ∷ h) r (λ _ _. tt),
                )
                (λ h' _ _. tt))
            (λ k. provision-Sound lives (ground arith) h))

-- The finalizer goes last, and volumes go only by the policy.
abbrev pub ReleasesProject : ProjectDeps → LiveProject → ProjectHistory → ProjectCall → Type 0
ReleasesProject deps live h remove_finalizer = (live.is_deleting ≡ true) × IsReclaimed deps live h
ReleasesProject deps live h (delete_claim c) =
    (live.is_deleting ≡ true)
    × Discards deps live
    × (cs : List String) × Memᴰ (event list_claims (ok cs)) h
    × Memᴰ c cs
ReleasesProject deps live h _ = Unit

-- Streams and cache resources are tended for a living project alone, and streams only where the routes hold.
abbrev pub TendsProject : ProjectDeps → LiveProject → ProjectHistory → ProjectCall → Type 0
TendsProject deps live h (routing c) =
    (live.is_deleting ≡ false)
    × (live.has_finalizer ≡ true)
    × RoutesHold deps live h
    × (new : NatsHistory) × RouteLaws.Tends live.project live.status.routes new c
TendsProject deps live h (caching c) =
    (live.is_deleting ≡ false) × (live.has_finalizer ≡ true) × CacheTends deps live h c
TendsProject deps live h _ = Unit

-- What a status says is what was confirmed.
abbrev pub WritesProject : ProjectDeps → LiveProject → ProjectHistory → ProjectCall → Type 0
WritesProject deps live h (update_project s) =
    (s.phase ≡ ready → RoutesHold deps live h × ChildrenReady deps live h)
    × RoutesReported deps live h s
    × CachesReported deps live h s
WritesProject deps live h _ = Unit

module _ (deps : ProjectDeps) (live : LiveProject) where
  -- Whatever the services reply, a reconcile removes the finalizer of a project only in its deletion, and
  -- where the reclaim policy is Delete only behind a listing of the volume claims of which each was
  -- deleted or was not found; and it deletes claims only in a deletion, under that policy, and only listed
  -- ones.
  pub reconcile_live_project-ReleasesProject :
      Every (ReleasesProject deps live) Ends [] (reconcile_live_project deps live)
  reconcile_live_project-ReleasesProject =
      Every-policy (Sound deps live) (ReleasesProject deps live) Ends weaker [] _
        (reconcile_live_project-Sound deps live [])
    where
      weaker :
          (h : ProjectHistory) (c : ProjectCall)
          → Sound deps live h c
          → ReleasesProject deps live h c
      weaker h remove_finalizer s = s
      weaker h (delete_claim c) s = s
      weaker h _ s = tt

  -- Whatever the services reply, a reconcile writes the phase Ready only behind a listing of pipelines with
  -- which the project is valid, and where the cluster and the NATS server replied with at least the wanted
  -- number of ready replicas, which is not zero. With a stream manager, the statuses of the routes tell the
  -- replies to their streams, with every stale stream deleted, or else the phase is Degraded and no route
  -- has a status; and with a client for the instances, those of the cache resources are failed or backed by
  -- the confirmed pushes.
  pub reconcile_live_project-WritesProject :
      Every (WritesProject deps live) Ends [] (reconcile_live_project deps live)
  reconcile_live_project-WritesProject =
      Every-policy (Sound deps live) (WritesProject deps live) Ends weaker [] _
        (reconcile_live_project-Sound deps live [])
    where
      weaker :
          (h : ProjectHistory) (c : ProjectCall) → Sound deps live h c → WritesProject deps live h c
      weaker h (update_project s) (l, k, r, o, c) = (r, o, c)
      weaker h _ s = tt
