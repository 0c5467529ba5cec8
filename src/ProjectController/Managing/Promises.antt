-- ===== src/ProjectController/Managing/Promises.antt =====
-- What the calls of a reconcile of a project may do, by what the replies before them confirmed
-- (internal/controller/pipelineproject_controller.go).
use rpc_operator.Prelude.{
  ℕ, ◌≤◌, ◌<◌, String, ◌≡◌, ◌⊎◌, true, false, none, some, List, [], ◌∷◌, Memᴰ, All,
}
use rpc_operator.Effects.{Event}
use rpc_operator.Controller.Calls.{Answer, ok, err, not_found}
use rpc_operator.Project.Types.{NatsSpec}
use rpc_operator.Project.Validate.Valid.{IsValid}
use rpc_operator.ProjectController.Calls.{NatsCall, NatsReply, NatsHistory}
use rpc_operator.ProjectController.Laws as RouteLaws
use rpc_operator.ProjectController.Caches.{CacheCall, list_instances, CacheReply, ready_urls}
use rpc_operator.ProjectController.Caches.Promises as CachePromises
use rpc_operator.ProjectController.Resources.{
  build_project_cluster, project_nats_replicas, project_nats_storage, build_nats_server,
  child_cluster_name,
}
use rpc_operator.ProjectController.Views.{Listed, views_from}
use rpc_operator.ProjectController.Status.{ready, degraded, ProjectStatus, LiveProject}
use rpc_operator.ProjectController.Managing.{
  ProjectCall, remove_finalizer, apply_cluster, apply_nats_server, list_pipelines, routing, caching,
  list_claims, delete_claim, update_project, ProjectReply, ProjectDeps,
}
use rpc_operator.Scheduler.{Pod}

abbrev pub ProjectHistory : Type 0
ProjectHistory = List (Event ProjectCall ProjectReply)

abbrev pub event : (c : ProjectCall) → ProjectReply c → Event ProjectCall ProjectReply
event c r = record { call = c; reply = r }

abbrev pub Stable : (ProjectHistory → Type 0) → Type 0
Stable K = (h : ProjectHistory) (e : Event ProjectCall ProjectReply) → K h → K (e ∷ h)

-- The calls to the NATS server in the whole history.
abbrev pub AsRoutes : NatsHistory → ProjectHistory → Type 0
AsRoutes new h =
    (e : Event NatsCall NatsReply) → Memᴰ e new → Memᴰ (event (routing e.call) e.reply) h

-- The calls for the cache resources in the whole history.
abbrev pub AsCaches : CachePromises.CacheHistory → ProjectHistory → Type 0
AsCaches new h =
    (e : Event CacheCall CacheReply) → Memᴰ e new → Memᴰ (event (caching e.call) e.reply) h

module _ (deps : ProjectDeps) (live : LiveProject) where
  -- The API server listed pipelines with which the project is valid.
  abbrev pub RoutesHold : ProjectHistory → Type 0
  RoutesHold h =
      (pipelines : List Listed) × Memᴰ (event list_pipelines (ok pipelines)) h
      × IsValid deps.parse live.project (views_from deps.codec pipelines [])

  -- Both children were applied, and replied with as many ready replicas as they should have, and some.
  abbrev pub ChildrenReady : ProjectHistory → Type 0
  ChildrenReady h =
      (n : ℕ) × (m : ℕ) × Memᴰ (event (apply_cluster (build_project_cluster live.project)) (ok n)) h
      × Memᴰ
          (event
            (apply_nats_server (
              build_nats_server live.project.name deps.nats_image
                (project_nats_replicas live.project) (project_nats_storage live.project)))
            (ok m))
          h
      × (0 < (build_project_cluster live.project).replicas)
      × ((build_project_cluster live.project).replicas ≤ n)
      × (0 < project_nats_replicas live.project)
      × (project_nats_replicas live.project ≤ m)

  -- The instances of the project's cluster that were listed as ready.
  abbrev pub AreInstances : ProjectHistory → List String → Type 0
  AreInstances h urls =
      (pods : List Pod) × Memᴰ
        (event (caching (list_instances (child_cluster_name live.project.name))) (ok pods)) h
      × (urls ≡ ready_urls (child_cluster_name live.project.name) live.project.namespace pods)

  -- The policy of the project asks for the deletion of its volumes.
  abbrev pub Discards : Type 0
  Discards =
      (nats : NatsSpec) × (live.project.spec.nats ≡ some nats)
      × (nats.storage_reclaim_policy ≡ "Delete")

  -- the deletion of a claim succeeded, or the API server did not find it
  abbrev pub SaysGone : Answer (Unit {0}) → Type 0
  SaysGone (ok _) = Unit
  SaysGone (err e) = e.kind ≡ not_found

  -- A claim that is deleted, or that was gone.
  abbrev pub IsClaimGone : ProjectHistory → String → Type 0
  IsClaimGone h c = (r : Answer (Unit {0})) × Memᴰ (event (delete_claim c) r) h × SaysGone r

  -- The volumes are to be kept, or all that were listed are gone.
  abbrev pub IsReclaimed : ProjectHistory → Type 0
  IsReclaimed h =
      (¬ Discards)
      ⊎ ((cs : List String) × Memᴰ (event list_claims (ok cs)) h × All (IsClaimGone h) cs)

  -- The statuses of the routes are those of the streams, or the routes are not valid.
  abbrev pub RoutesReported : ProjectHistory → ProjectStatus → Type 0
  RoutesReported h s =
      (RoutesHold h
        × (deps.has_streams ≡ true
            → (new : NatsHistory) × AsRoutes new h
              × RouteLaws.Reports live.project live.status.routes live.project.spec.routes s.routes
                  new
              × All (RouteLaws.IsCleared live.project live.status.routes new) live.status.routes))
      ⊎ ((s.phase ≡ degraded) × (s.routes ≡ []))

  -- The statuses of the cache resources are those of the pushes.
  abbrev pub CachesReported : ProjectHistory → ProjectStatus → Type 0
  CachesReported h s =
      deps.has_instances ≡ true
      → (urls : List String) × AreInstances h urls
        × (new : CachePromises.CacheHistory) × AsCaches new h
        × CachePromises.Covers deps.codec live.project urls live.status.cache_resources
            live.project.spec.cache_resources s.cache_resources none new

  abbrev pub CacheTends : ProjectHistory → CacheCall → Type 0
  CacheTends h c =
      (c ≡ list_instances (child_cluster_name live.project.name))
      ⊎ ((urls : List String) × AreInstances h urls
          × (new : CachePromises.CacheHistory) × AsCaches new h
          × CachePromises.Tends deps.codec live.project urls live.status.cache_resources new c)

  -- Everything that is shown of the calls of a reconcile of a project.
  abbrev pub Sound : ProjectHistory → ProjectCall → Type 0
  Sound h remove_finalizer = (live.is_deleting ≡ true) × IsReclaimed h
  Sound h (delete_claim c) =
      (live.is_deleting ≡ true)
      × Discards
      × (cs : List String) × Memᴰ (event list_claims (ok cs)) h
      × Memᴰ c cs
  Sound h (routing c) =
      (live.is_deleting ≡ false)
      × (live.has_finalizer ≡ true)
      × RoutesHold h
      × (new : NatsHistory) × RouteLaws.Tends live.project live.status.routes new c
  Sound h (caching c) = (live.is_deleting ≡ false) × (live.has_finalizer ≡ true) × CacheTends h c
  Sound h (update_project s) =
      (live.is_deleting ≡ false)
      × (live.has_finalizer ≡ true)
      × (s.phase ≡ ready → RoutesHold h × ChildrenReady h)
      × RoutesReported h s
      × CachesReported h s
  Sound h _ = Unit
