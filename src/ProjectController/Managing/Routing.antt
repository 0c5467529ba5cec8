-- ===== src/ProjectController/Managing/Routing.antt =====
-- The streams and the cache resources as parts of a reconcile of a project.
use rpc_operator.Prelude.{
  String, ◌≡◌, refl, subst, inl, inr, Bool, true, false, none, some, List, [], ◌∷◌, Memᴰ,
}
use rpc_operator.Effects.{ret, translate, Every}
use rpc_operator.Effects.Parts.{Every-translate}
use rpc_operator.Controller.Calls.{Answer, ok, err, on_answer}
use rpc_operator.Scheduler.{Pod}
use rpc_operator.Project.Validate.Laws.{validate_project-IsValid}
use rpc_operator.Project.Validate.Messages.{validate_project-Speaks}
use rpc_operator.ProjectController.Calls.{NatsCall, NatsReply, NatsHistory, RouteOutcome}
use rpc_operator.ProjectController.Routes.{reconcile_route_streams}
use rpc_operator.ProjectController.Laws.{reconcile_route_streams-Settles}
use rpc_operator.ProjectController.Laws as RouteLaws
use rpc_operator.ProjectController.Caches.{
  CacheCall, list_instances, CacheReply, CacheOutcome, ready_urls, sync_caches,
  reconcile_cache_resources, prefixed,
}
use rpc_operator.ProjectController.Caches.Laws.{sync_caches-Reports}
use rpc_operator.ProjectController.Caches.Promises as CachePromises
use rpc_operator.ProjectController.Resources.{child_cluster_name}
use rpc_operator.ProjectController.Views.{Listed, views_from, route_error_of}
use rpc_operator.ProjectController.Views.Laws.{first_message-nil}
use rpc_operator.ProjectController.Status.{LiveProject}
use rpc_operator.ProjectController.Managing.{
  list_pipelines, routing, caching, ProjectReply, ProjectDeps,
}
use rpc_operator.ProjectController.Managing.Promises.{
  ProjectHistory, event, Stable, AsRoutes, AsCaches, RoutesHold, AreInstances, Sound,
}

AsRoutes-grow :
    (new : NatsHistory) (h : ProjectHistory) (c : NatsCall) (r : NatsReply c)
    → AsRoutes new h
    → AsRoutes (record { call = c; reply = r } ∷ new) (event (routing c) r ∷ h)
AsRoutes-grow new h c r within e (Memᴰ.head same) = Memᴰ.head (rw same refl)
AsRoutes-grow new h c r within e (Memᴰ.tail m) = Memᴰ.tail (within e m)

AsCaches-grow :
    (new : CachePromises.CacheHistory) (h : ProjectHistory) (c : CacheCall) (r : CacheReply c)
    → AsCaches new h
    → AsCaches (record { call = c; reply = r } ∷ new) (event (caching c) r ∷ h)
AsCaches-grow new h c r within e (Memᴰ.head same) = Memᴰ.head (rw same refl)
AsCaches-grow new h c r within e (Memᴰ.tail m) = Memᴰ.tail (within e m)

module _ (deps : ProjectDeps) (live : LiveProject) where
  -- A listing behind which no violation is found is one with which the project is valid.
  pub listed-RoutesHold :
      (pipelines : List Listed) (h : ProjectHistory)
      → Memᴰ (event list_pipelines (ok pipelines)) h
      → route_error_of deps.codec deps.parse live.project pipelines ≡ ""
      → RoutesHold deps live h
  unfolding route_error_of
  listed-RoutesHold pipelines h m e =
      let views = views_from deps.codec pipelines [] in
      (
        pipelines,
        m,
        (validate_project-IsValid deps.parse live.project views).0
            (first_message-nil _ (validate_project-Speaks deps.parse live.project views) e),
      )

  module _ (K : ProjectHistory → Type 0) (stable : Stable K) (lives : live.is_deleting ≡ false)
      (kept : live.has_finalizer ≡ true) where
    -- what is known behind the streams
    abbrev pub Streamed : ProjectHistory → RouteOutcome → Type 0
    Streamed h out =
        K h
        × (deps.has_streams ≡ true
            → (new : NatsHistory) × AsRoutes new h
              × RouteLaws.Settles live.project live.status.routes new out)

    pub streams-Streamed :
        (holds : (h : ProjectHistory) → K h → RoutesHold deps live h) (h : ProjectHistory)
        → K h
        → Every (Sound deps live) Streamed h (
            translate {R' = ProjectReply} routing
              (λ c r. r)
              (reconcile_route_streams live.project deps.has_streams live.status.routes))
    unfolding reconcile_route_streams
    streams-Streamed holds h k = by_wired deps.has_streams refl
      where
        by_wired :
            (b : Bool)
            → deps.has_streams ≡ b
            → Every (Sound deps live) Streamed h (
                translate {R' = ProjectReply} routing
                  (λ c r. r)
                  (reconcile_route_streams live.project b live.status.routes))
        by_wired true wired =
            Every-translate routing (λ c r. r) (λ new h'. K h' × AsRoutes new h')
              (RouteLaws.Tends live.project live.status.routes) (Sound deps live)
              (RouteLaws.Settles live.project live.status.routes) Streamed
              (λ new h' c r p. (stable h' (event (routing c) r) p.0, AsRoutes-grow new h' c r p.1))
              (λ new h' c p t. (lives, kept, holds h' p.0, new, t))
              (λ new h' out p s. (p.0, λ _. (new, p.1, s))) [] h
              (reconcile_route_streams live.project true live.status.routes) (k, λ e m. elim m [ ])
              (reconcile_route_streams-Settles live.project live.status.routes)
        by_wired false unwired = (k, λ w. cc (w, unwired))

    -- what is known behind the cache resources
    abbrev pub Cached : ProjectHistory → CacheOutcome → Type 0
    Cached h out =
        K h
        × (deps.has_instances ≡ true
            → out.failure ≡ none
            → (urls : List String) × AreInstances deps live h urls
              × (new : CachePromises.CacheHistory) × AsCaches new h
              × CachePromises.Covers deps.codec live.project urls live.status.cache_resources
                  live.project.spec.cache_resources out.statuses none new)

    pub caches-Cached :
        (h : ProjectHistory)
        → K h
        → Every (Sound deps live) Cached h (
            translate {R' = ProjectReply} caching
              (λ c r. r)
              (reconcile_cache_resources deps.codec live.project deps.has_instances
                live.status.cache_resources))
    unfolding reconcile_cache_resources child_cluster_name
    caches-Cached h k = by_wired deps.has_instances refl
      where
        cluster : String
        cluster = child_cluster_name live.project.name

        synced :
            (pods : List Pod)
            → Every
                (Sound deps live)
                Cached
                (event (caching (list_instances cluster)) (ok pods) ∷ h)
                (translate {R' = ProjectReply} caching
                  (λ c r. r)
                  (sync_caches deps.codec live.project
                    (ready_urls cluster live.project.namespace pods)
                    live.status.cache_resources))
        synced pods =
            Every-translate caching (λ c r. r)
              (λ new h'.
                K h'
                × AreInstances deps live h' (ready_urls cluster live.project.namespace pods)
                × AsCaches new h')
              (CachePromises.Tends deps.codec live.project
                (ready_urls cluster live.project.namespace pods) live.status.cache_resources)
              (Sound deps live)
              (CachePromises.Reports deps.codec live.project
                (ready_urls cluster live.project.namespace pods) live.status.cache_resources)
              Cached
              (λ new h' c r p. (
                stable h' (event (caching c) r) p.0,
                (p.1.0, Memᴰ.tail p.1.1, p.1.2),
                AsCaches-grow new h' c r p.2,
              ))
              (λ new h' c p t. (
                lives,
                kept,
                inr (ready_urls cluster live.project.namespace pods, p.1, new, p.2, t),
              ))
              (λ new h' out p s. (
                p.0,
                λ _ fine. (
                  ready_urls cluster live.project.namespace pods,
                  p.1,
                  new,
                  p.2,
                  subst
                      (λ f.
                        CachePromises.Covers deps.codec live.project
                          (ready_urls cluster live.project.namespace pods)
                          live.status.cache_resources live.project.spec.cache_resources out.statuses
                          f new)
                      fine s,
                ),
              ))
              [] _
              (sync_caches deps.codec live.project (ready_urls cluster live.project.namespace pods)
                live.status.cache_resources)
              (stable h _ k, (pods, Memᴰ.head refl, refl), λ e m. elim m [ ])
              (sync_caches-Reports deps.codec live.project
                (ready_urls cluster live.project.namespace pods) live.status.cache_resources)

        by_list :
            (r : Answer (List Pod))
            → Every (Sound deps live) Cached (event (caching (list_instances cluster)) r ∷ h) (
                translate {R' = ProjectReply} caching
                  (λ c r'. r')
                  (on_answer r
                    (λ pods.
                      sync_caches deps.codec live.project
                        (ready_urls cluster live.project.namespace pods)
                        live.status.cache_resources)
                    (λ e. ret (record {
                      statuses = [];
                      failure = some (prefixed "list cluster instances" e);
                    }))))
        by_list (ok pods) = synced pods
        by_list (err e) = (stable h _ k, λ _ fine. cc fine)

        by_wired :
            (b : Bool)
            → deps.has_instances ≡ b
            → Every (Sound deps live) Cached h (
                translate {R' = ProjectReply} caching
                  (λ c r. r)
                  (reconcile_cache_resources deps.codec live.project b live.status.cache_resources))
        by_wired true wired = ((lives, kept, inl refl), by_list)
        by_wired false unwired = (k, λ w. cc (w, unwired))
