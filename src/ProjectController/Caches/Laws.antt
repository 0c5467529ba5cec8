-- ===== src/ProjectController/Caches/Laws.antt =====
-- reconcileCacheResources of internal/controller/pipelineproject_caches.go, both loops.
use rpc_operator.Prelude.{String, ◌≡◌, refl, subst, Option, none, some, List, []}
use rpc_operator.Effects
use rpc_operator.Effects.{ret, ask, Event, Every}
use rpc_operator.Effects.Rules.{Every-bind}
use rpc_operator.Controller.Calls.{Error}
use rpc_operator.Project.Types.{Project}
use rpc_operator.Render.Document.{Codec}
use rpc_operator.ProjectController.Caches.{
  CacheStatus, CacheOutcome, ensure_caches, tear_down, sync_caches,
}
use rpc_operator.ProjectController.Caches.Promises.{
  CacheHistory, Tends, Covers, Reports, Covers-later, Covers-complete,
}
use rpc_operator.ProjectController.Caches.Pushes.{CoversAnd, ensure_caches-Covers}
use rpc_operator.ProjectController.Caches.Removals.{tear_down-keeps}

module _ (codec : Codec) (project : Project) (urls : List String) (olds : List CacheStatus) where
  -- Behind the listing of the ready instances, and whatever the services reply: a resource of the project is
  -- pushed only to these instances, and only where its bucket, if it is a managed one, was confirmed; an
  -- entry or a bucket is removed only where the last statuses name it and no resource of the project
  -- has its name. There is one status for each resource in order, fewer only with an error, and each is
  -- failed, or its bucket was confirmed and every instance took the resource.
  pub sync_caches-Reports :
      Every
        (Tends codec project urls olds)
        (Reports codec project urls olds)
        []
        (sync_caches codec project urls olds)
  unfolding sync_caches
  sync_caches-Reports =
      Every-bind (Tends codec project urls olds)
        (CoversAnd codec project urls olds (λ h. Unit) project.spec.cache_resources)
        (Reports codec project urls olds) _ []
        (ensure_caches codec project urls project.spec.cache_resources)
        (ensure_caches-Covers codec project urls olds project.spec.cache_resources (λ h. Unit)
          (λ h e k. tt) [] (λ cr m. m) tt)
        (λ h out c. by_failure out out.failure refl h c.1)
    where
      by_failure :
          (out : CacheOutcome) (failure : Option Error)
          → out.failure ≡ failure
          → (h : CacheHistory)
          → Covers codec project urls olds project.spec.cache_resources out.statuses out.failure h
          → Every
              (Tends codec project urls olds)
              (Reports codec project urls olds)
              h
              (elim failure [
                | some e ↦ ret out
                | none ↦
                    Effects.◌>>=◌
                      (tear_down codec project urls olds)
                      (λ f. ret (record { statuses = out.statuses; failure = f }))
              ])
      by_failure out (some e) same h c = c
      by_failure out none same h c =
          let covered : Covers codec project urls olds project.spec.cache_resources out.statuses
              none h =
            subst
              (λ f. Covers codec project urls olds project.spec.cache_resources out.statuses f h)
              same c in
          Every-bind (Tends codec project urls olds)
            (λ h' _.
              Covers codec project urls olds project.spec.cache_resources out.statuses none h')
            (Reports codec project urls olds) _ h (tear_down codec project urls olds)
            (tear_down-keeps codec project urls olds
              (Covers codec project urls olds project.spec.cache_resources out.statuses none)
              (Covers-later codec project urls olds project.spec.cache_resources out.statuses none)
              olds h (λ o m. m) covered)
            (λ h' failure' c'.
              Covers-complete codec project urls olds project.spec.cache_resources out.statuses
                failure' h' c')
