-- ===== src/ProjectController/Managing.antt =====
-- `Reconcile` and cleanupForDelete of internal/controller/pipelineproject_controller.go: the order in
-- which a project's objects, streams and cache resources are brought about, and its deletion.
pub mod Promises
mod Deletion
mod Routing
mod Writing
pub mod Laws
mod Tests
use rpc_operator.Prelude.{
  ℕ, String, Bool, true, false, not, ◌&&◌, Option, none, some, List, [], ◌∷◌, ◌==◌, if◌then◌else◌,
}
use rpc_operator.Effects.{Prog, ret, ask, ◌>>=◌, translate, Event}
use rpc_operator.Api.Conditions.{ConditionOps}
use rpc_operator.Controller.Calls.{
  Answer, ok, err, Error, is_not_found, is_conflict, on_answer, no_requeue, requeue_now, Outcome,
  done, failed,
}
use rpc_operator.Controller.Steps.{require}
use rpc_operator.Project.Types.{NatsSpec, Project}
use rpc_operator.Render.Document.{Codec}
use rpc_operator.ProjectController.Calls.{NatsCall, NatsReply, RouteStatus, RouteOutcome}
use rpc_operator.ProjectController.Routes.{reconcile_route_streams}
use rpc_operator.ProjectController.Caches.{
  CacheCall, CacheReply, CacheStatus, CacheOutcome, reconcile_cache_resources,
}
use rpc_operator.ProjectController.Resources.{
  ChildCluster, build_project_cluster, project_nats_replicas, project_nats_storage,
  nats_server_config, NatsServer, build_nats_server, child_cluster_name, child_nats_name,
}
use rpc_operator.ProjectController.Views.{Listed, route_error_of}
use rpc_operator.ProjectController.Status.{
  ChildStatus, ProjectStatus, LiveProject, Findings, project_status_changed, project_status_of,
}

-- What the controller asks of the API server, of the NATS server and of the instances. Its objects and
-- lists are those of the project's namespace; a claim is given by its name, and an object that is
-- applied replies with its count of ready replicas.
pub data ProjectCall : Type 0 where
  get_project : ProjectCall
  add_finalizer : ProjectCall
  remove_finalizer : ProjectCall
  apply_cluster : ChildCluster → ProjectCall
  apply_nats_config : String → ProjectCall
  apply_nats_service : ProjectCall
  apply_nats_server : NatsServer → ProjectCall
  list_pipelines : ProjectCall
  warn : String → ProjectCall
  routing : NatsCall → ProjectCall
  caching : CacheCall → ProjectCall
  list_claims : ProjectCall
  delete_claim : String → ProjectCall
  update_project : ProjectStatus → ProjectCall

abbrev pub ProjectReply : ProjectCall → Type 0
ProjectReply get_project = Answer LiveProject
ProjectReply (apply_cluster _) = Answer ℕ
ProjectReply (apply_nats_server _) = Answer ℕ
ProjectReply list_pipelines = Answer (List Listed)
ProjectReply (warn _) = Unit {0}
ProjectReply (routing c) = NatsReply c
ProjectReply (caching c) = CacheReply c
ProjectReply list_claims = Answer (List String)
ProjectReply _ = Answer (Unit {0})

abbrev pub Managing : Type 0 → Type 0
Managing A = Prog ProjectCall ProjectReply A

-- What the controller is built with: the condition lists, YAML and JSON, the parser of Bloblang, the
-- image of the NATS server, and whether there is a stream manager, a client for the instances and a
-- recorder of events.
pub record ProjectDeps : Type 0 where
  pub conditions : ConditionOps
  pub codec : Codec
  pub parse : String → Option String
  pub nats_image : String
  pub has_streams : Bool
  pub has_instances : Bool
  pub has_recorder : Bool

-- `if err != nil && !apierrors.IsNotFound(err)`
abbrev pub was_deleted : Answer (Unit {0}) → Answer (Unit {0})
was_deleted (ok u) = ok u
was_deleted (err e) = if is_not_found e then ok tt else err e

-- the loop over the claims
unfoldable pub delete_claims : List String → Managing (Answer (Unit {0}))
delete_claims [] = ret (ok tt)
delete_claims (c ∷ cs) =
    ask (delete_claim c) λ r. on_answer (was_deleted r) (λ _. delete_claims cs) (λ e. ret (err e))

abbrev pub reclaim_policy : Option NatsSpec → String
reclaim_policy none = "Retain"
reclaim_policy (some nats) =
    if nats.storage_reclaim_policy == "" then "Retain" else nats.storage_reclaim_policy

-- cleanupForDelete
unfoldable pub cleanup_for_delete : Project → Managing (Answer (Unit {0}))
cleanup_for_delete project =
    if not (reclaim_policy project.spec.nats == "Delete")
    then ret (ok tt)
    else ask list_claims λ r. on_answer r delete_claims (λ e. ret (err e))

-- the deletion path
unfoldable pub release_project : LiveProject → Managing Outcome
release_project live =
    if live.has_finalizer
    then require (cleanup_for_delete live.project)
        (λ _. require (ask remove_finalizer ret) (λ _. ret (done no_requeue)))
    else ret (done no_requeue)

abbrev pub route_answer : RouteOutcome → Answer (Option (List RouteStatus))
route_answer out = elim out.failure [ none ↦ ok (some out.statuses) | some e ↦ err e ]

abbrev pub cache_answer : CacheOutcome → Answer (Option (List CacheStatus))
cache_answer out = elim out.failure [ none ↦ ok (some out.statuses) | some e ↦ err e ]

-- the reply to the status update: a conflict requeues
abbrev pub after_project_update : Answer (Unit {0}) → Managing Outcome
after_project_update (ok u) = ret (done no_requeue)
after_project_update (err e) = if is_conflict e then ret (done requeue_now) else ret (failed e)

module _ (deps : ProjectDeps) where
  -- the event, where there is a violation and a recorder
  unfoldable pub warn_routes : String → Managing (Unit {0})
  warn_routes route_error =
      if not (route_error == "") && deps.has_recorder
      then ask (warn route_error) (λ _. ret tt)
      else ret tt

  -- the streams, where there is no violation
  unfoldable pub manage_routes :
      LiveProject → String → Managing (Answer (Option (List RouteStatus)))
  manage_routes live route_error =
      if route_error == ""
      then (translate {R' = ProjectReply} routing (λ c r. r)
            (reconcile_route_streams live.project deps.has_streams live.status.routes)
          >>= λ out. ret (route_answer out))
      else ret (ok none)

  unfoldable pub manage_caches : LiveProject → Managing (Answer (Option (List CacheStatus)))
  manage_caches live =
      translate {R' = ProjectReply} caching (λ c r. r)
        (reconcile_cache_resources deps.codec live.project deps.has_instances
          live.status.cache_resources)
      >>= λ out. ret (cache_answer out)

  unfoldable pub write_project_status : LiveProject → Findings → Managing Outcome
  write_project_status live f =
      if project_status_changed deps.conditions live f
      then ask (update_project (project_status_of deps.conditions live f)) after_project_update
      else ret (done no_requeue)

  -- what follows the objects: routes, cache resources and the status
  unfoldable pub manage : LiveProject → ChildStatus → ChildStatus → List Listed → Managing Outcome
  manage live cluster nats pipelines =
      let route_error = route_error_of deps.codec deps.parse live.project pipelines in
      warn_routes route_error >>= λ _. require (manage_routes live route_error) λ routes.
        require (manage_caches live) λ caches. write_project_status live (record {
          route_error = route_error;
          cluster = cluster;
          nats = nats;
          routes = routes;
          cache_resources = caches;
          caches_kept = not deps.has_instances;
        })

  -- the cluster, the ConfigMap, the Service and the StatefulSet, in this order
  unfoldable pub provision : LiveProject → Managing Outcome
  provision live =
      let project = live.project in
      let replicas = project_nats_replicas project in
      require (ask (apply_cluster (build_project_cluster project)) ret) λ cluster_ready.
        require (ask (apply_nats_config (nats_server_config project.name replicas)) ret) λ _.
          require (ask apply_nats_service ret) λ _.
            require
              (ask
                (apply_nats_server (
                  build_nats_server project.name deps.nats_image replicas
                    (project_nats_storage project)))
                ret)
              λ nats_ready. require (ask list_pipelines ret) (
                manage live
                  (record {
                    name = child_cluster_name project.name;
                    ready = cluster_ready;
                    total = (build_project_cluster project).replicas;
                  })
                  (record {
                    name = child_nats_name project.name;
                    ready = nats_ready;
                    total = replicas;
                  }))

  unfoldable pub reconcile_live_project : LiveProject → Managing Outcome
  reconcile_live_project live =
      if live.is_deleting
      then release_project live
      else if not live.has_finalizer
      then require (ask add_finalizer ret) (λ _. ret (done requeue_now))
      else provision live

  unfoldable pub reconcile_project : Managing Outcome
  reconcile_project = ask get_project λ r.
      on_answer r reconcile_live_project
        (λ e. if is_not_found e then ret (done no_requeue) else ret (failed e))
