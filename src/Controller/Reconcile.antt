-- ===== src/Controller/Reconcile.antt =====
-- `Reconcile` of internal/controller/pipeline_controller.go: which mode a pipeline is in.
use rpc_operator.Prelude.{not, none, some, ◌==◌, if◌then◌else◌}
use rpc_operator.Effects.{ret, ask}
use rpc_operator.Controller.Calls.{
  Pipeline, get_pipeline, add_finalizer, remove_finalizer, Act, call, is_not_found, on_answer,
  no_requeue, requeue_now, Outcome, done, failed, attempt, Deps,
}
use rpc_operator.Controller.Placement.{delete_assigned_stream}
use rpc_operator.Controller.ClusterMode.{
  handle_cluster_assigned, handle_project_assigned, handle_cluster_fallback,
}
use rpc_operator.Controller.PodMode.{run_as_pod, handle_stopped}

-- the deletion path: the stream goes before the finalizer
unfoldable pub finalize : Pipeline → Act Outcome
finalize pipe =
    if pipe.has_finalizer
    then attempt (delete_assigned_stream pipe)
        (λ _. attempt (call remove_finalizer) (λ _. ret (done no_requeue)))
    else ret (done no_requeue)

module _ (deps : Deps) where
  -- behind the finalizer: stopped, in a project, in a cluster, out of a cluster, or a pod
  unfoldable pub run_pipeline : Pipeline → Act Outcome
  run_pipeline pipe =
      if pipe.spec.stopped then handle_stopped deps pipe else elim pipe.spec.project_ref [
        | some project ↦ handle_project_assigned deps pipe project
        | none ↦
            if not (pipe.spec.cluster_ref == "")
            then handle_cluster_assigned deps pipe pipe.spec.cluster_ref none
            else if not (pipe.status.assigned_instance == "")
            then handle_cluster_fallback deps pipe
            else run_as_pod deps pipe
      ]

  unfoldable pub reconcile_pipeline : Pipeline → Act Outcome
  reconcile_pipeline pipe =
      if pipe.deleting
      then finalize pipe
      else if not pipe.has_finalizer
      then attempt (call add_finalizer) (λ _. ret (done requeue_now))
      else run_pipeline pipe

  unfoldable pub reconcile : Act Outcome
  reconcile = ask get_pipeline λ r.
      on_answer r reconcile_pipeline
        (λ e. if is_not_found e then ret (done no_requeue) else ret (failed e))
