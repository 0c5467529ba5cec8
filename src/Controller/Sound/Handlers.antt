-- ===== src/Controller/Sound/Handlers.antt =====
-- The handlers of ClusterMode.antt, from the lookup of the cluster or the project, under the policy.
use Prim.Native.String
use rpc_operator.Prelude.{String, ◌≡◌, true, false, Option, ◌∷◌, if◌then◌else◌}
use rpc_operator.Prelude.Quote.{quote}
use rpc_operator.Effects.{ret, Every}
use rpc_operator.Effects.Rules.{Every-if}
use rpc_operator.Project.Types.{Project}
use rpc_operator.Render.ProjectRewrite.{ProjectIoPlan}
use rpc_operator.Controller.Calls
use rpc_operator.Controller.Calls.{
  Pipeline, Call, Reply, Act, Answer, ok, err, Error, History, Outcome, Deps, on_answer,
  is_not_found, call, attempt, no_requeue, requeue_now, after_resync, get_cluster, get_project,
  list_pods, list_pipelines, update_status,
}
use rpc_operator.Controller.Status.{mark_cluster_failed}
use rpc_operator.Controller.Placement.{delete_pod_mode_children, migrate_from_old_cluster}
use rpc_operator.Controller.ClusterMode.{
  assign_to_cluster, handle_cluster_assigned, assign_to_project, handle_project_assigned,
}
use rpc_operator.Controller.Rules.{
  Anything, IfOk-always, Nothing, event, attempt-Every, attempt_call-Every,
}
use rpc_operator.Controller.Sound.{Settled, Settled-later, Sound}
use rpc_operator.Controller.Sound.Writes.{mark_cluster_failed-Sound}
use rpc_operator.Controller.Sound.Streams.{
  delete_pod_mode_children-Sound, migrate_from_old_cluster-Settled,
}
use rpc_operator.Controller.Sound.Assigned.{schedule-Sound}

module _ (deps : Deps) (pipe : Pipeline) (live : pipe.deleting ≡ false)
    (kept : pipe.has_finalizer ≡ true) (runs : pipe.spec.stopped ≡ false) where
  assign_to_cluster-Sound :
      (cluster : String) (io_plan : Option ProjectIoPlan) (h : History)
      → Every (Sound deps pipe) Anything h (assign_to_cluster deps pipe cluster io_plan)
  unfolding assign_to_cluster
  assign_to_cluster-Sound cluster io_plan h =
      attempt-Every (Sound deps pipe) Nothing _ h delete_pod_mode_children
        (delete_pod_mode_children-Sound deps pipe h)
        λ h₁ _ _.
          attempt-Every (Sound deps pipe) (Settled pipe cluster) _ h₁
            (migrate_from_old_cluster pipe cluster)
            (migrate_from_old_cluster-Settled deps pipe cluster h₁)
            λ h₂ _ s.
              attempt_call-Every (Sound deps pipe) (Settled pipe cluster) (list_pods cluster)
                (λ r. r) _ h₂ tt
                (λ r. IfOk-always (Settled pipe cluster) _ r (Settled-later pipe cluster h₂ _ s))
                λ h₃ pods s'.
                  attempt_call-Every (Sound deps pipe) (Settled pipe cluster) list_pipelines
                    (λ r. r) _ h₃ tt
                    (λ r.
                      IfOk-always (Settled pipe cluster) _ r (Settled-later pipe cluster h₃ _ s'))
                    λ h₄ pipelines s''.
                      schedule-Sound deps pipe live kept runs cluster io_plan pods pipelines h₄ s''

  pub handle_cluster_assigned-Sound :
      (cluster : String) (io_plan : Option ProjectIoPlan) (h : History)
      → Every (Sound deps pipe) Anything h (handle_cluster_assigned deps pipe cluster io_plan)
  unfolding handle_cluster_assigned
  handle_cluster_assigned-Sound cluster io_plan h = (tt, by_reply)
    where
      by_reply :
          (r : Answer (Unit {0}))
          → Every (Sound deps pipe) Anything (event (get_cluster cluster) r ∷ h) (
              on_answer r
                (λ _. assign_to_cluster deps pipe cluster io_plan)
                (λ e.
                  if is_not_found e
                  then mark_cluster_failed deps pipe "ClusterNotFound"
                      (String.◌++◌ "PipelineCluster " (String.◌++◌ (quote cluster) " not found"))
                      after_resync
                  else ret (Calls.failed e)))
      by_reply (ok u) = assign_to_cluster-Sound cluster io_plan _
      by_reply (err e) =
          Every-if (Sound deps pipe) Anything _ (is_not_found e) _ _
            (λ _. mark_cluster_failed-Sound deps pipe live runs _ _ _ _) (λ _. tt)

  pub handle_project_assigned-Sound :
      (project : String) (h : History)
      → Every (Sound deps pipe) Anything h (handle_project_assigned deps pipe project)
  unfolding handle_project_assigned assign_to_project
  handle_project_assigned-Sound project h = (tt, by_reply)
    where
      by_reply :
          (r : Answer Project)
          → Every (Sound deps pipe) Anything (event (get_project project) r ∷ h) (
              on_answer r
                (λ found. assign_to_project deps pipe found)
                (λ e.
                  if is_not_found e
                  then mark_cluster_failed deps pipe "ProjectNotFound"
                      (String.◌++◌ "PipelineProject " (String.◌++◌ (quote project) " not found"))
                      no_requeue
                  else ret (Calls.failed e)))
      by_reply (ok found) = handle_cluster_assigned-Sound _ _ _
      by_reply (err e) =
          Every-if (Sound deps pipe) Anything _ (is_not_found e) _ _
            (λ _. mark_cluster_failed-Sound deps pipe live runs _ _ _ _) (λ _. tt)
