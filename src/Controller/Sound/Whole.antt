-- ===== src/Controller/Sound/Whole.antt =====
-- What a whole reconcile of `Reconcile` in internal/controller/pipeline_controller.go does to streams,
-- statuses and the finalizer, whatever the services reply.
use rpc_operator.Prelude.{
  String, ◌≡◌, true, false, not, none, some, ◌==◌, if◌then◌else◌, eq_iff, arith,
}
use rpc_operator.Effects.{Every}
use rpc_operator.Effects.Rules.{Every-if}
use rpc_operator.Controller.Calls.{Pipeline, History, Deps, remove_finalizer, add_finalizer}
use rpc_operator.Controller.Placement.{delete_assigned_stream}
use rpc_operator.Controller.ClusterMode.{
  handle_cluster_assigned, handle_project_assigned, handle_cluster_fallback,
}
use rpc_operator.Controller.PodMode.{run_as_pod}
use rpc_operator.Controller.Reconcile.{finalize, run_pipeline, reconcile_pipeline}
use rpc_operator.Controller.Rules.{
  Anything, Nothing, IfOk-Nothing, attempt-Every, attempt_call-Every,
}
use rpc_operator.Controller.Sound.{Gone, Sound}
use rpc_operator.Controller.Sound.Streams.{delete_assigned_stream-Gone}
use rpc_operator.Controller.Sound.Handlers.{
  handle_cluster_assigned-Sound, handle_project_assigned-Sound,
}
use rpc_operator.Controller.Sound.Pods.{
  handle_cluster_fallback-Sound, handle_stopped-Sound, run_as_pod-Sound,
}

-- a test on a text that fails
empty_text : (s : String) → not (s == "") ≡ false → s ≡ ""
empty_text s e = ground (arith, eq_iff s "")

module _ (deps : Deps) (pipe : Pipeline) where
  finalize-Sound :
      (h : History) → pipe.deleting ≡ true → Every (Sound deps pipe) Anything h (finalize pipe)
  unfolding finalize
  finalize-Sound h deleting =
      Every-if (Sound deps pipe) Anything h pipe.has_finalizer _ _
        (λ _.
          attempt-Every (Sound deps pipe) (Gone pipe) _ h (delete_assigned_stream pipe)
            (delete_assigned_stream-Gone deps pipe h)
            (λ h₁ _ g.
              attempt_call-Every (Sound deps pipe) Nothing remove_finalizer (λ r. r) _ h₁
                (deleting, g) (λ r. IfOk-Nothing h r) (λ h₂ _ _. tt)))
        (λ _. tt)

  run_pipeline-Sound :
      (h : History)
      → pipe.deleting ≡ false
      → pipe.has_finalizer ≡ true
      → Every (Sound deps pipe) Anything h (run_pipeline deps pipe)
  unfolding run_pipeline
  run_pipeline-Sound h live kept =
      Every-if (Sound deps pipe) Anything h pipe.spec.stopped _ _
        (λ _. handle_stopped-Sound deps pipe live h)
        (λ runs.
          elim pipe.spec.project_ref
            as (λ ref. Every (Sound deps pipe) Anything h (elim ref [
              | some project ↦ handle_project_assigned deps pipe project
              | none ↦
                  if not (pipe.spec.cluster_ref == "")
                  then handle_cluster_assigned deps pipe pipe.spec.cluster_ref none
                  else if not (pipe.status.assigned_instance == "")
                  then handle_cluster_fallback deps pipe
                  else run_as_pod deps pipe
            ])) [
              | some project ↦ handle_project_assigned-Sound deps pipe live kept runs project h
              | none ↦
                  Every-if (Sound deps pipe) Anything h (not (pipe.spec.cluster_ref == "")) _ _
                    (λ _. handle_cluster_assigned-Sound deps pipe live kept runs _ none h)
                    (λ _.
                      Every-if (Sound deps pipe) Anything h
                        (not (pipe.status.assigned_instance == "")) _ _
                        (λ _. handle_cluster_fallback-Sound deps pipe live h)
                        (λ u.
                          run_as_pod-Sound deps pipe live runs
                            (empty_text pipe.status.assigned_instance u) h))
            ])

  pub reconcile_pipeline-Sound :
      (h : History) → Every (Sound deps pipe) Anything h (reconcile_pipeline deps pipe)
  unfolding reconcile_pipeline
  reconcile_pipeline-Sound h =
      Every-if (Sound deps pipe) Anything h pipe.deleting _ _
        (λ deleting. finalize-Sound h deleting)
        (λ live.
          Every-if (Sound deps pipe) Anything h (not pipe.has_finalizer) _ _
            (λ _.
              attempt_call-Every (Sound deps pipe) Nothing add_finalizer (λ r. r) _ h tt
                (λ r. IfOk-Nothing h r) (λ h₁ _ _. tt))
            (λ kept. run_pipeline-Sound h live (ground arith)))
