-- ===== src/Controller/Sound/Pods.antt =====
-- Fallback out of a cluster, stopped pipelines and the single-pod mode under the policy.
use rpc_operator.Prelude.{String, ◌≡◌, inl, inr, refl, false, ◌==◌}
use rpc_operator.Fallible
use rpc_operator.Effects.{ret, ask, Every}
use rpc_operator.Effects.Rules.{Every-if}
use rpc_operator.Render.Document.{render_pipeline_yaml}
use rpc_operator.Controller.Calls
use rpc_operator.Controller.Calls.{
  Pipeline, Call, Reply, Act, Answer, ok, err, Error, History, Outcome, Deps, LivePod, on_answer,
  is_not_found, call, attempt, no_requeue, requeue_now, done, delete_pod, apply_config_map, get_pod,
  apply_pod, apply_pod_monitor, update_status, ignore_not_found, ignore_no_match,
}
use rpc_operator.Controller.Status.{mark_failed}
use rpc_operator.Controller.Placement.{delete_assigned_stream}
use rpc_operator.Controller.ClusterMode.{handle_cluster_fallback}
use rpc_operator.Controller.PodMode.{
  handle_stopped, stopped_status, stopped_status_changed, run_as_pod, replace_stale_pod,
  apply_children, write_pod_status, spec_hash, pod_template, pod_status_changed, derive_phase,
  derive_condition,
}
use rpc_operator.Controller.Rules.{
  Anything, IfOk-always, IfOk-Nothing, Nothing, attempt-Every, attempt_call-Every,
}
use rpc_operator.Controller.Sound.{Gone, Gone-later, Sound}
use rpc_operator.Controller.Sound.Writes.{after_update-Every}
use rpc_operator.Controller.Sound.Streams.{delete_assigned_stream-Gone}

module _ (deps : Deps) (pipe : Pipeline) (live : pipe.deleting ≡ false) where
  pub handle_cluster_fallback-Sound :
      (h : History) → Every (Sound deps pipe) Anything h (handle_cluster_fallback deps pipe)
  unfolding handle_cluster_fallback
  handle_cluster_fallback-Sound h =
      attempt-Every (Sound deps pipe) (Gone pipe) _ h (delete_assigned_stream pipe)
        (delete_assigned_stream-Gone deps pipe h)
        (λ h₁ _ g. ((live, inl refl, λ _. g), λ r. after_update-Every (Sound deps pipe) _ _ r))

  pub handle_stopped-Sound :
      (h : History) → Every (Sound deps pipe) Anything h (handle_stopped deps pipe)
  unfolding handle_stopped stopped_status
  handle_stopped-Sound h =
      attempt-Every (Sound deps pipe) (Gone pipe) _ h (delete_assigned_stream pipe)
        (delete_assigned_stream-Gone deps pipe h)
        (λ h₁ _ g.
          attempt_call-Every (Sound deps pipe) (Gone pipe) delete_pod ignore_not_found _ h₁ tt
            (λ r. IfOk-always (Gone pipe) _ (ignore_not_found r) (Gone-later pipe h₁ _ g))
            (λ h₂ _ g'.
              Every-if (Sound deps pipe) Anything h₂ (stopped_status_changed deps pipe) _ _
                (λ _. ((live, inl refl, λ _. g'), λ r. after_update-Every (Sound deps pipe) _ _ r))
                (λ _. tt)))

  module _ (runs : pipe.spec.stopped ≡ false) (unplaced : pipe.status.assigned_instance ≡ "") where
    no_stream : (h : History) → Gone pipe h
    no_stream h = inr (inl unplaced)

    mark_failed-Sound :
        (reason message : String) (h : History)
        → Every (Sound deps pipe) Anything h (mark_failed deps pipe reason message)
    unfolding mark_failed
    mark_failed-Sound reason message h = ((live, inl unplaced, λ _. no_stream h), λ r. by_reply _ r)
      where
        by_reply :
            (h' : History) (r : Answer (Unit {0}))
            → Every
                (Sound deps pipe)
                Anything
                h'
                (on_answer r (λ _. ret (done no_requeue)) (λ e. ret (Calls.failed e)))
        by_reply h' (ok u) = tt
        by_reply h' (err e) = tt

    write_pod_status-Sound :
        (pod : LivePod) (h : History)
        → Every (Sound deps pipe) Anything h (write_pod_status deps pipe pod)
    unfolding write_pod_status
    write_pod_status-Sound pod h =
        Every-if (Sound deps pipe) Anything h
          (pod_status_changed deps pipe (derive_phase pod)
            (derive_condition pod (derive_phase pod)))
          _ _
          (λ _. (
            (live, inl unplaced, λ _. no_stream h),
            λ r. after_update-Every (Sound deps pipe) _ no_requeue r,
          ))
          (λ _. tt)

    apply_children-Sound :
        (hash : String) (h : History)
        → Every (Sound deps pipe) Anything h (apply_children deps pipe hash)
    unfolding apply_children
    apply_children-Sound hash h =
        attempt_call-Every (Sound deps pipe) Nothing (apply_pod (pod_template deps pipe hash))
          (λ r. r) _ h (runs, no_stream h) (λ r. IfOk-Nothing h r)
          (λ h₁ pod _.
            attempt_call-Every (Sound deps pipe) Nothing apply_pod_monitor ignore_no_match _ h₁ tt
              (λ r. IfOk-Nothing h (ignore_no_match r)) (λ h₂ _ _. write_pod_status-Sound pod h₂))

    replace_stale_pod-Sound :
        (hash : String) (h : History) (r : Answer LivePod)
        → Every (Sound deps pipe) Anything h (replace_stale_pod deps pipe hash r)
    unfolding replace_stale_pod
    replace_stale_pod-Sound hash h (ok pod) =
        Every-if (Sound deps pipe) Anything h (pod.spec_hash == hash) _ _
          (λ _. apply_children-Sound hash h)
          (λ _.
            attempt_call-Every (Sound deps pipe) Nothing delete_pod ignore_not_found _ h tt
              (λ r. IfOk-Nothing h (ignore_not_found r)) (λ h₁ _ _. tt))
    replace_stale_pod-Sound hash h (err e) =
        Every-if (Sound deps pipe) Anything h (is_not_found e) _ _
          (λ _. apply_children-Sound hash h) (λ _. tt)

    pub run_as_pod-Sound : (h : History) → Every (Sound deps pipe) Anything h (run_as_pod deps pipe)
    unfolding run_as_pod
    run_as_pod-Sound h =
        elim (render_pipeline_yaml deps.codec pipe.spec)
          as (λ rendered. Every (Sound deps pipe) Anything h (elim rendered [
            | Fallible.err e ↦ mark_failed deps pipe "RenderError" e
            | Fallible.ok yaml ↦
                attempt (call (apply_config_map yaml))
                  λ _. ask get_pod (replace_stale_pod deps pipe (spec_hash deps pipe yaml))
          ])) [
            | Fallible.err e ↦ mark_failed-Sound "RenderError" e h
            | Fallible.ok yaml ↦
                attempt_call-Every (Sound deps pipe) Nothing (apply_config_map yaml) (λ r. r) _ h tt
                  (λ r. IfOk-Nothing h r)
                  (λ h₁ _ _. (tt, λ r. replace_stale_pod-Sound (spec_hash deps pipe yaml) _ r))
          ]
