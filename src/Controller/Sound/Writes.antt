-- ===== src/Controller/Sound/Writes.antt =====
-- Status writes of Status.antt under the policy.
use rpc_operator.Prelude.{String, ◌≡◌, refl, inl, false}
use rpc_operator.Effects.{ret, Every}
use rpc_operator.Effects.Rules.{Every-if}
use rpc_operator.Api.{failed, pending}
use rpc_operator.Controller.Calls
use rpc_operator.Controller.Calls.{
  Pipeline, Answer, ok, err, History, Requeue, requeue_now, after_resync, done, is_conflict,
  update_status, Deps,
}
use rpc_operator.Controller.Status.{
  ClusterStatus, after_update, written_status, cluster_status_changed, write_cluster_status,
  unplaced, mark_cluster_failed, mark_cluster_pending,
}
use rpc_operator.Controller.Rules.{Policy, Anything}
use rpc_operator.Controller.Sound.{Sound}

pub after_update-Every :
    (P : Policy) (h : History) (next : Requeue) (r : Answer (Unit {0}))
    → Every P Anything h (after_update next r)
after_update-Every P h next (ok a) = tt
after_update-Every P h next (err e) =
    Every-if P Anything h (is_conflict e) (ret (done requeue_now)) (ret (Calls.failed e)) (λ _. tt)
      (λ _. tt)

module _ (deps : Deps) (pipe : Pipeline) where
  pub write_cluster_status-Sound :
      (w : ClusterStatus) (next : Requeue) (h : History)
      → Sound deps pipe h (update_status (written_status deps pipe w))
      → Every (Sound deps pipe) Anything h (write_cluster_status deps pipe w next)
  unfolding write_cluster_status
  write_cluster_status-Sound w next h s =
      Every-if (Sound deps pipe) Anything h (cluster_status_changed deps pipe w) _ _
        (λ _. (s, λ r. after_update-Every (Sound deps pipe) _ next r)) (λ _. tt)

  module _ (live : pipe.deleting ≡ false) (runs : pipe.spec.stopped ≡ false) where
    pub mark_cluster_failed-Sound :
        (reason message : String) (next : Requeue) (h : History)
        → Every (Sound deps pipe) Anything h (mark_cluster_failed deps pipe reason message next)
    unfolding mark_cluster_failed written_status
    mark_cluster_failed-Sound reason message next h =
        write_cluster_status-Sound (unplaced failed reason message) next h (live, inl refl, λ s. cc)

    pub mark_cluster_pending-Sound :
        (reason message : String) (h : History)
        → Every (Sound deps pipe) Anything h (mark_cluster_pending deps pipe reason message)
    unfolding mark_cluster_pending written_status
    mark_cluster_pending-Sound reason message h =
        write_cluster_status-Sound (unplaced pending reason message) after_resync h
          (live, inl refl, λ s. cc)
