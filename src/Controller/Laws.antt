-- ===== src/Controller/Laws.antt =====
-- When a status is written (writeClusterStatus of internal/controller/pipeline_cluster_assign.go).
use rpc_operator.Prelude.{
  ℕ, ◌≡◌, refl, ◌⊎◌, inl, inr, true, false, none, some, nat_eq, eq_refl, arith,
}
use rpc_operator.Effects.{ret}
use rpc_operator.Api.{PipelinePhase, unset, pending, running, failed, stopped}
use rpc_operator.Api.Conditions.{Condition, same_condition}
use rpc_operator.Controller.Calls.{Pipeline, Requeue, done, Deps}
use rpc_operator.Controller.Status.{
  ClusterStatus, cluster_status_changed, written_status, write_cluster_status, phase_eq,
  stream_active_type,
}

-- The wanted conditions have the types under which the status keeps them.
abbrev pub IsTyped : ClusterStatus → Type 0
IsTyped w =
    (w.ready.type ≡ "Ready")
    × ((w.stream_active ≡ none)
        ⊎ ((c : Condition) × (w.stream_active ≡ some c) × (c.type ≡ stream_active_type)))

phase_eq_refl : (p : PipelinePhase) → phase_eq p p ≡ true
phase_eq_refl unset = refl
phase_eq_refl pending = refl
phase_eq_refl running = refl
phase_eq_refl failed = refl
phase_eq_refl stopped = refl

same_condition_refl : (c : Condition) → same_condition c c ≡ true
same_condition_refl c = rw (eq_refl c.status, eq_refl c.reason, eq_refl c.message) refl

nat_eq_refl : (n : ℕ) → nat_eq n n ≡ true
nat_eq_refl n = ground arith

module _ (deps : Deps) (pipe : Pipeline) where
  abbrev pub written : ClusterStatus → Pipeline
  written w = record pipe { status = written_status deps pipe w }

  -- A written status is not written again: the comparison with what it wrote finds no difference.
  pub cluster_status_changed-written :
      (w : ClusterStatus) → IsTyped w → cluster_status_changed deps (written w) w ≡ false
  unfolding cluster_status_changed written_status
  cluster_status_changed-written w (r, inl e) =
      rw
        (
          e,
          cluster_status_changed,
          written_status,
          deps.conditions.find-remove (deps.conditions.set pipe.status.conditions w.ready)
              stream_active_type "Ready",
          deps.conditions.find-remove (deps.conditions.set pipe.status.conditions w.ready)
              stream_active_type stream_active_type,
          deps.conditions.find-set pipe.status.conditions w.ready "Ready",
          r,
          phase_eq_refl w.phase,
          same_condition_refl w.ready,
          eq_refl w.assigned_cluster,
          eq_refl w.assigned_instance,
          eq_refl w.stream_id,
          eq_refl w.stream_config_hash,
          nat_eq_refl pipe.generation,
        )
        refl
  cluster_status_changed-written w (r, inr (c, e, t)) =
      rw
        (
          e,
          cluster_status_changed,
          written_status,
          deps.conditions.find-set (deps.conditions.set pipe.status.conditions w.ready) c "Ready",
          deps.conditions.find-set (deps.conditions.set pipe.status.conditions w.ready) c
              stream_active_type,
          deps.conditions.find-set pipe.status.conditions w.ready "Ready",
          r,
          t,
          phase_eq_refl w.phase,
          same_condition_refl w.ready,
          same_condition_refl c,
          eq_refl w.assigned_cluster,
          eq_refl w.assigned_instance,
          eq_refl w.stream_id,
          eq_refl w.stream_config_hash,
          nat_eq_refl pipe.generation,
        )
        refl

  -- Once a status is written, writing it again makes no call, and ends as a written status does.
  pub write_cluster_status-written :
      (w : ClusterStatus) (next : Requeue)
      → IsTyped w
      → write_cluster_status deps (written w) w next ≡ ret (done next)
  unfolding write_cluster_status
  write_cluster_status-written w next typed =
      rw (write_cluster_status, cluster_status_changed-written w typed) refl
