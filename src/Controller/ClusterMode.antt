-- ===== src/Controller/ClusterMode.antt =====
-- Deployment of a pipeline as a stream of a cluster (handleClusterAssigned and handleClusterFallback
-- of pipeline_cluster_assign.go, handleProjectAssigned of pipeline_project_assign.go).
use Prim.Native.Char.{nul}
use Prim.Native.String
use rpc_operator.Prelude.{
  String, Bool, not, ◌&&◌, Option, none, some, List, ◌==◌, if◌then◌else◌, is_empty,
}
use rpc_operator.Prelude.Int.{ℤ}
use rpc_operator.Prelude.Quote.{quote}
use rpc_operator.Effects.{ret, ask, ◌>>=◌}
use rpc_operator.Fallible.{Fallible}
use rpc_operator.Api.{PipelineStatus, running}
use rpc_operator.Api.Conditions.{Condition}
use rpc_operator.Project.Types.{Project}
use rpc_operator.Project.Plan.{plan_for, plan_is_empty}
use rpc_operator.Render.Document.{render_stream_config}
use rpc_operator.Render.ProjectRewrite.{ProjectIoPlan, to_render_plan, apply_project_io}
use rpc_operator.Scheduler
use rpc_operator.Scheduler.{
  Pod, ready_cluster_ordinals, load_by_ordinal, pick_instance, cluster_pod_url, instance_name,
}
use rpc_operator.Secrets.{substitute_secrets}
use rpc_operator.Controller.Calls
use rpc_operator.Controller.Calls.{
  Pipeline, Call, update_status, get_cluster, get_project, list_pods, list_pipelines,
  get_stream_status, Act, call, Answer, ok, err, Error, is_not_found, is_rejected, on_answer,
  no_requeue, requeue_now, after_resync, Outcome, done, attempt, Deps,
}
use rpc_operator.Controller.Status.{
  write_cluster_status, mark_cluster_failed, mark_cluster_pending, ready_condition, after_update,
  stream_active_type,
}
use rpc_operator.Controller.Placement.{
  delete_assigned_stream, migrate_from_old_cluster, is_missing, ensure_stream_present,
  delete_pod_mode_children, condition_of_stream, fetch_secret_values,
}

-- `<project>-cluster` (projectChildClusterName)
abbrev pub project_cluster : String → String
project_cluster project = String.◌++◌ project "-cluster"

-- missing, or present and not active: the stream is deployed again
abbrev pub needs_repair : Answer Bool → Bool
needs_repair (ok active) = not active
needs_repair (err e) = is_missing (err e)

-- `currentInstance`
abbrev pub current_instance : Pipeline → String → String
current_instance pipe cluster =
    if pipe.status.assigned_cluster == cluster then pipe.status.assigned_instance else ""

module _ (deps : Deps) where
  unfoldable pub stream_config_hash : String → String → String
  stream_config_hash inst body = deps.sha256_hex (String.◌++◌ inst (String.◌∷◌ nul body))

  -- the placed status and its reason, after the last read of the stream's status
  abbrev pub placed_message : Pipeline → String → String → Condition
  placed_message pipe cluster inst =
      let s = pipe.status in
      if s.assigned_cluster == cluster
        && not (s.assigned_instance == "")
        && not (s.assigned_instance == inst)
      then ready_condition "True" "Rescheduling" (
          String.◌++◌ "rescheduled from "
            (String.◌++◌ s.assigned_instance (String.◌++◌ " to " inst)))
      else ready_condition "True" "Assigned" (String.◌++◌ "stream running on " inst)

  unfoldable pub finish_placement : Pipeline → String → ℤ → String → Act Outcome
  finish_placement pipe cluster ordinal hash =
      let inst = instance_name cluster ordinal in
      ask (get_stream_status (cluster_pod_url cluster pipe.namespace ordinal) pipe.name) λ st.
        write_cluster_status deps pipe
          (record {
            phase = running;
            assigned_cluster = cluster;
            assigned_instance = inst;
            stream_id = pipe.name;
            stream_config_hash = hash;
            ready = placed_message pipe cluster inst;
            stream_active = some (condition_of_stream st);
          })
          after_resync

  -- `if needDeploy { … }` and what follows it; a rejected configuration is written to the status
  unfoldable pub deploy : Pipeline → String → ℤ → String → String → Act Outcome
  deploy pipe cluster ordinal body hash =
      ensure_stream_present (cluster_pod_url cluster pipe.namespace ordinal) pipe.name body >>= λ r.
      on_answer r (λ _. finish_placement pipe cluster ordinal hash)
        (λ e.
          if is_rejected e
          then mark_cluster_failed deps pipe "StreamConfigInvalid" e.text no_requeue
          else ret (Calls.failed e))

  -- the gate on the hash of the desired configuration
  unfoldable pub deploy_if_needed : Pipeline → String → ℤ → String → Act Outcome
  deploy_if_needed pipe cluster ordinal body =
      let hash = stream_config_hash (instance_name cluster ordinal) body in
      if pipe.status.stream_config_hash == hash
      then ask (get_stream_status (cluster_pod_url cluster pipe.namespace ordinal) pipe.name) (λ st.
        if needs_repair st
        then deploy pipe cluster ordinal body hash
        else finish_placement pipe cluster ordinal hash)
      else deploy pipe cluster ordinal body hash

  -- `if len(pipe.Spec.SecretRefs) > 0 { … }`
  unfoldable pub with_secrets : Pipeline → String → ℤ → String → Act Outcome
  with_secrets pipe cluster ordinal body =
      if is_empty pipe.spec.secret_refs
      then deploy_if_needed pipe cluster ordinal body
      else (fetch_secret_values pipe.spec.secret_refs >>= λ r.
          on_answer r
            (λ values.
              deploy_if_needed pipe cluster ordinal
                (substitute_secrets body pipe.spec.secret_refs values))
            (λ e. mark_cluster_failed deps pipe "SecretNotFound" e.text no_requeue))

  abbrev pub rewritten : Option ProjectIoPlan → String → Fallible String
  rewritten none body = Fallible.ok body
  rewritten (some plan) body = apply_project_io deps.codec body plan

  unfoldable pub render_and_deploy : Pipeline → String → Option ProjectIoPlan → ℤ → Act Outcome
  render_and_deploy pipe cluster io_plan ordinal =
      elim (render_stream_config deps.codec pipe.spec) [
        | Fallible.err e ↦ mark_cluster_failed deps pipe "RenderError" e no_requeue
        | Fallible.ok body ↦ elim (rewritten io_plan body) [
          | Fallible.err e ↦ mark_cluster_failed deps pipe "RewriteError" e no_requeue
          | Fallible.ok body' ↦ with_secrets pipe cluster ordinal body'
        ]
      ]

  unfoldable pub schedule :
      Pipeline → String → Option ProjectIoPlan → List Pod → List Scheduler.Placement → Act Outcome
  schedule pipe cluster io_plan pods pipelines =
      elim (pick_instance (current_instance pipe cluster) cluster
        (ready_cluster_ordinals cluster pods) (load_by_ordinal cluster pipe.name pipelines)) [
          | none ↦
              mark_cluster_pending deps pipe "ClusterNotReady"
                (String.◌++◌ "cluster " (String.◌++◌ (quote cluster) " has no ready instances"))
          | some ordinal ↦ render_and_deploy pipe cluster io_plan ordinal
        ]

  -- `handleClusterAssigned` behind the lookup of the cluster
  unfoldable pub assign_to_cluster : Pipeline → String → Option ProjectIoPlan → Act Outcome
  assign_to_cluster pipe cluster io_plan = attempt delete_pod_mode_children λ _.
      attempt (migrate_from_old_cluster pipe cluster) λ _.
        attempt (call (list_pods cluster)) λ pods.
          attempt (call list_pipelines) λ pipelines. schedule pipe cluster io_plan pods pipelines

  unfoldable pub handle_cluster_assigned : Pipeline → String → Option ProjectIoPlan → Act Outcome
  handle_cluster_assigned pipe cluster io_plan = ask (get_cluster cluster) λ r.
      on_answer r (λ _. assign_to_cluster pipe cluster io_plan)
        (λ e.
          if is_not_found e
          then mark_cluster_failed deps pipe "ClusterNotFound"
              (String.◌++◌ "PipelineCluster " (String.◌++◌ (quote cluster) " not found"))
              after_resync
          else ret (Calls.failed e))

  unfoldable pub assign_to_project : Pipeline → Project → Act Outcome
  assign_to_project pipe project =
      let plan = plan_for project pipe.namespace pipe.name in
      handle_cluster_assigned pipe (project_cluster project.name)
        (if plan_is_empty plan then none else some (to_render_plan plan))

  unfoldable pub handle_project_assigned : Pipeline → String → Act Outcome
  handle_project_assigned pipe project_ref = ask (get_project project_ref) λ r.
      on_answer r (λ project. assign_to_project pipe project)
        (λ e.
          if is_not_found e
          then mark_cluster_failed deps pipe "ProjectNotFound"
              (String.◌++◌ "PipelineProject " (String.◌++◌ (quote project_ref) " not found"))
              no_requeue
          else ret (Calls.failed e))

  -- the status of `handleClusterFallback`: the hash and the other fields stay
  abbrev pub fallback_status : PipelineStatus → PipelineStatus
  fallback_status s = record s {
    assigned_cluster = "";
    assigned_instance = "";
    stream_id = "";
    conditions = deps.conditions.remove s.conditions stream_active_type;
  }

  unfoldable pub handle_cluster_fallback : Pipeline → Act Outcome
  handle_cluster_fallback pipe =
      attempt (delete_assigned_stream pipe)
        λ _. ask (update_status (fallback_status pipe.status)) (after_update requeue_now)
