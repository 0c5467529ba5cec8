-- ===== src/Controller/PodMode.antt =====
-- The single-pod mode of the Pipeline controller, and stopped pipelines
-- (internal/controller/pipeline_controller.go).
use Prim.Native.Char.{nul}
use Prim.Native.String
use rpc_operator.Prelude.{
  String, Bool, true, not, ◌||◌, Option, none, some, List, [], ◌∷◌, ◌==◌, if◌then◌else◌, nat_eq,
}
use rpc_operator.Effects.{ret, ask}
use rpc_operator.Fallible
use rpc_operator.Api.{SecretRef, PipelinePhase, pending, running, failed, stopped, PipelineStatus}
use rpc_operator.Api.Conditions.{Condition}
use rpc_operator.Render.Document.{render_pipeline_yaml}
use rpc_operator.Controller.Calls
use rpc_operator.Controller.Calls.{
  Pipeline, PodPhase, pod_running, pod_failed, pod_succeeded, pod_other, LivePod, EnvVar,
  PodTemplate, Call, update_status, delete_pod, apply_config_map, get_pod, apply_pod,
  apply_pod_monitor, Act, call, Answer, ok, err, Error, is_not_found, no_requeue, requeue_now,
  Outcome, done, attempt, ignore_not_found, ignore_no_match, Deps,
}
use rpc_operator.Controller.Status.{
  find, mark_failed, ready_condition, condition_changed, is_some, phase_eq, after_update,
  stream_active_type,
}
use rpc_operator.Controller.Placement.{delete_assigned_stream}

unfoldable pub derive_phase : LivePod → PipelinePhase
derive_phase pod = elim pod.phase [
  | pod_running ↦ running
  | pod_failed ↦ failed
  | pod_succeeded ↦ stopped
  | pod_other ↦ pending
]

-- the first waiting reason that is not empty, or the empty text
unfoldable pub wait_reason : List String → String
wait_reason [] = ""
wait_reason (r ∷ rs) = if r == "" then wait_reason rs else r

abbrev pub phase_condition : PipelinePhase → Condition
phase_condition running = ready_condition "True" "Running" "Pipeline pod is running"
phase_condition stopped = ready_condition "False" "Completed" "Pipeline pod has completed"
phase_condition failed = ready_condition "False" "PodFailed" "Pipeline pod has failed"
phase_condition _ = ready_condition "Unknown" "Pending" "Pipeline pod is pending"

unfoldable pub derive_condition : LivePod → PipelinePhase → Condition
unfolding wait_reason
derive_condition pod phase =
    let reason = wait_reason pod.waiting in
    if reason == "ImagePullBackOff" || reason == "ErrImagePull"
    then ready_condition "False" "ImagePullBackOff"
        (String.◌++◌ "Container image cannot be pulled: " reason)
    else if reason == "CrashLoopBackOff"
    then ready_condition "False" "CrashLoopBackOff" "Container is crash-looping"
    else phase_condition phase

unfoldable pub secret_refs_to_env_vars : List SecretRef → List EnvVar
secret_refs_to_env_vars [] = []
secret_refs_to_env_vars (r ∷ refs) =
    record { name = r.env_var; secret_name = r.secret_name; key = r.key }
    ∷ secret_refs_to_env_vars refs

module _ (deps : Deps) where
  unfoldable pub spec_hash : Pipeline → String → String
  spec_hash pipe yaml = deps.sha256_hex (
      String.◌++◌ yaml (
        String.◌∷◌ nul (
          String.◌++◌ pipe.spec.image
            (String.◌∷◌ nul (deps.secret_refs_json pipe.spec.secret_refs)))))

  unfoldable pub pod_status_changed : Pipeline → PipelinePhase → Condition → Bool
  pod_status_changed pipe phase cond =
      condition_changed (find deps pipe.status "Ready") cond
      || not (phase_eq pipe.status.phase phase)
      || not (pipe.status.pod_name == pipe.name)
      || not (nat_eq pipe.status.observed_generation pipe.generation)

  -- the status write at the end of `Reconcile`
  unfoldable pub write_pod_status : Pipeline → LivePod → Act Outcome
  unfolding derive_phase derive_condition
  write_pod_status pipe pod =
      let phase = derive_phase pod in
      let cond = derive_condition pod phase in
      let s = pipe.status in
      if pod_status_changed pipe phase cond
      then ask
          (update_status (record s {
            phase = phase;
            pod_name = pipe.name;
            observed_generation = pipe.generation;
            conditions = deps.conditions.set s.conditions cond;
          }))
          (after_update no_requeue)
      else ret (done no_requeue)

  unfoldable pub pod_template : Pipeline → String → PodTemplate
  unfolding secret_refs_to_env_vars
  pod_template pipe hash = record {
    config_map = String.◌++◌ pipe.name "-config";
    image = pipe.spec.image;
    env = secret_refs_to_env_vars pipe.spec.secret_refs;
    spec_hash = hash;
  }

  unfoldable pub apply_children : Pipeline → String → Act Outcome
  apply_children pipe hash = attempt (call (apply_pod (pod_template pipe hash))) λ pod.
      attempt (ask apply_pod_monitor (λ r. ret (ignore_no_match r))) λ _. write_pod_status pipe pod

  -- the pod with another hash is deleted, and made anew by the next reconcile
  unfoldable pub replace_stale_pod : Pipeline → String → Answer LivePod → Act Outcome
  replace_stale_pod pipe hash (ok pod) =
      if pod.spec_hash == hash
      then apply_children pipe hash
      else attempt (ask delete_pod (λ r. ret (ignore_not_found r))) (λ _. ret (done requeue_now))
  replace_stale_pod pipe hash (err e) =
      if is_not_found e then apply_children pipe hash else ret (Calls.failed e)

  unfoldable pub run_as_pod : Pipeline → Act Outcome
  run_as_pod pipe = elim (render_pipeline_yaml deps.codec pipe.spec) [
    | Fallible.err e ↦ mark_failed deps pipe "RenderError" e
    | Fallible.ok yaml ↦
        attempt (call (apply_config_map yaml))
          λ _. ask get_pod (replace_stale_pod pipe (spec_hash pipe yaml))
  ]

  abbrev pub stopped_condition : Condition
  stopped_condition =
      ready_condition "False" "StoppedByUser" "Pipeline stopped by user (spec.stopped=true)"

  -- `handleStopped` compares the status and the reason, and not the message
  abbrev stopped_condition_changed : Option Condition → Bool
  stopped_condition_changed none = true
  stopped_condition_changed (some c) =
      not (c.status == "False") || not (c.reason == "StoppedByUser")

  unfoldable pub stopped_status_changed : Pipeline → Bool
  stopped_status_changed pipe =
      let s = pipe.status in
      stopped_condition_changed (find deps s "Ready")
      || is_some (find deps s stream_active_type)
      || not (phase_eq s.phase stopped)
      || not (s.pod_name == "")
      || not (s.assigned_cluster == "")
      || not (s.assigned_instance == "")
      || not (s.stream_id == "")
      || not (nat_eq s.observed_generation pipe.generation)

  -- the hash of the last stream configuration stays in the status
  unfoldable pub stopped_status : Pipeline → PipelineStatus
  stopped_status pipe =
      let s = pipe.status in
      record s {
        phase = stopped;
        pod_name = "";
        assigned_cluster = "";
        assigned_instance = "";
        stream_id = "";
        observed_generation = pipe.generation;
        conditions =
            deps.conditions.remove (deps.conditions.set s.conditions stopped_condition)
              stream_active_type;
      }

  unfoldable pub handle_stopped : Pipeline → Act Outcome
  handle_stopped pipe = attempt (delete_assigned_stream pipe) λ _.
      attempt (ask delete_pod (λ r. ret (ignore_not_found r))) λ _.
        if stopped_status_changed pipe
        then ask (update_status (stopped_status pipe)) (after_update no_requeue)
        else ret (done no_requeue)
