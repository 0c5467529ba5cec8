-- ===== src/Controller/Status.antt =====
-- Status writes of the Pipeline controller (writeClusterStatus, markClusterFailed,
-- markClusterPending and markFailed).
use rpc_operator.Prelude.{
  String, Bool, true, false, not, ◌||◌, Option, none, some, ◌==◌, if◌then◌else◌, nat_eq,
}
use rpc_operator.Effects.{ret, ask}
use rpc_operator.Api.{PipelinePhase, unset, pending, running, failed, stopped, PipelineStatus}
use rpc_operator.Api.Conditions.{Condition, same_condition}
use rpc_operator.Controller.Calls.{
  Pipeline, Call, update_status, Act, call, Answer, ok, err, Error, is_conflict, on_answer, Requeue,
  no_requeue, requeue_now, after_resync, Outcome, done, Deps,
}
use rpc_operator.Controller.Calls

abbrev pub phase_eq : PipelinePhase → PipelinePhase → Bool
phase_eq unset unset = true
phase_eq pending pending = true
phase_eq running running = true
phase_eq failed failed = true
phase_eq stopped stopped = true
phase_eq _ _ = false

-- whether a found condition differs from the wanted one
abbrev pub condition_changed : Option Condition → Condition → Bool
condition_changed none wanted = true
condition_changed (some c) wanted = not (same_condition c wanted)

abbrev pub is_some {ℓ} : {A : Type ℓ} → Option A → Bool
is_some none = false
is_some (some a) = true

-- the reply to a status update: a conflict requeues
abbrev pub after_update : Requeue → Answer (Unit {0}) → Act Outcome
after_update next (ok _) = ret (done next)
after_update next (err e) = if is_conflict e then ret (done requeue_now) else ret (Calls.failed e)

-- What `writeClusterStatus` is asked to write.
pub record ClusterStatus : Type 0 where
  pub phase : PipelinePhase
  pub assigned_cluster : String
  pub assigned_instance : String
  pub stream_id : String
  pub stream_config_hash : String
  pub ready : Condition
  pub stream_active : Option Condition

abbrev pub stream_active_type : String
stream_active_type = "StreamActive"

abbrev pub ready_condition : String → String → String → Condition
ready_condition status reason message = record {
  type = "Ready";
  status = status;
  reason = reason;
  message = message;
}

-- the status with no placement
abbrev pub unplaced : PipelinePhase → String → String → ClusterStatus
unplaced phase reason message = record {
  phase = phase;
  assigned_cluster = "";
  assigned_instance = "";
  stream_id = "";
  stream_config_hash = "";
  ready = ready_condition "False" reason message;
  stream_active = none;
}

module _ (deps : Deps) where
  abbrev pub find : PipelineStatus → String → Option Condition
  find s type = deps.conditions.find s.conditions type

  abbrev pub stream_active_changed : Option Condition → Option Condition → Bool
  stream_active_changed found none = is_some found
  stream_active_changed found (some wanted) = condition_changed found wanted

  unfoldable pub cluster_status_changed : Pipeline → ClusterStatus → Bool
  cluster_status_changed pipe w =
      let s = pipe.status in
      condition_changed (find s "Ready") w.ready
      || stream_active_changed (find s stream_active_type) w.stream_active
      || not (phase_eq s.phase w.phase)
      || not (s.assigned_cluster == w.assigned_cluster)
      || not (s.assigned_instance == w.assigned_instance)
      || not (s.stream_id == w.stream_id)
      || not (s.stream_config_hash == w.stream_config_hash)
      || not (s.pod_name == "")
      || not (nat_eq s.observed_generation pipe.generation)

  -- the conditions behind SetStatusCondition(Ready) and the set or removal of StreamActive
  abbrev written_conditions : PipelineStatus → ClusterStatus → Option Condition → PipelineStatus
  written_conditions s w none = record s {
    conditions =
        deps.conditions.remove (deps.conditions.set s.conditions w.ready) stream_active_type;
  }
  written_conditions s w (some sa) = record s {
    conditions = deps.conditions.set (deps.conditions.set s.conditions w.ready) sa;
  }

  unfoldable pub written_status : Pipeline → ClusterStatus → PipelineStatus
  written_status pipe w =
      written_conditions
        (record {
          phase = w.phase;
          pod_name = "";
          assigned_cluster = w.assigned_cluster;
          assigned_instance = w.assigned_instance;
          stream_id = w.stream_id;
          stream_config_hash = w.stream_config_hash;
          observed_generation = pipe.generation;
          conditions = pipe.status.conditions;
        })
        w w.stream_active

  unfoldable pub write_cluster_status : Pipeline → ClusterStatus → Requeue → Act Outcome
  write_cluster_status pipe w next =
      if cluster_status_changed pipe w
      then ask (update_status (written_status pipe w)) (after_update next)
      else ret (done next)

  unfoldable pub mark_cluster_failed : Pipeline → String → String → Requeue → Act Outcome
  mark_cluster_failed pipe reason message next =
      write_cluster_status pipe (unplaced failed reason message) next

  unfoldable pub mark_cluster_pending : Pipeline → String → String → Act Outcome
  mark_cluster_pending pipe reason message =
      write_cluster_status pipe (unplaced pending reason message) after_resync

  -- pod mode: no comparison, and a conflict is an error
  unfoldable pub mark_failed : Pipeline → String → String → Act Outcome
  mark_failed pipe reason message =
      let s = pipe.status in
      ask
        (update_status (record s {
          phase = failed;
          conditions = deps.conditions.set s.conditions (ready_condition "False" reason message);
        }))
        λ r. on_answer r (λ _. ret (done no_requeue)) (λ e. ret (Calls.failed e))
