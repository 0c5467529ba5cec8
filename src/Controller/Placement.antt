-- ===== src/Controller/Placement.antt =====
-- Streams on cluster instances (deleteAssignedStream, migrateFromOldCluster, ensureStreamPresent,
-- streamActiveCondition and deletePodModeChildren of pipeline_cluster_assign.go), and the secret values
-- of secret_substitution.go.
use Prim.Native.String
use rpc_operator.Prelude.{
  String, Bool, true, false, ◌||◌, Option, none, some, List, [], ◌∷◌, ◌==◌, if◌then◌else◌,
}
use rpc_operator.Prelude.Quote.{quote}
use rpc_operator.Effects.{ret, ask}
use rpc_operator.Api.{SecretRef}
use rpc_operator.Api.Conditions.{Condition}
use rpc_operator.Scheduler.{ordinal_from_pod_name, cluster_pod_url}
use rpc_operator.Secrets.{Values, value_of}
use rpc_operator.Controller.Calls.{
  Pipeline, delete_pod, delete_config_map, delete_pod_monitor, ensure_stream, delete_stream,
  get_stream_status, get_secret, Act, call, Answer, ok, err, Error, is_not_found,
  is_stream_not_found, on_answer, other, ignore_not_found, ignore_no_match, attempt_answer,
}
use rpc_operator.Controller.Status.{stream_active_type}

abbrev pub succeed : Act (Answer (Unit {0}))
succeed = ret (ok tt)

-- the deletion of the stream on the instance that a name of the cluster stands for
abbrev pub delete_on : Pipeline → String → Act (Answer (Unit {0}))
delete_on pipe cluster = elim (ordinal_from_pod_name pipe.status.assigned_instance cluster) [
  | none ↦ succeed
  | some ord ↦ call (delete_stream (cluster_pod_url cluster pipe.namespace ord) pipe.name)
]

unfoldable pub delete_assigned_stream : Pipeline → Act (Answer (Unit {0}))
delete_assigned_stream pipe =
    if pipe.status.assigned_cluster == "" || pipe.status.assigned_instance == ""
    then succeed
    else delete_on pipe pipe.status.assigned_cluster

unfoldable pub migrate_from_old_cluster : Pipeline → String → Act (Answer (Unit {0}))
migrate_from_old_cluster pipe new_cluster =
    let old = pipe.status.assigned_cluster in
    if old == "" || old == new_cluster || pipe.status.assigned_instance == ""
    then succeed
    else delete_on pipe old

-- `errors.Is(err, streams.ErrStreamNotFound)`
abbrev pub is_missing : Answer Bool → Bool
is_missing (ok active) = false
is_missing (err e) = is_stream_not_found e

-- the recreation of a stream that the instance does not know; the reply to the deletion is ignored
abbrev pub recreate : String → String → String → Answer Bool → Act (Answer (Unit {0}))
recreate url id body st =
    if is_missing st
    then ask (delete_stream url id) (λ _. call (ensure_stream url id body))
    else succeed

unfoldable pub ensure_stream_present : String → String → String → Act (Answer (Unit {0}))
ensure_stream_present url id body =
    attempt_answer (call (ensure_stream url id body))
      λ _. ask (get_stream_status url id) (recreate url id body)

-- the children of single-pod mode
unfoldable pub delete_pod_mode_children : Act (Answer (Unit {0}))
delete_pod_mode_children = attempt_answer (ask delete_pod (λ r. ret (ignore_not_found r))) λ _.
    attempt_answer (ask delete_config_map (λ r. ret (ignore_not_found r)))
      λ _. ask delete_pod_monitor (λ r. ret (ignore_no_match (ignore_not_found r)))

abbrev pub stream_active : String → String → String → Condition
stream_active status reason message = record {
  type = stream_active_type;
  status = status;
  reason = reason;
  message = message;
}

-- the cases of `streamActiveCondition`
unfoldable pub condition_of_stream : Answer Bool → Condition
condition_of_stream (ok true) = stream_active "True" "Running" "stream active"
condition_of_stream (ok false) = stream_active "False" "StreamNotActive" "stream not active"
condition_of_stream (err e) =
    if is_stream_not_found e
    then stream_active "False" "StreamMissing" "stream not found on instance"
    else stream_active "Unknown" "StatusUnavailable" e.text

-- The secrets fetched so far, by name.
abbrev pub Fetched : Type 0
Fetched = List (String × Values)

abbrev pub secret_of : String → Fetched → Option Values
secret_of name [] = none
secret_of name ((k, v) ∷ rest) = if k == name then some v else secret_of name rest

abbrev pub missing_secret : String → Error → Error
missing_secret name e =
    if is_not_found e
    then record {
      kind = other;
      text = String.◌++◌ "secret " (String.◌++◌ (quote name) " not found");
    }
    else e

-- the first loop of `fetchSecretValues`: each secret is fetched once
unfoldable pub fetch_secrets : List SecretRef → Fetched → Act (Answer Fetched)
fetch_secrets [] fetched = ret (ok fetched)
fetch_secrets (ref ∷ refs) fetched = elim (secret_of ref.secret_name fetched) [
  | some _ ↦ fetch_secrets refs fetched
  | none ↦ ask (get_secret ref.secret_name) λ r.
      on_answer r (λ entries. fetch_secrets refs ((ref.secret_name, entries) ∷ fetched))
        (λ e. ret (err (missing_secret ref.secret_name e)))
]

-- the second loop: the latest assignment of a variable stands first
unfoldable pub collect_values : Fetched → List SecretRef → Values → Answer Values
collect_values fetched [] values = ok values
collect_values fetched (ref ∷ refs) values =
    let entries : Option Values = secret_of ref.secret_name fetched in
    let raw : Option String = elim entries [ none ↦ none | some es ↦ value_of ref.key es ] in
    elim raw [
      | some v ↦ collect_values fetched refs ((ref.env_var, v) ∷ values)
      | none ↦ err (record {
        kind = other;
        text = String.◌++◌ "key " (
            String.◌++◌ (quote ref.key)
              (String.◌++◌ " not found in secret " (quote ref.secret_name)));
      })
    ]

unfoldable pub fetch_secret_values : List SecretRef → Act (Answer Values)
unfolding fetch_secrets collect_values
fetch_secret_values refs =
    attempt_answer (fetch_secrets refs []) (λ fetched. ret (collect_values fetched refs []))
