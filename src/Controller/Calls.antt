-- ===== src/Controller/Calls.antt =====
-- What the Pipeline reconciler asks of the API server and of the cluster instances, and the replies.
-- All calls are in the pipeline's namespace.
use Prim.Native.String.{String}
use rpc_operator.Prelude.{ℕ, Bool, true, false, List, if◌then◌else◌}
use rpc_operator.Effects.{Prog, ret, ask, ◌>>=◌, Event}
use rpc_operator.Api.{PipelineSpec, PipelineStatus, SecretRef}
use rpc_operator.Api.Conditions.{ConditionOps}
use rpc_operator.Render.Document.{Codec}
use rpc_operator.Project.Types.{Project}
use rpc_operator.Scheduler
use rpc_operator.Scheduler.{Pod}

-- The kinds of error that the code tells apart.
pub data ErrorKind : Type 0 where
  not_found conflict already_exists stream_not_found rejected no_match other : ErrorKind

-- `text` is `err.Error()`, and for a rejected configuration the response's body.
pub record Error : Type 0 where
  pub kind : ErrorKind
  pub text : String

-- `apierrors.IsNotFound`
abbrev pub is_not_found : Error → Bool
is_not_found e = elim e.kind [ not_found ↦ true | _ ↦ false ]

-- `apierrors.IsConflict`
abbrev pub is_conflict : Error → Bool
is_conflict e = elim e.kind [ conflict ↦ true | _ ↦ false ]

-- `errors.Is(err, streams.ErrStreamNotFound)`
abbrev pub is_stream_not_found : Error → Bool
is_stream_not_found e = elim e.kind [ stream_not_found ↦ true | _ ↦ false ]

-- `errors.As(err, &rejected)`
abbrev pub is_rejected : Error → Bool
is_rejected e = elim e.kind [ rejected ↦ true | _ ↦ false ]

-- `apimeta.IsNoMatchError(err) || runtime.IsNotRegisteredError(err)`
abbrev pub is_no_match : Error → Bool
is_no_match e = elim e.kind [ no_match ↦ true | _ ↦ false ]

pub data Answer (A : Type 0) : Type 0 where
  ok : A → Answer A
  err : Error → Answer A

pub record Pipeline : Type 0 where
  pub name : String
  pub namespace : String
  pub generation : ℕ
  pub deleting : Bool
  pub has_finalizer : Bool
  pub spec : PipelineSpec
  pub status : PipelineStatus

pub data PodPhase : Type 0 where
  pod_running pod_failed pod_succeeded pod_other : PodPhase

-- The pipeline's own pod: its phase, the waiting reasons of its containers in order (empty where a
-- container does not wait), and the annotation with the hash of its spec.
pub record LivePod : Type 0 where
  pub phase : PodPhase
  pub waiting : List String
  pub spec_hash : String

-- `corev1.EnvVar` with a secret reference
pub record EnvVar : Type 0 where
  pub name : String
  pub secret_name : String
  pub key : String

-- What a new pod is made of.
pub record PodTemplate : Type 0 where
  pub config_map : String
  pub image : String
  pub env : List EnvVar
  pub spec_hash : String

pub data Call : Type 0 where
  get_pipeline : Call
  add_finalizer : Call
  remove_finalizer : Call
  update_status : PipelineStatus → Call
  get_cluster : String → Call
  get_project : String → Call
  list_pods : String → Call
  list_pipelines : Call
  get_secret : String → Call
  delete_pod : Call
  delete_config_map : Call
  delete_pod_monitor : Call
  apply_config_map : String → Call
  get_pod : Call
  apply_pod : PodTemplate → Call
  apply_pod_monitor : Call
  ensure_stream : String → String → String → Call
  delete_stream : String → String → Call
  get_stream_status : String → String → Call

-- `ensure_stream url id body`; the reply to `get_stream_status` is whether the stream is active.
abbrev pub Reply : Call → Type 0
Reply get_pipeline = Answer Pipeline
Reply (get_project _) = Answer Project
Reply (list_pods _) = Answer (List Pod)
Reply list_pipelines = Answer (List Scheduler.Placement)
Reply (get_secret _) = Answer (List (String × String))
Reply get_pod = Answer LivePod
Reply (apply_pod _) = Answer LivePod
Reply (get_stream_status _ _) = Answer Bool
Reply _ = Answer (Unit {0})

abbrev pub Act : Type 0 → Type 0
Act A = Prog Call Reply A

abbrev pub History : Type 0
History = List (Event Call Reply)

abbrev pub call : (c : Call) → Act (Reply c)
call c = ask c ret

-- `ctrl.Result`; `after_resync` is RequeueAfter: resyncInterval
pub data Requeue : Type 0 where
  no_requeue requeue_now after_resync : Requeue

-- the `(ctrl.Result, error)` of a reconcile
pub data Outcome : Type 0 where
  done : Requeue → Outcome
  failed : Error → Outcome

-- what follows a reply, by whether it is an error
abbrev pub on_answer : {A B : Type 0} → Answer A → (A → B) → (Error → B) → B
on_answer (ok a) f g = f a
on_answer (err e) f g = g e

-- `if err != nil { return ctrl.Result{}, err }`
abbrev pub attempt : {A : Type 0} → Act (Answer A) → (A → Act Outcome) → Act Outcome
attempt m k = m >>= λ r. on_answer r k (λ e. ret (failed e))

-- the same in a function that returns only an error, or a value and an error
abbrev pub attempt_answer : {A B : Type 0} → Act (Answer A) → (A → Act (Answer B)) → Act (Answer B)
attempt_answer m k = m >>= λ r. on_answer r k (λ e. ret (err e))

-- `client.IgnoreNotFound`
abbrev pub ignore_not_found : Answer (Unit {0}) → Answer (Unit {0})
ignore_not_found (ok u) = ok u
ignore_not_found (err e) = if is_not_found e then ok tt else err e

-- the deletion of a PodMonitor also tolerates a missing CRD
abbrev pub ignore_no_match : Answer (Unit {0}) → Answer (Unit {0})
ignore_no_match (ok u) = ok u
ignore_no_match (err e) = if is_no_match e then ok tt else err e

-- What the controller takes from libraries: the condition lists, YAML and JSON, SHA-256 in
-- hexadecimal, and the JSON of the secret references.
pub record Deps : Type 0 where
  pub conditions : ConditionOps
  pub codec : Codec
  pub sha256_hex : String → String
  pub secret_refs_json : List SecretRef → String
