-- ===== src/Api.antt =====
-- The Pipeline resource (api/v1alpha1/pipeline_types.go) and the condition list of its status.
pub mod Conditions
pub mod Samples
pub mod Cluster
use rpc_operator.Prelude.{ℕ, String, Bool, Option, List}
use rpc_operator.Api.Conditions.{Condition}

-- `config` is the text of `Config.Raw`.
pub record ComponentSpec : Type 0 where
  pub type : String
  pub label : String
  pub config : String

pub record SecretRef : Type 0 where
  pub env_var : String
  pub secret_name : String
  pub key : String

-- `project_ref` is the name in `ProjectRef`; the fields `Replicas` and `Image` are read by the pod
-- path alone.
pub record PipelineSpec : Type 0 where
  pub input : ComponentSpec
  pub processors : List ComponentSpec
  pub output : ComponentSpec
  pub raw_yaml : String
  pub image : String
  pub secret_refs : List SecretRef
  pub stopped : Bool
  pub cluster_ref : String
  pub project_ref : Option String

-- `unset` is the empty phase of a new object.
pub data PipelinePhase : Type 0 where
  unset pending running failed stopped : PipelinePhase

pub record PipelineStatus : Type 0 where
  pub phase : PipelinePhase
  pub pod_name : String
  pub assigned_cluster : String
  pub assigned_instance : String
  pub stream_id : String
  pub stream_config_hash : String
  pub observed_generation : ℕ
  pub conditions : List Condition
