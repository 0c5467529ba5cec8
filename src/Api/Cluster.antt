-- ===== src/Api/Cluster.antt =====
-- The PipelineCluster resource (api/v1alpha1/pipelinecluster_types.go), without the limits of the
-- containers.
use rpc_operator.Prelude.{ℕ, String, Bool, List}
use rpc_operator.Api.Conditions.{Condition}

pub record ClusterSpec : Type 0 where
  pub replicas : ℕ
  pub image : String
  pub json_logging : Bool

-- `new` is the empty phase of a new object.
pub data ClusterPhase : Type 0 where
  new pending ready degraded : ClusterPhase

pub record ClusterStatus : Type 0 where
  pub phase : ClusterPhase
  pub ready_replicas : ℕ
  pub observed_generation : ℕ
  pub conditions : List Condition

pub record Cluster : Type 0 where
  pub name : String
  pub namespace : String
  pub generation : ℕ
  pub spec : ClusterSpec
  pub status : ClusterStatus
