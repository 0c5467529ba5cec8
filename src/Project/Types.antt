-- ===== src/Project/Types.antt =====
-- The parts of the PipelineProject resource that the operator decides by
-- (api/v1alpha1/pipelineproject_types.go). Quantities and durations are numbers, a raw JSON block
-- is its text, and the fields copied into pod templates are left out.
use rpc_operator.Prelude.{ℕ, String, Option, List}

-- ProjectNATSRetention
pub record NatsRetention : Type 0 where
  pub max_age : Option ℕ
  pub max_bytes : Option ℕ
  pub max_msgs : Option ℕ

-- ProjectRouteTarget
pub record RouteTarget : Type 0 where
  pub pipeline : String
  pub when : String

pub record ProjectRoute : Type 0 where
  pub name : String
  pub from : String
  pub to : List RouteTarget
  pub retention : Option NatsRetention

-- ProjectNATSKVCache
pub record KvCache : Type 0 where
  pub ttl : Option ℕ
  pub history : Option ℕ
  pub max_bytes : Option ℕ

-- ProjectCacheResource; `config` is the text of `Config.Raw`
pub record CacheResource : Type 0 where
  pub name : String
  pub nats_kv : Option KvCache
  pub config : String

-- ProjectClusterSpec, without the limits of the containers
pub record ClusterSizing : Type 0 where
  pub instances : Option ℕ

-- ProjectNATSSpec
pub record NatsSpec : Type 0 where
  pub replicas : Option ℕ
  pub storage : Option ℕ
  pub retention : NatsRetention
  pub storage_reclaim_policy : String

pub record ProjectSpec : Type 0 where
  pub cluster : Option ClusterSizing
  pub nats : Option NatsSpec
  pub routes : List ProjectRoute
  pub cache_resources : List CacheResource

pub record Project : Type 0 where
  pub name : String
  pub namespace : String
  pub spec : ProjectSpec
