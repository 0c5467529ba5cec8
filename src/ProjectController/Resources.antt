-- ===== src/ProjectController/Resources.antt =====
-- The objects that a project owns (internal/controller/pipelineproject_resources.go). Of an object,
-- what the project decides is kept; the constant parts of the templates are left out.
use Prim.Native.String.{◌++◌}
use rpc_operator.Prelude.{
  ℕ, String, Bool, true, Option, none, some, ◌==◌, if◌then◌else◌, leb, nat_eq,
}
use rpc_operator.Prelude.Decimal.{itoa}
use rpc_operator.Prelude.Quote.{quote}
use rpc_operator.Project.Types.{ClusterSizing, Project}

-- projectChildClusterName
unfoldable pub child_cluster_name : String → String
child_cluster_name project = project ++ "-cluster"

-- projectChildNATSName
unfoldable pub child_nats_name : String → String
child_nats_name project = project ++ "-nats"

-- the PipelineCluster
pub record ChildCluster : Type 0 where
  pub name : String
  pub replicas : ℕ
  pub json_logging : Bool

abbrev pub instances_of : Option ClusterSizing → ℕ
instances_of none = 1
instances_of (some sizing) = elim sizing.instances [ none ↦ 1 | some n ↦ n ]

unfoldable pub build_project_cluster : Project → ChildCluster
unfolding child_cluster_name
build_project_cluster project = record {
  name = child_cluster_name project.name;
  replicas = instances_of project.spec.cluster;
  json_logging = true;
}

-- projectNATSReplicas
unfoldable pub project_nats_replicas : Project → ℕ
project_nats_replicas project = elim project.spec.nats [
  | none ↦ 1
  | some nats ↦ elim nats.replicas [ none ↦ 1 | some n ↦ n ]
]

-- natsStorageDefault, 10Gi
abbrev pub nats_storage_default : ℕ
nats_storage_default = 10737418240

-- projectNATSStorage
unfoldable pub project_nats_storage : Project → ℕ
project_nats_storage project = elim project.spec.nats [
  | none ↦ nats_storage_default
  | some nats ↦ elim nats.storage [ none ↦ nats_storage_default | some n ↦ n ]
]

abbrev pub nats_image_default : String
nats_image_default = "nats:2.10-alpine"

abbrev pub server_base : String
server_base =
    "# Generated by rpc-operator — do not edit by hand.\nserver_name: $POD_NAME\nlisten: 0.0.0.0:4222\nhttp: 0.0.0.0:8222\n\njetstream {\n  store_dir: \"/data/jetstream\"\n}\n"

-- one `nats-route` line
abbrev pub peer_route : String → ℕ → String
peer_route svc n = "    nats-route://" ++ svc ++ "-" ++ itoa n ++ "." ++ svc ++ ":6222\n"

-- natsServerConfig
unfoldable pub nats_server_config : String → ℕ → String
unfolding child_nats_name
nats_server_config project replicas =
    if leb replicas 1
    then server_base
    else let svc = child_nats_name project in
      server_base
      ++ "\ncluster {\n  name: "
      ++ quote project
      ++ "\n  listen: 0.0.0.0:6222\n  routes = [\n"
      ++ peer_route svc 0
      ++ peer_route svc 1
      ++ peer_route svc 2
      ++ "  ]\n}\n"

-- The NATS StatefulSet; the size of its volumes is set in its creation only.
pub record NatsServer : Type 0 where
  pub name : String
  pub image : String
  pub replicas : ℕ
  pub storage : ℕ

-- buildProjectNATSStatefulSet
unfoldable pub build_nats_server : String → String → ℕ → ℕ → NatsServer
unfolding child_nats_name
build_nats_server project image replicas storage = record {
  name = child_nats_name project;
  image = if image == "" then nats_image_default else image;
  replicas = replicas;
  storage = if nat_eq storage 0 then nats_storage_default else storage;
}
