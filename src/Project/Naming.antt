-- ===== src/Project/Naming.antt =====
-- The naming convention of a project's NATS objects (internal/projectroute/projectroute.go).
use Prim.Native.String.{◌++◌}
use rpc_operator.Prelude.{String}

-- StreamName: fmt.Sprintf("rpc-%s-%s", project, route)
unfoldable pub stream_name : String → String → String
stream_name project route = "rpc-" ++ project ++ "-" ++ route

unfoldable pub cache_bucket : String → String → String
cache_bucket project name = "rpc-" ++ project ++ "-" ++ name

unfoldable pub subject : String → String → String
subject project route = "rpc." ++ project ++ "." ++ route

unfoldable pub durable_name : String → String → String → String
durable_name project route pipeline = project ++ "-" ++ route ++ "-" ++ pipeline

unfoldable pub nats_url : String → String → String
nats_url project namespace = "nats://" ++ project ++ "-nats." ++ namespace ++ ".svc:4222"
