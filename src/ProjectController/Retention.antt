-- ===== src/ProjectController/Retention.antt =====
-- Which retention a route's stream gets (projectDefaultRetention, mergeRetention and retentionFrom of
-- internal/controller/pipelineproject_routes.go).
use rpc_operator.Prelude.{ℕ, ◌*◌, Option, none, some, if◌then◌else◌, nat_eq}
use rpc_operator.Project.Types.{NatsRetention, ProjectRoute, Project}
use rpc_operator.ProjectController.Calls.{Retention}

abbrev pub or_zero : Option ℕ → ℕ
or_zero none = 0
or_zero (some n) = n

unfoldable pub retention_from : NatsRetention → Retention
retention_from r = record {
  max_age = or_zero r.max_age;
  max_bytes = or_zero r.max_bytes;
  max_msgs = or_zero r.max_msgs;
}

abbrev pub day : ℕ
day = 24 * 3600 * 1000000000

-- 1 << 30
abbrev pub gibibyte : ℕ
gibibyte = 1073741824

-- `if n == 0 { n = d }`
abbrev pub if_unset : ℕ → ℕ → ℕ
if_unset n d = if nat_eq n 0 then d else n

unfoldable pub default_retention : Project → Retention
default_retention project = elim project.spec.nats [
  | none ↦ record { max_age = day; max_bytes = gibibyte; max_msgs = 0 }
  | some nats ↦
      let ret = retention_from nats.retention in
      record ret { max_age = if_unset ret.max_age day; max_bytes = if_unset ret.max_bytes gibibyte }
]

unfoldable pub merge_retention : Retention → NatsRetention → Retention
merge_retention base override =
    let o = retention_from override in
    record {
      max_age = if_unset o.max_age base.max_age;
      max_bytes = if_unset o.max_bytes base.max_bytes;
      max_msgs = if_unset o.max_msgs base.max_msgs;
    }

unfoldable pub route_retention : Project → ProjectRoute → Retention
route_retention project route = elim route.retention [
  | none ↦ default_retention project
  | some override ↦ merge_retention (default_retention project) override
]
