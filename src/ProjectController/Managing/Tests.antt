-- ===== src/ProjectController/Managing/Tests.antt =====
-- The theorems on the reconcile of a project, at a project with one cache resource.
use rpc_operator.Prelude.{true, false, none, [], ◌∷◌}
use rpc_operator.Fallible
use rpc_operator.Api.Samples.{conditions}
use rpc_operator.Effects.{Every}
use rpc_operator.Project.Types.{Project}
use rpc_operator.Render.Value.{str}
use rpc_operator.ProjectController.Status.{no_phase, ProjectStatus, LiveProject}
use rpc_operator.ProjectController.Managing.{ProjectDeps, reconcile_live_project}
use rpc_operator.ProjectController.Managing.Deletion.{Ends}
use rpc_operator.ProjectController.Managing.Laws.{
  ReleasesProject, WritesProject, reconcile_live_project-ReleasesProject,
  reconcile_live_project-WritesProject,
}

abbrev deps : ProjectDeps
deps = record {
  conditions = conditions;
  codec = record {
    yaml_marshal = λ v. Fallible.ok "yaml";
    yaml_unmarshal = λ text. Fallible.ok (str text);
    json_unmarshal = λ text. Fallible.ok (str text);
  };
  parse = λ text. none;
  nats_image = "";
  has_streams = true;
  has_instances = true;
  has_recorder = true;
}

abbrev shop : Project
shop = record {
  name = "shop";
  namespace = "ns";
  spec = record {
    cluster = none;
    nats = none;
    routes = [];
    cache_resources = record { name = "seen"; nats_kv = none; config = "{}" } ∷ [];
  };
}

abbrev fresh : ProjectStatus
fresh = record {
  phase = no_phase;
  cluster = record { name = ""; ready = 0; total = 0 };
  nats = record { name = ""; ready = 0; total = 0 };
  routes = [];
  cache_resources = [];
  observed_generation = 0;
  conditions = [];
}

abbrev live_shop : LiveProject
live_shop = record {
  project = shop;
  generation = 1;
  is_deleting = false;
  has_finalizer = true;
  status = fresh;
}

abbrev deleted_shop : LiveProject
deleted_shop = record live_shop { is_deleting = true }

reconcile_live_project-ReleasesProject_example :
    Every (ReleasesProject deps deleted_shop) Ends [] (reconcile_live_project deps deleted_shop)
reconcile_live_project-ReleasesProject_example =
    reconcile_live_project-ReleasesProject deps deleted_shop

reconcile_live_project-WritesProject_example :
    Every (WritesProject deps live_shop) Ends [] (reconcile_live_project deps live_shop)
reconcile_live_project-WritesProject_example = reconcile_live_project-WritesProject deps live_shop
