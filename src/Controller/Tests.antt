-- ===== src/Controller/Tests.antt =====
-- The theorems on the Pipeline reconciler, with condition lists and codecs of plain functions.
use rpc_operator.Prelude.{◌≡◌, refl, true, false, none, [], inl}
use rpc_operator.Fallible
use rpc_operator.Api.{PipelineSpec, PipelineStatus, running}
use rpc_operator.Api.Samples.{conditions}
use rpc_operator.Effects.{ret, Every}
use rpc_operator.Render.Value.{obj, end}
use rpc_operator.Render.Document.{Codec}
use rpc_operator.Controller.Calls.{Pipeline, Deps, after_resync, done}
use rpc_operator.Controller.Status.{ClusterStatus, ready_condition, write_cluster_status}
use rpc_operator.Controller.Reconcile.{reconcile_pipeline}
use rpc_operator.Controller.Rules.{Anything}
use rpc_operator.Controller.Laws.{written, write_cluster_status-written}
use rpc_operator.Controller.Sound.Promises.{
  ReleasesFinalizer, WritesBacked, PlacesOnce, StaysStopped, SparesHealthy,
  reconcile_pipeline-SparesHealthy, reconcile_pipeline-ReleasesFinalizer,
  reconcile_pipeline-WritesBacked, reconcile_pipeline-PlacesOnce, reconcile_pipeline-StaysStopped,
}

abbrev codec : Codec
codec = record {
  yaml_unmarshal = λ s. Fallible.ok (obj end);
  yaml_marshal = λ v. Fallible.ok "rendered";
  json_unmarshal = λ s. Fallible.ok (obj end);
}

abbrev deps : Deps
deps = record {
  conditions = conditions;
  codec = codec;
  sha256_hex = λ s. s;
  secret_refs_json = λ refs. "[]";
}

abbrev placed_on_etl : PipelineStatus
placed_on_etl = record {
  phase = running;
  pod_name = "";
  assigned_cluster = "etl";
  assigned_instance = "etl-1";
  stream_id = "orders";
  stream_config_hash = "old";
  observed_generation = 1;
  conditions = [];
}

abbrev orders_spec : PipelineSpec
orders_spec = record {
  input = record { type = "generate"; label = ""; config = "" };
  processors = [];
  output = record { type = "drop"; label = ""; config = "" };
  raw_yaml = "";
  image = "connect";
  secret_refs = [];
  stopped = false;
  cluster_ref = "etl-large";
  project_ref = none;
}

-- a pipeline that moves to another cluster
abbrev orders : Pipeline
orders = record {
  name = "orders";
  namespace = "ns";
  generation = 2;
  deleting = false;
  has_finalizer = true;
  spec = orders_spec;
  status = placed_on_etl;
}

abbrev deleted_orders : Pipeline
deleted_orders = record orders { deleting = true }

abbrev stopped_orders : Pipeline
stopped_orders = record orders { spec = record orders_spec { stopped = true } }

reconcile_pipeline-ReleasesFinalizer_example :
    Every (ReleasesFinalizer deleted_orders) Anything [] (reconcile_pipeline deps deleted_orders)
reconcile_pipeline-ReleasesFinalizer_example =
    reconcile_pipeline-ReleasesFinalizer deps deleted_orders

reconcile_pipeline-WritesBacked_example :
    Every (WritesBacked deps orders) Anything [] (reconcile_pipeline deps orders)
reconcile_pipeline-WritesBacked_example = reconcile_pipeline-WritesBacked deps orders

reconcile_pipeline-PlacesOnce_example :
    Every (PlacesOnce orders) Anything [] (reconcile_pipeline deps orders)
reconcile_pipeline-PlacesOnce_example = reconcile_pipeline-PlacesOnce deps orders

reconcile_pipeline-StaysStopped_example :
    Every (StaysStopped stopped_orders) Anything [] (reconcile_pipeline deps stopped_orders)
reconcile_pipeline-StaysStopped_example = reconcile_pipeline-StaysStopped deps stopped_orders

reconcile_pipeline-SparesHealthy_example :
    Every (SparesHealthy deps orders) Anything [] (reconcile_pipeline deps orders)
reconcile_pipeline-SparesHealthy_example = reconcile_pipeline-SparesHealthy deps orders

abbrev wanted : ClusterStatus
wanted = record {
  phase = running;
  assigned_cluster = "etl";
  assigned_instance = "etl-1";
  stream_id = "orders";
  stream_config_hash = "new";
  ready = ready_condition "True" "Assigned" "stream running on etl-1";
  stream_active = none;
}

write_cluster_status-written_example :
    write_cluster_status deps (written deps orders wanted) wanted after_resync
    ≡ ret (done after_resync)
write_cluster_status-written_example =
    write_cluster_status-written deps orders wanted after_resync (refl, inl refl)
