-- ===== src/Web/Distribution/Tests.antt =====
-- The theorem on the view of a cluster, at a cluster of two instances with a stale placement.
use rpc_operator.Prelude.{◌≡◌, refl, true, List, [], ◌∷◌, map}
use rpc_operator.Prelude.Int.{to_int32}
use rpc_operator.Prelude.Quote.{quote}
use rpc_operator.Api.Cluster.{Cluster, ready}
use rpc_operator.Scheduler.{Pod, Placement}
use rpc_operator.Web.Distribution.{
  ClusterInstance, aggregate_distribution, build_cluster_metric_query,
}
use rpc_operator.Web.Distribution.Laws.{Shows, aggregate_distribution-Shows}

abbrev etl : Cluster
etl = record {
  name = "etl";
  namespace = "ns";
  generation = 1;
  spec = record { replicas = 2; image = ""; json_logging = true };
  status = record { phase = ready; ready_replicas = 2; observed_generation = 1; conditions = [] };
}

abbrev pods : List Pod
pods = record { name = "etl-1"; conditions = ("Ready", "True") ∷ [] } ∷ []

abbrev placements : List Placement
placements =
    record { name = "b"; assigned_cluster = "etl"; assigned_instance = "etl-1" }
    ∷ record { name = "a"; assigned_cluster = "etl"; assigned_instance = "etl-1" }
    ∷ record { name = "c"; assigned_cluster = "etl"; assigned_instance = "etl-4" }
    ∷ []

names_on_etl :
    map
      (λ (i : ClusterInstance). i.assigned_pipelines)
      (aggregate_distribution etl pods placements).instances
    ≡ [] ∷ ("a" ∷ "b" ∷ []) ∷ []
unfolding aggregate_distribution to_int32
names_on_etl = refl

query_of_etl :
    build_cluster_metric_query "output_sent" "ns" "etl"
    ≡ "sum(rate(output_sent{namespace=\"ns\",pod=~\"etl-[0-9]+\"}[1m]))"
unfolding build_cluster_metric_query quote
query_of_etl = refl

aggregate_distribution-Shows_example : Shows etl pods placements
aggregate_distribution-Shows_example = aggregate_distribution-Shows etl pods placements
