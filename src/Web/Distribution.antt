-- ===== src/Web/Distribution.antt =====
-- Which pipelines stand on which instance of a cluster (internal/api/cluster_aggregation.go).
pub mod Laws
mod Tests
use Prim.Native.String
use rpc_operator.Prelude.{
  ℕ, zero, suc, ◌<◌, String, Bool, false, Option, none, some, List, [], ◌∷◌, ◌++◌, ◌==◌,
  if◌then◌else◌,
}
use rpc_operator.Prelude.Int.{ℤ, pos, negsuc, int_eq, int_le}
use rpc_operator.Prelude.Decimal.{itoa, atoi}
use rpc_operator.Prelude.Quote.{quote}
use rpc_operator.Prelude.Sorting.{sort, text_le}
use rpc_operator.Prelude.Texts.{strip_prefix}
use rpc_operator.Api.Cluster.{Cluster, ClusterPhase}
use rpc_operator.Scheduler.{Pod, Placement, ordinal_of, ready_condition}

pub record ClusterInstance : Type 0 where
  pub name : String
  pub ordinal : ℤ
  pub ready : Bool
  pub assigned_pipelines : List String

pub record StalePlacement : Type 0 where
  pub pipeline : String
  pub assigned_instance : String

pub record ClusterDistribution : Type 0 where
  pub cluster : String
  pub namespace : String
  pub phase : ClusterPhase
  pub desired_replicas : ℕ
  pub ready_replicas : ℕ
  pub instances : List ClusterInstance
  pub stale_placements : List StalePlacement

-- instanceOrdinal
unfoldable pub instance_ordinal : String → String → Option ℤ
unfolding strip_prefix ordinal_of atoi
instance_ordinal instance_name cluster =
    elim (strip_prefix (String.◌++◌ cluster "-") instance_name) [
      | none ↦ none
      | some rest ↦ ordinal_of (atoi rest)
    ]

-- isPodReady of this file
abbrev pub is_instance_ready : Pod → Bool
is_instance_ready p = ready_condition p.conditions

-- the loop over the pods: `readyByOrdinal`
unfoldable pub ready_by_ordinal : String → List Pod → (ℤ → Bool) → ℤ → Bool
unfolding instance_ordinal
ready_by_ordinal cluster [] ready = ready
ready_by_ordinal cluster (p ∷ pods) ready =
    ready_by_ordinal cluster pods (elim (instance_ordinal p.name cluster) [
      | none ↦ ready
      | some o ↦ λ x. if int_eq o x then is_instance_ready p else ready x
    ])

-- `assignedByOrdinal` and `stale`
pub record Tally : Type 0 where
  pub assigned : ℤ → List String
  pub stale : List StalePlacement

abbrev pub add_assigned : ℤ → String → Tally → Tally
add_assigned o name t = record t {
  assigned = λ x. if int_eq o x then t.assigned x ++ name ∷ [] else t.assigned x;
}

abbrev pub add_stale : Placement → Tally → Tally
add_stale p t = record t {
  stale = t.stale ++ record { pipeline = p.name; assigned_instance = p.assigned_instance } ∷ [];
}

-- one round of the loop over the pipelines
unfoldable pub tally_one : String → ℕ → Placement → Tally → Tally
unfolding instance_ordinal
tally_one cluster replicas p t =
    if p.assigned_instance == "" then t else elim (instance_ordinal p.assigned_instance cluster) [
      | none ↦ t
      | some o ↦ if int_le (pos replicas) o then add_stale p t else add_assigned o p.name t
    ]

unfoldable pub tally : String → ℕ → List Placement → Tally → Tally
unfolding tally_one
tally cluster replicas [] t = t
tally cluster replicas (p ∷ ps) t = tally cluster replicas ps (tally_one cluster replicas p t)

-- the loop over the ordinals, `count` of them from `i`
unfoldable pub instances_from :
    String → (ℤ → Bool) → (ℤ → List String) → ℕ → ℕ → List ClusterInstance
unfolding sort
instances_from cluster ready assigned i zero = []
instances_from cluster ready assigned i (suc count) =
    record {
      name = String.◌++◌ cluster (String.◌++◌ "-" (itoa i));
      ordinal = pos i;
      ready = ready (pos i);
      assigned_pipelines = sort text_le (assigned (pos i));
    }
    ∷ instances_from cluster ready assigned (suc i) count

abbrev pub stale_le : StalePlacement → StalePlacement → Bool
stale_le a b = text_le a.pipeline b.pipeline

abbrev pub no_placements : Tally
no_placements = record { assigned = λ o. []; stale = [] }

-- aggregateDistribution
unfoldable pub aggregate_distribution : Cluster → List Pod → List Placement → ClusterDistribution
unfolding tally instances_from ready_by_ordinal sort
aggregate_distribution cluster pods ps =
    let placed = tally cluster.name cluster.spec.replicas ps no_placements in
    record {
      cluster = cluster.name;
      namespace = cluster.namespace;
      phase = cluster.status.phase;
      desired_replicas = cluster.spec.replicas;
      ready_replicas = cluster.status.ready_replicas;
      instances =
          instances_from cluster.name (ready_by_ordinal cluster.name pods (λ o. false))
            placed.assigned 0 cluster.spec.replicas;
      stale_placements = sort stale_le placed.stale;
    }

-- buildClusterMetricQuery
unfoldable pub build_cluster_metric_query : String → String → String → String
build_cluster_metric_query metric namespace cluster = String.◌++◌ "sum(rate(" (
    String.◌++◌ metric (
      String.◌++◌ "{namespace=" (
        String.◌++◌ (quote namespace)
          (String.◌++◌ ",pod=~\"" (String.◌++◌ cluster "-[0-9]+\"}[1m]))")))))
