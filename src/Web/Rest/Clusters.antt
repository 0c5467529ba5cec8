-- ===== src/Web/Rest/Clusters.antt =====
-- The handlers of clusters (internal/api/handlers_clusters.go).
use rpc_operator.Prelude.{String, ◌||◌, some, List, [], ◌∷◌, ◌==◌, if◌then◌else◌}
use rpc_operator.Effects.{ret, ask}
use rpc_operator.Controller.Calls.{Pipeline}
use rpc_operator.Scheduler.{Placement}
use rpc_operator.Web.Distribution.{aggregate_distribution}
use rpc_operator.Web.Access.{Server, Head, Context}
use rpc_operator.Web.Rest.Calls.{
  pipelines, clusters, list, get, list_pods, distribution, RestAct, RestResponse, answered,
  with_client,
}
use rpc_operator.Web.Rest.Shared.{
  RestDeps, Body, decoded, with_spec_of, list_all, list_namespaced, get_one, delete_one, store_new,
  store_changed, placed,
}

module _ (deps : RestDeps) (body : Body) where
  -- handleCreateCluster
  unfoldable pub handle_create_cluster : Head → Context → RestAct RestResponse
  handle_create_cluster head ctx = decoded (body clusters) (λ b.
      placed deps.server clusters head b
        (λ cl. with_client deps.server ctx (λ c. store_new deps.server clusters c cl)))

  -- handleUpdateCluster
  unfoldable pub handle_update_cluster : Head → Context → RestAct RestResponse
  handle_update_cluster head ctx = decoded (body clusters) (λ b. with_client deps.server ctx (λ c.
      ask (get c clusters head.namespace head.name) (λ r.
        answered r
          (λ current. store_changed deps.server clusters c (with_spec_of clusters b current)))))

module _ (server : Server) where
  abbrev pub handle_list_all_clusters : Head → Context → RestAct RestResponse
  handle_list_all_clusters = list_all server clusters

  abbrev pub handle_list_namespaced_clusters : Head → Context → RestAct RestResponse
  handle_list_namespaced_clusters = list_namespaced server clusters

  abbrev pub handle_get_cluster : Head → Context → RestAct RestResponse
  handle_get_cluster = get_one server clusters

  abbrev pub handle_delete_cluster : Head → Context → RestAct RestResponse
  handle_delete_cluster = delete_one server clusters

-- what aggregateDistribution reads of a pipeline
abbrev pub placement_of : Pipeline → Placement
placement_of p = record {
  name = p.name;
  assigned_cluster = p.status.assigned_cluster;
  assigned_instance = p.status.assigned_instance;
}

-- the loop that collects the pipelines of a cluster
unfoldable pub pipelines_of : String → List Pipeline → List Placement
pipelines_of name [] = []
pipelines_of name (p ∷ ps) =
    let rest = pipelines_of name ps in
    if p.spec.cluster_ref == name || p.status.assigned_cluster == name
    then placement_of p ∷ rest
    else rest

-- handleClusterInstances
unfoldable pub handle_cluster_instances : Server → Head → Context → RestAct RestResponse
unfolding pipelines_of aggregate_distribution
handle_cluster_instances server head ctx = with_client server ctx (λ c.
    ask (get c clusters head.namespace head.name) (λ r. answered r (λ cluster.
      ask (list_pods c head.namespace head.name) (λ r'. answered r' (λ pods.
        ask (list c pipelines (some head.namespace)) (λ r''. answered r'' (λ ps.
          ret
            (distribution (aggregate_distribution cluster pods (pipelines_of head.name ps))))))))))
