-- ===== src/ProjectController/Watches/Tests.antt =====
-- The mapping of a change in a pod, at one project.
use rpc_operator.Prelude.{◌≡◌, [], ◌∷◌}
use rpc_operator.ProjectController.Resources.{child_cluster_name}
use rpc_operator.ProjectController.Watches.{
  projects_for_cluster_pod, projects_for_cluster_pod-child_cluster_name,
}

projects_for_cluster_pod-child_cluster_name_example :
    projects_for_cluster_pod (child_cluster_name "shop") "ns"
    ≡ record { name = "shop"; namespace = "ns" } ∷ []
projects_for_cluster_pod-child_cluster_name_example =
    projects_for_cluster_pod-child_cluster_name "shop" "ns"
