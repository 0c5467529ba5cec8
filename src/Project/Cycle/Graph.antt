-- ===== src/Project/Cycle/Graph.antt =====
-- The route graph that `findCycle` builds, and what a walk and a cycle of it are.
use rpc_operator.Prelude.{String, ◌≡◌, List, [], ◌∷◌, ◌++◌, Memᴰ, any, ◌==◌, if◌then◌else◌}
use rpc_operator.Prelude.Sorting.{sort, text_le}
use rpc_operator.Project.Types.{RouteTarget, ProjectRoute}

-- `nodeSet[n] = true`
unfoldable pub add_node : String → List String → List String
add_node n nodes = if any (λ m. m == n) nodes then nodes else nodes ++ n ∷ []

pub record Graph : Type 0 where
  pub adj : String → List String
  pub nodes : List String

-- one round of the inner loop: `adj[f] = append(adj[f], to); nodeSet[to] = true`
unfoldable pub add_edge : String → Graph → RouteTarget → Graph
unfolding add_node
add_edge f g t = record {
  adj = λ n. if f == n then g.adj f ++ t.pipeline ∷ [] else g.adj n;
  nodes = add_node t.pipeline g.nodes;
}

unfoldable pub add_edges : String → Graph → List RouteTarget → Graph
unfolding add_edge
add_edges f g [] = g
add_edges f g (t ∷ ts) = add_edges f (add_edge f g t) ts

unfoldable pub add_routes : Graph → List ProjectRoute → Graph
unfolding add_edges
add_routes g [] = g
add_routes g (r ∷ rs) =
    add_routes (add_edges r.from (record g { nodes = add_node r.from g.nodes }) r.to) rs

-- the graph with its nodes and each node's targets sorted
unfoldable pub build_graph : List ProjectRoute → Graph
unfolding add_routes
build_graph routes =
    let g = add_routes (record { adj = λ _. []; nodes = [] }) routes in
    record { adj = λ n. sort text_le (g.adj n); nodes = sort text_le g.nodes }

-- There is a route from `u` with a target `v`.
pub record Edge (routes : List ProjectRoute) (u v : String) : Type 0 where
  pub route : ProjectRoute
  pub target : RouteTarget
  pub listed : Memᴰ route routes
  pub aimed : Memᴰ target route.to
  pub starts : route.from ≡ u
  pub ends : target.pipeline ≡ v

-- Each node of the list has an edge to the next one.
abbrev pub IsWalk : List ProjectRoute → List String → Type 0
IsWalk routes [] = Unit
IsWalk routes (u ∷ []) = Unit
IsWalk routes (u ∷ v ∷ l) = Edge routes u v × IsWalk routes (v ∷ l)

-- The routes lead from `u` to `v` in one or more steps.
pub data Leads (routes : List ProjectRoute) : String → String → Type 0 where
  one : {u v : String} → Edge routes u v → Leads routes u v
  more : {u v w : String} → Edge routes u v → Leads routes v w → Leads routes u w
