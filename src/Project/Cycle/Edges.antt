-- ===== src/Project/Cycle/Edges.antt =====
-- The adjacency lists of the built graph hold the edges of the routes, and its nodes their ends.
use mathlib.Core.List.Memᴰ
use rpc_operator.Prelude.{
  String, ◌≡◌, refl, ◌⊎◌, inl, inr, List, [], ◌∷◌, Memᴰ, true, any, ◌==◌, Text-cases, Bool-cases,
  eq_refl, subst, sym,
}
use rpc_operator.Prelude.Sorting.{text_le, sort-Memᴰ}
use rpc_operator.Project.Types.{RouteTarget, ProjectRoute}
use rpc_operator.Project.Cycle.Graph.{
  Graph, add_node, add_edge, add_edges, add_routes, build_graph, Edge,
}

any-Memᴰ : (n : String) (l : List String) → any (λ m. m == n) l ≡ true → Memᴰ n l
any-Memᴰ n [] h = cc
any-Memᴰ n (m ∷ l) h = elim (Text-cases m n) [
  | inl same ↦ Memᴰ.head (sym same)
  | inr other ↦ Memᴰ.tail (any-Memᴰ n l (rw other at h))
]

add_node-Memᴰ_self : (n : String) (nodes : List String) → Memᴰ n (add_node n nodes)
unfolding add_node
add_node-Memᴰ_self n nodes = elim (Bool-cases (any (λ m. m == n) nodes)) [
  | inl h ↦ rw h (any-Memᴰ n nodes h)
  | inr h ↦ rw h (Memᴰ.append_right nodes (Memᴰ.head refl))
]

add_node-Memᴰ :
    (n : String) (nodes : List String) {x : String} → Memᴰ x nodes → Memᴰ x (add_node n nodes)
unfolding add_node
add_node-Memᴰ n nodes m = elim (Bool-cases (any (λ m. m == n) nodes)) [
  | inl h ↦ rw h m
  | inr h ↦ rw h (Memᴰ.append_left _ m)
]

-- A target of `f` in the list, or a neighbour from before.
record Added (f : String) (g : Graph) (ts : List RouteTarget) (u v : String) : Type 0 where
  target : RouteTarget
  aimed : Memᴰ target ts
  starts : f ≡ u
  ends : target.pipeline ≡ v

module _ (f : String) where
  add_edge-adj_keeps :
      (g : Graph) (t : RouteTarget) (u : String) {v : String}
      → Memᴰ v (g.adj u)
      → Memᴰ v ((add_edge f g t).adj u)
  unfolding add_edge
  add_edge-adj_keeps g t u {v} m = elim (Text-cases f u) [
    | inl same ↦
        rw (← same, eq_refl f) (Memᴰ.append_left _ (subst (λ w. Memᴰ v (g.adj w)) (sym same) m))
    | inr other ↦ rw other m
  ]

  add_edge-adj_self : (g : Graph) (t : RouteTarget) → Memᴰ t.pipeline ((add_edge f g t).adj f)
  unfolding add_edge
  add_edge-adj_self g t = rw (eq_refl f) (Memᴰ.append_right (g.adj f) (Memᴰ.head refl))

  add_edges-adj_keeps :
      (g : Graph) (ts : List RouteTarget) (u : String) {v : String}
      → Memᴰ v (g.adj u)
      → Memᴰ v ((add_edges f g ts).adj u)
  unfolding add_edges
  add_edges-adj_keeps g [] u m = m
  add_edges-adj_keeps g (t ∷ ts) u m =
      add_edges-adj_keeps (add_edge f g t) ts u (add_edge-adj_keeps g t u m)

  add_edges-adj_self :
      (g : Graph) (ts : List RouteTarget) {t : RouteTarget}
      → Memᴰ t ts
      → Memᴰ t.pipeline ((add_edges f g ts).adj f)
  unfolding add_edges
  add_edges-adj_self g [] m = elim m [ ]
  add_edges-adj_self g (t' ∷ ts) {t} (Memᴰ.head e) =
      rw e (add_edges-adj_keeps (add_edge f g t') ts f (add_edge-adj_self g t'))
  add_edges-adj_self g (t' ∷ ts) (Memᴰ.tail m) = add_edges-adj_self (add_edge f g t') ts m

  add_edge-adj_cases :
      (g : Graph) (t : RouteTarget) (u v : String)
      → Memᴰ v ((add_edge f g t).adj u)
      → ((f ≡ u) × (t.pipeline ≡ v)) ⊎ Memᴰ v (g.adj u)
  unfolding add_edge
  add_edge-adj_cases g t u v m = elim (Text-cases f u) [
    | inl same ↦ here same (Memᴰ.append_cases (g.adj f) (rw (← same, eq_refl f) at m))
    | inr other ↦ inr (rw other at m)
  ]
    where
      here :
          f ≡ u
          → Memᴰ v (g.adj f) ⊎ Memᴰ v (t.pipeline ∷ [])
          → ((f ≡ u) × (t.pipeline ≡ v)) ⊎ Memᴰ v (g.adj u)
      here same (inl k) = inr (subst (λ w. Memᴰ v (g.adj w)) same k)
      here same (inr k) = inl (same, sym (Memᴰ.eq_of_singleton k))

  add_edges-adj_cases :
      (g : Graph) (ts : List RouteTarget) (u v : String)
      → Memᴰ v ((add_edges f g ts).adj u)
      → Added f g ts u v ⊎ Memᴰ v (g.adj u)
  unfolding add_edges
  add_edges-adj_cases g [] u v m = inr m
  add_edges-adj_cases g (t ∷ ts) u v m = elim (add_edges-adj_cases (add_edge f g t) ts u v m) [
    | inl a ↦
        inl (record {
          target = a.target;
          aimed = Memᴰ.tail a.aimed;
          starts = a.starts;
          ends = a.ends;
        })
    | inr k ↦ elim (add_edge-adj_cases g t u v k) [
      | inl e ↦ inl (record { target = t; aimed = Memᴰ.head refl; starts = e.0; ends = e.1 })
      | inr old ↦ inr old
    ]
  ]

  add_edges-nodes_keeps :
      (g : Graph) (ts : List RouteTarget) {x : String}
      → Memᴰ x g.nodes
      → Memᴰ x (add_edges f g ts).nodes
  unfolding add_edges
  add_edges-nodes_keeps g [] m = m
  add_edges-nodes_keeps g (t ∷ ts) m =
      add_edges-nodes_keeps (add_edge f g t) ts (add_node-Memᴰ t.pipeline g.nodes m)

  add_edges-nodes_self :
      (g : Graph) (ts : List RouteTarget) {t : RouteTarget}
      → Memᴰ t ts
      → Memᴰ t.pipeline (add_edges f g ts).nodes
  unfolding add_edges
  add_edges-nodes_self g [] m = elim m [ ]
  add_edges-nodes_self g (t' ∷ ts) (Memᴰ.head e) =
      rw e (add_edges-nodes_keeps (add_edge f g t') ts (add_node-Memᴰ_self t'.pipeline g.nodes))
  add_edges-nodes_self g (t' ∷ ts) (Memᴰ.tail m) = add_edges-nodes_self (add_edge f g t') ts m

-- the graph after one route
abbrev with_route : Graph → ProjectRoute → Graph
with_route g r = add_edges r.from (record g { nodes = add_node r.from g.nodes }) r.to

add_routes-adj_keeps :
    (g : Graph) (rs : List ProjectRoute) (u : String) {v : String}
    → Memᴰ v (g.adj u)
    → Memᴰ v ((add_routes g rs).adj u)
unfolding add_routes
add_routes-adj_keeps g [] u m = m
add_routes-adj_keeps g (r ∷ rs) u m =
    add_routes-adj_keeps (with_route g r) rs u (add_edges-adj_keeps r.from _ r.to u m)

add_routes-adj_self :
    (g : Graph) (rs : List ProjectRoute) {r : ProjectRoute} {t : RouteTarget}
    → Memᴰ r rs
    → Memᴰ t r.to
    → Memᴰ t.pipeline ((add_routes g rs).adj r.from)
unfolding add_routes
add_routes-adj_self g [] m a = elim m [ ]
add_routes-adj_self g (r' ∷ rs) {r} {t} (Memᴰ.head e) a = rw e (
    add_routes-adj_keeps (with_route g r') rs r'.from
      (add_edges-adj_self r'.from _ r'.to (subst (λ x. Memᴰ t x.to) e a)))
add_routes-adj_self g (r' ∷ rs) (Memᴰ.tail m) a = add_routes-adj_self (with_route g r') rs m a

add_routes-adj_cases :
    (g : Graph) (rs : List ProjectRoute) (u v : String)
    → Memᴰ v ((add_routes g rs).adj u)
    → Edge rs u v ⊎ Memᴰ v (g.adj u)
unfolding add_routes
add_routes-adj_cases g [] u v m = inr m
add_routes-adj_cases g (r ∷ rs) u v m = elim (add_routes-adj_cases (with_route g r) rs u v m) [
  | inl e ↦ inl (record {
    route = e.route;
    target = e.target;
    listed = Memᴰ.tail e.listed;
    aimed = e.aimed;
    starts = e.starts;
    ends = e.ends;
  })
  | inr k ↦ elim (add_edges-adj_cases r.from _ r.to u v k) [
    | inl a ↦ inl (record {
      route = r;
      target = a.target;
      listed = Memᴰ.head refl;
      aimed = a.aimed;
      starts = a.starts;
      ends = a.ends;
    })
    | inr old ↦ inr old
  ]
]

add_routes-nodes_keeps :
    (g : Graph) (rs : List ProjectRoute) {x : String}
    → Memᴰ x g.nodes
    → Memᴰ x (add_routes g rs).nodes
unfolding add_routes
add_routes-nodes_keeps g [] m = m
add_routes-nodes_keeps g (r ∷ rs) m =
    add_routes-nodes_keeps (with_route g r) rs
      (add_edges-nodes_keeps r.from _ r.to (add_node-Memᴰ r.from g.nodes m))

add_routes-nodes_target :
    (g : Graph) (rs : List ProjectRoute) {r : ProjectRoute} {t : RouteTarget}
    → Memᴰ r rs
    → Memᴰ t r.to
    → Memᴰ t.pipeline (add_routes g rs).nodes
unfolding add_routes
add_routes-nodes_target g [] m a = elim m [ ]
add_routes-nodes_target g (r' ∷ rs) {t = t} (Memᴰ.head e) a =
    add_routes-nodes_keeps (with_route g r') rs
      (add_edges-nodes_self r'.from _ r'.to (subst (λ x. Memᴰ t x.to) e a))
add_routes-nodes_target g (r' ∷ rs) (Memᴰ.tail m) a =
    add_routes-nodes_target (with_route g r') rs m a

module _ (routes : List ProjectRoute) where
  pub adj-Edge : (u v : String) → Memᴰ v ((build_graph routes).adj u) → Edge routes u v
  unfolding build_graph
  adj-Edge u v m =
      let g : Graph = record { adj = λ _. []; nodes = [] } in
      elim (add_routes-adj_cases g routes u v ((sort-Memᴰ text_le _).0 m)) [
        | inl e ↦ e
        | inr k ↦ absurd (Memᴰ.not-nil k)
      ]

  pub Edge-adj : (u v : String) → Edge routes u v → Memᴰ v ((build_graph routes).adj u)
  unfolding build_graph
  Edge-adj u v e =
      (sort-Memᴰ text_le _).1
        (rw (← e.starts, ← e.ends) (add_routes-adj_self _ routes e.listed e.aimed))

  pub Edge-nodes : (u v : String) → Edge routes u v → Memᴰ v (build_graph routes).nodes
  unfolding build_graph
  Edge-nodes u v e =
      (sort-Memᴰ text_le _).1 (rw (← e.ends) (add_routes-nodes_target _ routes e.listed e.aimed))
