-- ===== src/Project/Cycle/Correct.antt =====
-- `findCycle` of internal/projectroute/projectroute.go decides whether the routes close a cycle.
use mathlib.Core.WellFounded.{Acc}
use rpc_operator.Prelude.{ℕ, String, ◌≡◌, refl, List, [], ◌∷◌, Memᴰ, All-Memᴰ, ◌∙◌, length}
use rpc_operator.Project.Types.{ProjectRoute}
use rpc_operator.Project.Cycle.Graph.{build_graph, Edge, Leads, one, more}
use rpc_operator.Project.Cycle.Search.{
  Color, white, gray, black, Dfs, Outcome, found, clear, out_of_fuel, dfs, dfs_all, suffix_from,
  start, find_cycle,
}
use rpc_operator.Project.Cycle.Edges.{Edge-nodes}
use rpc_operator.Project.Cycle.Paths.{whites-le-length}
use rpc_operator.Project.Cycle.Invariant.{
  Decides, Next, Inv, Kept, Kept-refl, After, After-cons, After-and_then, dfs-After,
}

Leads-snoc :
    {routes : List ProjectRoute} {u v w : String}
    → Leads routes u v
    → Edge routes v w
    → Leads routes u w
Leads-snoc (one e) f = more e (one f)
Leads-snoc (more e l) f = more e (Leads-snoc l f)

-- a node that is accessible backwards is on no cycle
Acc-not-Leads : (routes : List ProjectRoute) (u : String) → Acc (Next routes) u → ¬ Leads routes u u
Acc-not-Leads routes u (Acc.intro _ smaller) (one e) = Acc-not-Leads routes u (smaller u e) (one e)
Acc-not-Leads routes u (Acc.intro _ smaller) (more {v = v} e l) =
    Acc-not-Leads routes v (smaller v e) (Leads-snoc l e)

-- the last node of a walk of one or more steps is a node of the graph
Leads-nodes :
    (routes : List ProjectRoute) {u v : String}
    → Leads routes u v
    → Memᴰ v (build_graph routes).nodes
Leads-nodes routes (one {u} {v} e) = Edge-nodes routes u v e
Leads-nodes routes (more e l) = Leads-nodes routes l

module _ (routes : List ProjectRoute) where
  dfs_all-After :
      (ns : List String) (st : Dfs)
      → ((m : String) → Memᴰ m ns → Memᴰ m (build_graph routes).nodes)
      → Inv routes st
      → st.path ≡ []
      → After routes ns st (dfs_all (build_graph routes) (length (build_graph routes).nodes) ns st)
  unfolding dfs_all suffix_from
  dfs_all-After [] st known inv empty = (inv, Kept-refl st, tt)
  dfs_all-After (n ∷ ns) st known inv empty =
      by_color (st.color n) refl λ st' inv' kept.
        dfs_all-After ns st' (λ m k. known m (Memᴰ.tail k)) inv' (kept.path ∙ empty)
    where
      fuel : ℕ
      fuel = length (build_graph routes).nodes

      by_color :
          (c : Color)
          → st.color n ≡ c
          → ((st' : Dfs)
              → Inv routes st'
              → Kept st st'
              → After routes ns st' (dfs_all (build_graph routes) fuel ns st'))
          → After routes (n ∷ ns) st (dfs_all (build_graph routes) fuel (n ∷ ns) st)
      by_color white e next =
          rw (e, After)
            (After-and_then routes n ns st (dfs_all (build_graph routes) fuel ns)
              (dfs (build_graph routes) fuel n st)
              (dfs-After routes fuel n st (known n (Memᴰ.head refl)) inv e (rw empty tt)
                (whites-le-length st.color (build_graph routes).nodes))
              next)
      by_color gray e next = let (s, h) = inv.gray_on_path n e in cc (empty, h)
      by_color black e next =
          rw (e, After)
            (After-cons routes n ns (dfs_all (build_graph routes) fuel ns st) (Kept-refl st) e
              (next st inv (Kept-refl st)))

  Inv-start : Inv routes start
  Inv-start = record { gray_on_path = λ m h. cc; black_done = λ m h. cc; walk = tt }

  After-Decides :
      (st : Dfs) (o : Outcome) → After routes (build_graph routes).nodes st o → Decides routes o
  After-Decides st (found c) h = h
  After-Decides st (clear st') h = λ u l.
      Acc-not-Leads routes u
        (h.0.black_done u (All-Memᴰ (λ m. st'.color m ≡ black) _ h.2 (Leads-nodes routes l))) l
  After-Decides st out_of_fuel h = h

-- For every route table `findCycle` ends: the list it returns is a walk along the routes that comes
-- back to its first node, and where it returns nil no pipeline leads back to itself.
pub find_cycle-Decides : (routes : List ProjectRoute) → Decides routes (find_cycle routes)
unfolding find_cycle
find_cycle-Decides routes =
    After-Decides routes start _
      (dfs_all-After routes (build_graph routes).nodes start (λ m k. k) (Inv-start routes) refl)
