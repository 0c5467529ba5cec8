-- ===== src/Project/Cycle/Search.antt =====
-- The search itself. `path` is kept as the source keeps it, its last node at the end.
use rpc_operator.Prelude.{
  ℕ, zero, suc, String, List, [], ◌∷◌, ◌++◌, Option, none, some, ◌==◌, if◌then◌else◌, length,
}
use rpc_operator.Prelude.Sorting.{sort}
use rpc_operator.Project.Types.{ProjectRoute}
use rpc_operator.Project.Cycle.Graph.{Graph, build_graph}

pub data Color : Type 0 where
  white gray black : Color

pub record Dfs : Type 0 where
  pub color : String → Color
  pub path : List String

pub data Outcome : Type 0 where
  found : List String → Outcome
  clear : Dfs → Outcome
  out_of_fuel : Outcome

-- `color[n] = c`
abbrev pub paint : String → Color → (String → Color) → String → Color
paint n c color m = if n == m then c else color m

-- `path[:len(path)-1]`
unfoldable pub drop_last : List String → List String
drop_last [] = []
drop_last (x ∷ []) = []
drop_last (x ∷ y ∷ l) = x ∷ drop_last (y ∷ l)

-- `path[idx:]` for the first `idx` with `path[idx] == m`
unfoldable pub suffix_from : String → List String → Option (List String)
suffix_from m [] = none
suffix_from m (x ∷ l) = if x == m then some (x ∷ l) else suffix_from m l

-- `path = append(path, n)` and `color[n] = gray`
unfoldable pub enter : String → Dfs → Dfs
enter n st = record { color = paint n gray st.color; path = st.path ++ n ∷ [] }

-- `path = path[:len(path)-1]` and `color[n] = black`
unfoldable pub leave : String → Dfs → Dfs
leave n st = record { color = paint n black st.color; path = drop_last st.path }

-- what follows a recursive call
abbrev pub and_then : Outcome → (Dfs → Outcome) → Outcome
and_then (found c) k = found c
and_then (clear st) k = k st
and_then out_of_fuel k = out_of_fuel

-- the loop over `adj[n]`, with the recursive call as an argument
unfoldable pub scan : (String → Dfs → Outcome) → List String → Dfs → Outcome
scan call [] st = clear st
scan call (m ∷ ms) st = elim (st.color m) [
  | gray ↦ elim (suffix_from m st.path) [
    | some cycle ↦ found (cycle ++ m ∷ [])
    | none ↦ scan call ms st
  ]
  | white ↦ and_then (call m st) (scan call ms)
  | black ↦ scan call ms st
]

module _ (g : Graph) where
  unfoldable pub dfs : ℕ → String → Dfs → Outcome
  unfolding enter leave
  dfs zero n st = out_of_fuel
  dfs (suc fuel) n st =
      and_then (scan (dfs fuel) (g.adj n) (enter n st)) (λ after. clear (leave n after))

  -- the loop over all nodes
  unfoldable pub dfs_all : ℕ → List String → Dfs → Outcome
  unfolding dfs
  dfs_all fuel [] st = clear st
  dfs_all fuel (n ∷ ns) st = elim (st.color n) [
    | white ↦ and_then (dfs fuel n st) (dfs_all fuel ns)
    | _ ↦ dfs_all fuel ns st
  ]

abbrev pub start : Dfs
start = record { color = λ _. white; path = [] }

-- A call turns a white node gray, so that the number of nodes bounds the depth.
unfoldable pub find_cycle : List ProjectRoute → Outcome
unfolding build_graph dfs_all scan sort suffix_from
find_cycle routes = let g = build_graph routes in dfs_all g (length g.nodes) g.nodes start
