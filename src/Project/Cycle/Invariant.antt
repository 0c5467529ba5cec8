-- ===== src/Project/Cycle/Invariant.antt =====
-- The invariant of the search of `findCycle` (internal/projectroute/projectroute.go), and that every
-- call keeps it.
use mathlib.Core.WellFounded.{Acc}
use rpc_operator.Prelude.{
  ℕ, zero, suc, ◌≤◌, String, ◌≡◌, refl, inl, inr, List, [], ◌∷◌, ◌++◌, Memᴰ, some, All, All-Memᴰ,
  All-of_Memᴰ, Text-cases, eq_refl, arith, ◌∙◌, ap, subst,
}
use rpc_operator.Project.Types.{ProjectRoute}
use rpc_operator.Project.Cycle.Graph.{build_graph, Edge, IsWalk, Leads}
use rpc_operator.Project.Cycle.Search.{
  Color, white, gray, black, Dfs, Outcome, found, clear, out_of_fuel, drop_last, suffix_from, enter,
  leave, and_then, scan, dfs,
}
use rpc_operator.Project.Cycle.Edges.{adj-Edge, Edge-adj, Edge-nodes}
use rpc_operator.Project.Cycle.Paths.{
  drop_last-snoc, suffix_from-snoc_self, suffix_from-snoc, suffix_from-snoc_ne, IsWalk-snoc,
  suffix_from-IsWalk, whites, whites-le, whites-pos, whites-paint,
}

-- A walk that comes back to its first node.
pub record IsCycle (routes : List ProjectRoute) (c : List String) : Type 0 where
  pub first : String
  pub between : List String
  pub shape : c ≡ first ∷ (between ++ first ∷ [])
  pub walk : IsWalk routes c

-- What each outcome of the search says of the routes.
abbrev pub Decides : List ProjectRoute → Outcome → Type 0
Decides routes (found c) = IsCycle routes c
Decides routes (clear st) = (u : String) → ¬ Leads routes u u
Decides routes out_of_fuel = ⊥

abbrev pub Next : List ProjectRoute → String → String → Type 0
Next routes v u = Edge routes u v

-- The invariant: gray nodes are on the path, black nodes lead to no cycle, and the path is a walk.
pub record Inv (routes : List ProjectRoute) (st : Dfs) : Type 0 where
  pub gray_on_path :
      (m : String) → st.color m ≡ gray → (s : List String) × (suffix_from m st.path ≡ some s)
  pub black_done : (m : String) → st.color m ≡ black → Acc (Next routes) m
  pub walk : IsWalk routes st.path

pub record Kept (st st' : Dfs) : Type 0 where
  pub path : st'.path ≡ st.path
  pub blacks : (m : String) → st.color m ≡ black → st'.color m ≡ black
  pub whites : (m : String) → st'.color m ≡ white → st.color m ≡ white

pub Kept-refl : (st : Dfs) → Kept st st
Kept-refl st = record { path = refl; blacks = λ m h. h; whites = λ m h. h }

pub Kept-trans : {a b c : Dfs} → Kept a b → Kept b c → Kept a c
Kept-trans h k = record {
  path = k.path ∙ h.path;
  blacks = λ m e. k.blacks m (h.blacks m e);
  whites = λ m e. h.whites m (k.whites m e);
}

module _ (routes : List ProjectRoute) where
  abbrev pub AllBlack : Dfs → List String → Type 0
  AllBlack st = All (λ m. st.color m ≡ black)

  -- after a loop over `ms` that began in `st`
  abbrev pub After : List String → Dfs → Outcome → Type 0
  After ms st (found c) = IsCycle routes c
  After ms st (clear st') = Inv routes st' × Kept st st' × AllBlack st' ms
  After ms st out_of_fuel = ⊥

  abbrev pub budget : Dfs → ℕ
  budget st = whites st.color (build_graph routes).nodes

  pub Kept-budget : {st st' : Dfs} → Kept st st' → budget st' ≤ budget st
  Kept-budget {st} {st'} k = whites-le st.color st'.color (build_graph routes).nodes k.whites

  pub After-cons :
      (m : String) (ms : List String) {st st' : Dfs} (o : Outcome)
      → Kept st st'
      → st'.color m ≡ black
      → After ms st' o
      → After (m ∷ ms) st o
  After-cons m ms (found c) k b h = h
  After-cons m ms (clear st'') k b h = (h.0, Kept-trans k h.1, (h.1.blacks m b, h.2))
  After-cons m ms out_of_fuel k b h = h

  pub After-and_then :
      (m : String) (ms : List String) (st : Dfs) (rest : Dfs → Outcome) (o : Outcome)
      → After (m ∷ []) st o
      → ((st' : Dfs) → Inv routes st' → Kept st st' → After ms st' (rest st'))
      → After (m ∷ ms) st (and_then o rest)
  After-and_then m ms st rest (found c) h next = h
  After-and_then m ms st rest (clear st') h next =
      After-cons m ms (rest st') h.1 h.2.0 (next st' h.0 h.1)
  After-and_then m ms st rest out_of_fuel h next = h

  -- what the recursive call promises while the budget is at most `fuel`
  abbrev pub Promise : (String → Dfs → Outcome) → ℕ → Type 0
  Promise call fuel =
      (m : String) (st : Dfs)
      → Memᴰ m (build_graph routes).nodes
      → Inv routes st
      → st.color m ≡ white
      → IsWalk routes (st.path ++ m ∷ [])
      → budget st ≤ fuel
      → After (m ∷ []) st (call m st)

  closed :
      (m : String) (st : Dfs) {s : List String}
      → suffix_from m st.path ≡ some s
      → IsWalk routes (st.path ++ m ∷ [])
      → IsCycle routes (s ++ m ∷ [])
  closed m st h w =
      let (rest, shape, walk) = suffix_from-IsWalk routes m st.path (m ∷ []) h w in
      record { first = m; between = rest; shape = ap (λ t. t ++ m ∷ []) shape; walk = walk }

  scan-After :
      (call : String → Dfs → Outcome) (fuel : ℕ) (p : List String) (n : String)
      → Promise call fuel
      → (ms : List String) (st : Dfs) → st.path ≡ p ++ n ∷ []
      → All (Edge routes n) ms
      → Inv routes st
      → budget st ≤ fuel
      → After ms st (scan call ms st)
  unfolding scan
  scan-After call fuel p n promise [] st ends edges inv fits = (inv, Kept-refl st, tt)
  scan-After call fuel p n promise (m ∷ ms) st ends (edge, edges) inv fits =
      by_color (st.color m) refl λ st' inv' kept.
        scan-After call fuel p n promise ms st' (kept.path ∙ ends) edges inv'
          (omega (arith, Kept-budget kept))
    where
      walk : IsWalk routes (st.path ++ m ∷ [])
      walk = rw ends (IsWalk-snoc routes p (subst (IsWalk routes) ends inv.walk) edge)

      by_color :
          (c : Color)
          → st.color m ≡ c
          → ((st' : Dfs) → Inv routes st' → Kept st st' → After ms st' (scan call ms st'))
          → After (m ∷ ms) st (scan call (m ∷ ms) st)
      by_color white e next =
          rw (e, After)
            (After-and_then m ms st (scan call ms) (call m st)
              (promise m st (Edge-nodes routes n m edge) inv e walk fits) next)
      by_color gray e next =
          let (s, h) = inv.gray_on_path m e in rw (e, h, After) (closed m st h walk)
      by_color black e next =
          rw (e, After)
            (After-cons m ms (scan call ms st) (Kept-refl st) e (next st inv (Kept-refl st)))

  enter-Inv :
      (n : String) (st : Dfs)
      → Inv routes st
      → IsWalk routes (st.path ++ n ∷ [])
      → Inv routes (enter n st)
  unfolding enter
  enter-Inv n st inv walk = record {
    gray_on_path = λ m. elim (Text-cases n m) [
      | inl same ↦ λ h. rw (← same) (suffix_from-snoc_self n st.path)
      | inr other ↦
          λ h. let (s, k) = inv.gray_on_path m (rw other at h) in suffix_from-snoc m n st.path k
    ];
    black_done = λ m. elim (Text-cases n m) [
      | inl same ↦ λ h. cc (same, eq_refl n, h)
      | inr other ↦ λ h. inv.black_done m (rw other at h)
    ];
    walk = walk;
  }

  -- when the targets of `n` are all black, `n` is done
  black-Acc :
      (n : String) (st : Dfs)
      → Inv routes st
      → AllBlack st ((build_graph routes).adj n)
      → Acc (Next routes) n
  black-Acc n st inv all_black = Acc.intro n λ v e.
      inv.black_done v (All-Memᴰ (λ x. st.color x ≡ black) _ all_black (Edge-adj routes n v e))

  leave-Inv :
      (n : String) (st st' : Dfs)
      → Inv routes st
      → Inv routes st'
      → Kept (enter n st) st'
      → AllBlack st' ((build_graph routes).adj n)
      → Inv routes (leave n st')
  unfolding enter leave
  leave-Inv n st st' inv inv' kept all_black =
      let back : drop_last st'.path ≡ st.path = rw kept.path (drop_last-snoc st.path n) in
      record {
        gray_on_path = λ m. elim (Text-cases n m) [
          | inl same ↦ λ h. cc (same, eq_refl n, h)
          | inr other ↦ λ h.
              let (s, k) = inv'.gray_on_path m (rw other at h) in
              let on : suffix_from m (st.path ++ n ∷ []) ≡ some s =
                subst (λ p. suffix_from m p ≡ some s) kept.path k in
              rw back (suffix_from-snoc_ne m n st.path other on)
        ];
        black_done = λ m. elim (Text-cases n m) [
          | inl same ↦ λ h. rw (← same) (black-Acc n st' inv' all_black)
          | inr other ↦ λ h. inv'.black_done m (rw other at h)
        ];
        walk = rw back inv.walk;
      }

  leave-Kept :
      (n : String) (st st' : Dfs)
      → st.color n ≡ white
      → Kept (enter n st) st'
      → Kept st (leave n st')
  unfolding enter leave
  leave-Kept n st st' is_white kept = record {
    path = rw kept.path (drop_last-snoc st.path n);
    blacks = λ m. elim (Text-cases n m) [
      | inl same ↦ λ h. cc (ap st.color same, is_white, h)
      | inr other ↦ λ h. rw other (kept.blacks m (rw other h))
    ];
    whites = λ m. elim (Text-cases n m) [
      | inl same ↦ λ h. cc same
      | inr other ↦ λ h. let w = kept.whites m (rw other at h) in rw other at w
    ];
  }

  After-loop :
      (n : String) (st : Dfs) (o : Outcome)
      → Inv routes st
      → st.color n ≡ white
      → After ((build_graph routes).adj n) (enter n st) o
      → After (n ∷ []) st (and_then o (λ after. clear (leave n after)))
  After-loop n st (found c) inv w h = h
  After-loop n st (clear st') inv w h = (
    leave-Inv n st st' inv h.0 h.1 h.2,
    leave-Kept n st st' w h.1,
    (unfold leave in rw (eq_refl n), tt),
  )
  After-loop n st out_of_fuel inv w h = h

  pub dfs-After : (fuel : ℕ) → Promise (dfs (build_graph routes) fuel) fuel
  unfolding dfs
  dfs-After zero m st mem inv w walk fits =
      absurd (omega (arith, whites-pos st.color (build_graph routes).nodes mem w))
  dfs-After (suc fuel) m st mem inv w walk fits = After-loop m st _ inv w (
      scan-After (dfs (build_graph routes) fuel) fuel st.path m (dfs-After fuel)
        ((build_graph routes).adj m) (enter m st) (unfold enter in refl)
        (All-of_Memᴰ _ (λ v k. adj-Edge routes m v k)) (enter-Inv m st inv walk)
        (unfold enter in omega (arith, whites-paint st.color (build_graph routes).nodes mem w)))
