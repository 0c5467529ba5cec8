-- ===== src/Web/Distribution/Laws.antt =====
-- Which placements of pipelines the view of a cluster shows (internal/api/cluster_aggregation.go).
use rpc_operator.Prelude.{
  ℕ, zero, suc, ◌+◌, ◌<◌, String, ◌≡◌, ◌≢◌, ◌↔◌, ◌⊎◌, inl, inr, refl, sym, subst, Bool, true, false,
  none, some, List, [], ◌∷◌, ◌++◌, Memᴰ, get_elem?, length, ◌==◌, if◌then◌else◌, arith, eq_iff,
  Bool-cases, Option-cases, Text-cases, text_eq-false,
}
use Prim.Native.String
use mathlib.Core.List.Memᴰ
use native.Mathlib.Nat.{zero-add}
use rpc_operator.Prelude.Decimal.{itoa}
use rpc_operator.Prelude.Int.{ℤ, pos, int_eq, int_le, int_eq_iff}
use rpc_operator.Prelude.Sorting.{sort, sort-Memᴰ, text_le}
use rpc_operator.Api.Cluster.{Cluster}
use rpc_operator.Scheduler.{Pod, Placement}
use rpc_operator.Web.Distribution.{
  ClusterInstance, StalePlacement, ClusterDistribution, instance_ordinal, Tally, tally_one, tally,
  instances_from, stale_le, no_placements, aggregate_distribution, ready_by_ordinal,
}

absurd_mem : {A : Type 0} {a : A} {B : Type 0} → Memᴰ a [] → B
absurd_mem m = elim m [ ]

append_nil : {A : Type 0} (l : List A) → l ++ [] ≡ l
append_nil [] = refl
append_nil (x ∷ l) = cc (append_nil l)

only : {A : Type 0} {a b : A} → Memᴰ a (b ∷ []) → b ≡ a
only (Memᴰ.head e) = sym e
only (Memᴰ.tail m) = elim m [ ]

not_empty : {s : String} → (s == "") ≡ false → s ≢ ""
not_empty {s} e same = cc ((eq_iff s "").1 same, e)

-- The pipeline stands on the instance with this ordinal.
abbrev pub IsAt : String → ℤ → Placement → Type 0
IsAt cluster o p =
    (p.assigned_instance ≢ "") × (instance_ordinal p.assigned_instance cluster ≡ some o)

-- The placement that a pipeline records.
abbrev pub stale_of : Placement → StalePlacement
stale_of p = record { pipeline = p.name; assigned_instance = p.assigned_instance }

module _ (cluster : String) (replicas : ℕ) where
  -- The placements that one round adds to those of an ordinal.
  abbrev pub adds : Placement → ℤ → List String
  adds p x =
      if p.assigned_instance == ""
      then []
      else elim (instance_ordinal p.assigned_instance cluster) [
        | none ↦ []
        | some o ↦ if int_le (pos replicas) o then [] else if int_eq o x then p.name ∷ [] else []
      ]

  abbrev pub adds_stale : Placement → List StalePlacement
  adds_stale p =
      if p.assigned_instance == ""
      then []
      else elim (instance_ordinal p.assigned_instance cluster) [
        | none ↦ []
        | some o ↦
            if int_le (pos replicas) o
            then record { pipeline = p.name; assigned_instance = p.assigned_instance } ∷ []
            else []
      ]

  tally_one-assigned :
      (p : Placement) (t : Tally) (x : ℤ)
      → (tally_one cluster replicas p t).assigned x ≡ t.assigned x ++ adds p x
  unfolding tally_one
  tally_one-assigned p t x = ground (arith, append_nil (t.assigned x))

  adds-IsAt :
      (p : Placement) (x : ℤ) (n : String)
      → Memᴰ n (adds p x)
      → (p.name ≡ n) × IsAt cluster x p × (int_le (pos replicas) x ≡ false)
  adds-IsAt p x n m = elim (Text-cases p.assigned_instance "") [
    | inl e ↦ absurd_mem (rw ((eq_iff p.assigned_instance "").1 e, adds) at m)
    | inr placed ↦ elim (Option-cases (instance_ordinal p.assigned_instance cluster)) [
      | inl e ↦ absurd_mem (rw (placed, e, adds) at m)
      | inr (o, e) ↦ elim (Bool-cases (int_le (pos replicas) o)) [
        | inl past ↦ absurd_mem (rw (placed, e, past, adds) at m)
        | inr within ↦ elim (Bool-cases (int_eq o x)) [
          | inl same ↦
              let x' : o ≡ x = (int_eq_iff o x).0 same in
              (
                only (rw (placed, e, within, same, adds) at m),
                (not_empty placed, rw (e, x') refl),
                rw (← x') within,
              )
          | inr other ↦ absurd_mem (rw (placed, e, within, other, adds) at m)
        ]
      ]
    ]
  ]

  IsAt-adds :
      (p : Placement) (x : ℤ)
      → IsAt cluster x p
      → int_le (pos replicas) x ≡ false
      → Memᴰ p.name (adds p x)
  IsAt-adds p x (placed, at_x) within =
      rw (text_eq-false p.assigned_instance "" placed, at_x, within, (int_eq_iff x x).1 refl, adds)
        (Memᴰ.head refl)

  -- The pipeline stands behind the last instance.
  abbrev pub IsStale : Placement → Type 0
  IsStale p = (o : ℤ) × IsAt cluster o p × (int_le (pos replicas) o ≡ true)

  adds_stale-IsStale :
      (p : Placement) (s : StalePlacement) → Memᴰ s (adds_stale p) → (stale_of p ≡ s) × IsStale p
  adds_stale-IsStale p s m = elim (Text-cases p.assigned_instance "") [
    | inl e ↦ absurd_mem (rw ((eq_iff p.assigned_instance "").1 e, adds_stale) at m)
    | inr placed ↦ elim (Option-cases (instance_ordinal p.assigned_instance cluster)) [
      | inl e ↦ absurd_mem (rw (placed, e, adds_stale) at m)
      | inr (o, e) ↦ elim (Bool-cases (int_le (pos replicas) o)) [
        | inl past ↦
            (only (rw (placed, e, past, adds_stale) at m), (o, (not_empty placed, e), past))
        | inr within ↦ absurd_mem (rw (placed, e, within, adds_stale) at m)
      ]
    ]
  ]

  IsStale-adds_stale : (p : Placement) → IsStale p → Memᴰ (stale_of p) (adds_stale p)
  IsStale-adds_stale p (o, (placed, at_o), past) =
      rw (text_eq-false p.assigned_instance "" placed, at_o, past, adds_stale) (Memᴰ.head refl)

  tally_one-stale :
      (p : Placement) (t : Tally) → (tally_one cluster replicas p t).stale ≡ t.stale ++ adds_stale p
  unfolding tally_one
  tally_one-stale p t = ground (arith, append_nil t.stale)

  -- Some placement of the list is at this ordinal, which is within the replicas.
  abbrev pub Shown : List Placement → ℤ → String → Type 0
  Shown ps x n =
      (p : Placement) × Memᴰ p ps
      × (p.name ≡ n)
      × IsAt cluster x p
      × (int_le (pos replicas) x ≡ false)

  abbrev pub StaleIn : List Placement → StalePlacement → Type 0
  StaleIn ps s = (p : Placement) × Memᴰ p ps × (stale_of p ≡ s) × IsStale p

  tally-assigned :
      (ps : List Placement) (t : Tally) (x : ℤ) (n : String)
      → Memᴰ n ((tally cluster replicas ps t).assigned x) ↔ (Memᴰ n (t.assigned x) ⊎ Shown ps x n)
  unfolding tally
  tally-assigned [] t x n = (λ m. inl m, back)
    where
      back : Memᴰ n (t.assigned x) ⊎ Shown [] x n → Memᴰ n (t.assigned x)
      back (inl m) = m
      back (inr (p, m, e, at, w)) = absurd_mem m
  tally-assigned (p ∷ ps) t x n = (
    λ m. forth ((tally-assigned ps (tally_one cluster replicas p t) x n).0 m),
    λ m. (tally-assigned ps (tally_one cluster replicas p t) x n).1 (back m),
  )
    where
      first : Memᴰ n (t.assigned x) ⊎ Memᴰ n (adds p x) → Memᴰ n (t.assigned x) ⊎ Shown (p ∷ ps) x n
      first (inl m) = inl m
      first (inr m) =
          let (named, at, within) = adds-IsAt p x n m in inr (p, Memᴰ.head refl, named, at, within)

      forth :
          Memᴰ n ((tally_one cluster replicas p t).assigned x) ⊎ Shown ps x n
          → Memᴰ n (t.assigned x) ⊎ Shown (p ∷ ps) x n
      forth (inl m) = first (Memᴰ.append_cases (t.assigned x) (rw (tally_one-assigned p t x) at m))
      forth (inr (q, m, e, at, w)) = inr (q, Memᴰ.tail m, e, at, w)

      back :
          Memᴰ n (t.assigned x) ⊎ Shown (p ∷ ps) x n
          → Memᴰ n ((tally_one cluster replicas p t).assigned x) ⊎ Shown ps x n
      back (inl m) = inl (rw (tally_one-assigned p t x) (Memᴰ.append_left (adds p x) m))
      back (inr (q, Memᴰ.head same, named, at_x, within)) = inl (
          rw (tally_one-assigned p t x) (
            Memᴰ.append_right (t.assigned x) (
              subst (λ (r : Placement). Memᴰ n (adds r x)) same
                (subst (λ (k : String). Memᴰ k (adds q x)) named (IsAt-adds q x at_x within)))))
      back (inr (q, Memᴰ.tail m, e, at, w)) = inr (q, m, e, at, w)

  tally-stale :
      (ps : List Placement) (t : Tally) (s : StalePlacement)
      → Memᴰ s (tally cluster replicas ps t).stale ↔ (Memᴰ s t.stale ⊎ StaleIn ps s)
  unfolding tally
  tally-stale [] t s = (λ m. inl m, back)
    where
      back : Memᴰ s t.stale ⊎ StaleIn [] s → Memᴰ s t.stale
      back (inl m) = m
      back (inr (p, m, e, st)) = absurd_mem m
  tally-stale (p ∷ ps) t s = (
    λ m. forth ((tally-stale ps (tally_one cluster replicas p t) s).0 m),
    λ m. (tally-stale ps (tally_one cluster replicas p t) s).1 (back m),
  )
    where
      first : Memᴰ s t.stale ⊎ Memᴰ s (adds_stale p) → Memᴰ s t.stale ⊎ StaleIn (p ∷ ps) s
      first (inl m) = inl m
      first (inr m) =
          let (same, past) = adds_stale-IsStale p s m in inr (p, Memᴰ.head refl, same, past)

      forth :
          Memᴰ s (tally_one cluster replicas p t).stale ⊎ StaleIn ps s
          → Memᴰ s t.stale ⊎ StaleIn (p ∷ ps) s
      forth (inl m) = first (Memᴰ.append_cases t.stale (rw (tally_one-stale p t) at m))
      forth (inr (q, m, e, st)) = inr (q, Memᴰ.tail m, e, st)

      back :
          Memᴰ s t.stale ⊎ StaleIn (p ∷ ps) s
          → Memᴰ s (tally_one cluster replicas p t).stale ⊎ StaleIn ps s
      back (inl m) = inl (rw (tally_one-stale p t) (Memᴰ.append_left (adds_stale p) m))
      back (inr (q, Memᴰ.head same, named, past)) = inl (
          rw (tally_one-stale p t) (
            Memᴰ.append_right t.stale (
              subst (λ (r : Placement). Memᴰ s (adds_stale r)) same
                (subst (λ (k : StalePlacement). Memᴰ k (adds_stale q)) named
                  (IsStale-adds_stale q past)))))
      back (inr (q, Memᴰ.tail m, e, st)) = inr (q, m, e, st)

instances_from-get :
    (cluster : String) (ready : ℤ → Bool) (assigned : ℤ → List String) (i count k : ℕ)
    → k < count
    → get_elem? (instances_from cluster ready assigned i count) k
      ≡ some (record {
        name = String.◌++◌ cluster (String.◌++◌ "-" (itoa (i + k)));
        ordinal = pos (i + k);
        ready = ready (pos (i + k));
        assigned_pipelines = sort text_le (assigned (pos (i + k)));
      })
unfolding instances_from
instances_from-get cluster ready assigned i zero k h = ground arith
instances_from-get cluster ready assigned i (suc count) zero h = ground arith
instances_from-get cluster ready assigned i (suc count) (suc k) h =
    let e : suc i + k ≡ i + suc k = omega arith in
    rw (← e) (instances_from-get cluster ready assigned (suc i) count k (omega (arith, h)))

instances_from-length :
    (cluster : String) (ready : ℤ → Bool) (assigned : ℤ → List String) (i count : ℕ)
    → length (instances_from cluster ready assigned i count) ≡ count
unfolding instances_from
instances_from-length cluster ready assigned i zero = refl
instances_from-length cluster ready assigned i (suc count) =
    omega (arith, instances_from-length cluster ready assigned (suc i) count)

module _ (cluster : Cluster) (pods : List Pod) (ps : List Placement) where
  abbrev pub shown : ClusterDistribution
  shown = aggregate_distribution cluster pods ps

  -- What the view of a cluster shows: its desired number of instances, on the instance with an ordinal
  -- exactly the pipelines whose placement is read as this ordinal, and as stale exactly the placements
  -- that are read as an ordinal behind the last instance.
  abbrev pub Shows : Type 0
  Shows =
      (length shown.instances ≡ cluster.spec.replicas)
      × ((i : ℕ)
          → i < cluster.spec.replicas
          → (inst : ClusterInstance) × (get_elem? shown.instances i ≡ some inst)
            × (inst.ordinal ≡ pos i)
            × ((n : String)
                → Memᴰ n inst.assigned_pipelines
                  ↔ ((p : Placement) × Memᴰ p ps × (p.name ≡ n) × IsAt cluster.name (pos i) p)))
      × ((s : StalePlacement)
          → Memᴰ s shown.stale_placements ↔ StaleIn cluster.name cluster.spec.replicas ps s)

  -- The view of a cluster has its desired number of instances. The instance with an ordinal lists
  -- exactly the pipelines whose placement is read as this ordinal, and the stale placements are exactly
  -- those that are read as an ordinal behind the last instance.
  pub aggregate_distribution-Shows : Shows
  unfolding aggregate_distribution
  aggregate_distribution-Shows = (
    instances_from-length cluster.name (ready_by_ordinal cluster.name pods (λ o. false))
        placed.assigned 0 cluster.spec.replicas,
    λ i h. (
      record {
        name = String.◌++◌ cluster.name (String.◌++◌ "-" (itoa i));
        ordinal = pos i;
        ready = ready_by_ordinal cluster.name pods (λ o. false) (pos i);
        assigned_pipelines = sort text_le (placed.assigned (pos i));
      },
      rw (zero-add i) at (
          instances_from-get cluster.name (ready_by_ordinal cluster.name pods (λ o. false))
            placed.assigned 0 cluster.spec.replicas i h),
      refl,
      λ n. (
        λ m. listed i n ((sort-Memᴰ text_le (placed.assigned (pos i))).0 m),
        λ k. (sort-Memᴰ text_le (placed.assigned (pos i))).1 (listing i n h k),
      ),
    ),
    λ s. (
      λ m. stale s ((sort-Memᴰ stale_le placed.stale).0 m),
      λ k.
          (sort-Memᴰ stale_le placed.stale).1
            ((tally-stale cluster.name cluster.spec.replicas ps no_placements s).1 (inr k)),
    ),
  )
    where
      placed : Tally
      placed = tally cluster.name cluster.spec.replicas ps no_placements

      At : ℕ → String → Type 0
      At i n = (p : Placement) × Memᴰ p ps × (p.name ≡ n) × IsAt cluster.name (pos i) p

      listed : (i : ℕ) (n : String) → Memᴰ n (placed.assigned (pos i)) → At i n
      listed i n m =
          elim ((tally-assigned cluster.name cluster.spec.replicas ps no_placements (pos i) n).0
            m) [
              | inl none_before ↦ absurd_mem none_before
              | inr (p, mem, named, at_i, within) ↦ (p, mem, named, at_i)
            ]

      listing :
          (i : ℕ) (n : String)
          → i < cluster.spec.replicas
          → At i n
          → Memᴰ n (placed.assigned (pos i))
      listing i n h (p, mem, named, at_i) =
          (tally-assigned cluster.name cluster.spec.replicas ps no_placements (pos i) n).1
            (inr (p, mem, named, at_i, ground arith))

      stale :
          (s : StalePlacement)
          → Memᴰ s placed.stale
          → StaleIn cluster.name cluster.spec.replicas ps s
      stale s m = elim ((tally-stale cluster.name cluster.spec.replicas ps no_placements s).0 m) [
        | inl none_before ↦ absurd_mem none_before
        | inr found ↦ found
      ]
