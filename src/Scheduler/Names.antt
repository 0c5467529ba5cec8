-- ===== src/Scheduler/Names.antt =====
-- Instance names and ordinals, and the ready instances and loads that are read off names.
use Prim.Native.String
use Prim.Native.String.{[], ◌∷◌}
use text.Mathlib.TextLemmas.{append_assoc, cons-append}
use mathlib.Core.List.Memᴰ
use rpc_operator.Prelude.{
  ℕ, ◌+◌, ◌^◌, ◌<◌, String, ◌≡◌, refl, ◌↔◌, ◌⊎◌, inl, inr, Bool, true, false, Option, none, some,
  List, [], ◌∷◌, Memᴰ, if◌then◌else◌, Bool-cases, Option-cases, arith, ap, ◌≢◌, ◌==◌, eq_iff,
}
use rpc_operator.Prelude.Int.{ℤ, pos, negsuc, int_eq, to_int32, to_int32_small}
use rpc_operator.Prelude.Decimal.{itoa, atoi, atoi-itoa}
use rpc_operator.Prelude.Texts.{strip_prefix, strip_prefix-append, strip_prefix-some}
use rpc_operator.Scheduler.{
  ordinal_of, ready_condition, ordinal_from_pod_name, Pod, is_pod_ready, ready_cluster_ordinals,
  Placement, load_from, load_by_ordinal, instance_name,
}

-- The ordinal that an instance name was made with is read back from the name, for every ordinal
-- that an int32 holds.
pub ordinal-instance_name :
    (cluster : String) (o : ℕ)
    → o < 2 ^ 31
    → ordinal_from_pod_name (instance_name cluster (pos o)) cluster ≡ some (pos o)
unfolding ordinal_from_pod_name instance_name
ordinal-instance_name cluster o fits =
    let cut : strip_prefix (String.◌++◌ cluster "-")
          (String.◌++◌ cluster (String.◌++◌ "-" (itoa o)))
        ≡ some (itoa o) =
      rw (← append_assoc cluster "-" (itoa o))
        (strip_prefix-append (String.◌++◌ cluster "-") (itoa o)) in
    rw (ordinal_from_pod_name, instance_name, cut, atoi-itoa o (omega arith))
      (ap some (to_int32_small o fits))

-- The name is the cluster's, a dash and a text that Atoi reads as a number that is not negative, which
-- the conversion to int32 takes to the ordinal.
pub record IsNamed (cluster name : String) (o : ℤ) : Type 0 where
  pub suffix : String
  pub number : ℕ
  pub spelled : name ≡ String.◌++◌ (String.◌++◌ cluster "-") suffix
  pub parsed : atoi suffix ≡ some (pos number)
  pub converted : to_int32 number ≡ o

-- The first condition of type Ready has the status True.
abbrev pub SaysReady : List (String × String) → Type 0
SaysReady [] = ⊥
SaysReady ((type, status) ∷ rest) =
    ((type ≡ "Ready") × (status ≡ "True")) ⊎ ((type ≢ "Ready") × SaysReady rest)

-- A listed pod that is ready and is named for the ordinal.
pub record ReadyPod (cluster : String) (pods : List Pod) (o : ℤ) : Type 0 where
  pub pod : Pod
  pub listed : Memᴰ pod pods
  pub named : IsNamed cluster pod.name o
  pub ready : SaysReady pod.conditions

ordinal_from_pod_name_iff :
    (name cluster : String) (o : ℤ)
    → (ordinal_from_pod_name name cluster ≡ some o) ↔ IsNamed cluster name o
unfolding ordinal_from_pod_name ordinal_of
ordinal_from_pod_name_iff name cluster o = (
  reads,
  λ n.
      rw
        (
          n.spelled,
          ordinal_from_pod_name,
          strip_prefix-append (String.◌++◌ cluster "-") n.suffix,
          n.parsed,
        )
        (ap some n.converted),
)
  where
    reads : ordinal_from_pod_name name cluster ≡ some o → IsNamed cluster name o
    reads e = elim (Option-cases (strip_prefix (String.◌++◌ cluster "-") name)) [
      | inl cut ↦ ground (arith, e, cut)
      | inr (rest, cut) ↦ elim (Option-cases (atoi rest)) [
        | inl bad ↦ ground (arith, e, cut, bad)
        | inr (negsuc k, read) ↦ ground (arith, e, cut, read)
        | inr (pos k, read) ↦ record {
          suffix = rest;
          number = k;
          spelled = strip_prefix-some (String.◌++◌ cluster "-") name rest cut;
          parsed = read;
          converted = ground (arith, e, cut, read);
        }
      ]
    ]

ready_condition_iff : (cs : List (String × String)) → (ready_condition cs ≡ true) ↔ SaysReady cs
unfolding ready_condition
ready_condition_iff [] = (λ e. cc, λ k. elim k [ ])
ready_condition_iff ((type, status) ∷ rest) = elim (Bool-cases (type == "Ready")) [
  | inl e ↦ (
    λ h. inl ((eq_iff type "Ready").0 e, (eq_iff status "True").0 (rw e at h)),
    λ k. elim k [
      | inl (t, s) ↦ rw e ((eq_iff status "True").1 s)
      | inr (t, s) ↦ absurd (t ((eq_iff type "Ready").0 e))
    ],
  )
  | inr e ↦ (
    λ h. inr (λ t. cc ((eq_iff type "Ready").1 t, e), (ready_condition_iff rest).0 (rw e at h)),
    λ k. elim k [
      | inl (t, s) ↦ cc ((eq_iff type "Ready").1 t, e)
      | inr (t, s) ↦ rw e ((ready_condition_iff rest).1 s)
    ],
  )
]

is_pod_ready_iff : (p : Pod) → (is_pod_ready p ≡ true) ↔ SaysReady p.conditions
unfolding is_pod_ready
is_pod_ready_iff p = ready_condition_iff p.conditions

module _ (cluster : String) where
  ReadyPod-cons :
      (p : Pod) (pods : List Pod) {o : ℤ} → ReadyPod cluster pods o → ReadyPod cluster (p ∷ pods) o
  ReadyPod-cons p pods r = record {
    pod = r.pod;
    listed = Memᴰ.tail r.listed;
    named = r.named;
    ready = r.ready;
  }

  ready_sound :
      (pods : List Pod) (o : ℤ)
      → Memᴰ o (ready_cluster_ordinals cluster pods)
      → ReadyPod cluster pods o
  unfolding ready_cluster_ordinals
  ready_sound [] o m = elim m [ ]
  ready_sound (p ∷ pods) o m = elim (Option-cases (ordinal_from_pod_name p.name cluster)) [
    | inl e ↦ ReadyPod-cons p pods (ready_sound pods o (rw (e, ready_cluster_ordinals) at m))
    | inr (x, e) ↦ elim (Bool-cases (is_pod_ready p)) [
      | inl r ↦
          here x e r (Memᴰ.cases_cons (rw (e, ready_cluster_ordinals, r) at m))
            (λ k. ready_sound pods o k)
      | inr r ↦ ReadyPod-cons p pods (ready_sound pods o (rw (e, ready_cluster_ordinals, r) at m))
    ]
  ]
    where
      here :
          (x : ℤ)
          → ordinal_from_pod_name p.name cluster ≡ some x
          → is_pod_ready p ≡ true
          → (o ≡ x) ⊎ Memᴰ o (ready_cluster_ordinals cluster pods)
          → (Memᴰ o (ready_cluster_ordinals cluster pods) → ReadyPod cluster pods o)
          → ReadyPod cluster (p ∷ pods) o
      here x e r (inl same) rec = record {
        pod = p;
        listed = Memᴰ.head refl;
        named = (ordinal_from_pod_name_iff p.name cluster o).0 (rw same e);
        ready = (is_pod_ready_iff p).0 r;
      }
      here x e r (inr k) rec = ReadyPod-cons p pods (rec k)

  ready_complete :
      (pods : List Pod) (o : ℤ) (p : Pod)
      → Memᴰ p pods
      → ordinal_from_pod_name p.name cluster ≡ some o
      → is_pod_ready p ≡ true
      → Memᴰ o (ready_cluster_ordinals cluster pods)
  unfolding ready_cluster_ordinals
  ready_complete [] o p m e r = elim m [ ]
  ready_complete (q ∷ pods) o p (Memᴰ.head same) e r =
      let e' : ordinal_from_pod_name q.name cluster ≡ some o = rw (← same) e in
      let r' : is_pod_ready q ≡ true = rw (← same) r in
      rw (e', ready_cluster_ordinals, r') (Memᴰ.head refl)
  ready_complete (q ∷ pods) o p (Memᴰ.tail m) e r =
      later (ordinal_from_pod_name q.name cluster) refl (is_pod_ready q) refl
        (ready_complete pods o p m e r)
    where
      later :
          (x : Option ℤ)
          → ordinal_from_pod_name q.name cluster ≡ x
          → (b : Bool) → is_pod_ready q ≡ b
          → Memᴰ o (ready_cluster_ordinals cluster pods)
          → Memᴰ o (ready_cluster_ordinals cluster (q ∷ pods))
      later none h b k rest = rw (h, ready_cluster_ordinals) rest
      later (some y) h true k rest = rw (h, ready_cluster_ordinals, k) (Memᴰ.tail rest)
      later (some y) h false k rest = rw (h, ready_cluster_ordinals, k) rest

  -- The scheduler considers exactly the ordinals of the listed pods whose name is the cluster's, a dash
  -- and the ordinal's number, and whose first Ready condition is True.
  pub ready_cluster_ordinals_iff :
      (pods : List Pod) (o : ℤ)
      → Memᴰ o (ready_cluster_ordinals cluster pods) ↔ ReadyPod cluster pods o
  ready_cluster_ordinals_iff pods o = (
    ready_sound pods o,
    λ r.
        ready_complete pods o r.pod r.listed
          ((ordinal_from_pod_name_iff r.pod.name cluster o).1 r.named)
          ((is_pod_ready_iff r.pod).1 r.ready),
  )

  strip_nothing : (name : String) → strip_prefix (String.◌++◌ name "-") "" ≡ none
  unfolding strip_prefix
  strip_nothing [] = refl
  strip_nothing (c ∷ name) = rw cons-append refl

  no_instance : (name : String) → (name == "") ≡ true → ordinal_from_pod_name name cluster ≡ none
  unfolding ordinal_from_pod_name
  no_instance name e = rw ((eq_iff name "").0 e, ordinal_from_pod_name, strip_nothing cluster) refl

  -- the pipeline is not the excluded one, and is placed on the instance of the cluster
  abbrev pub placed_on : String → ℤ → Placement → Bool
  placed_on exclude o p =
      if p.name == exclude
      then false
      else if p.assigned_cluster == cluster
      then (elim (ordinal_from_pod_name p.assigned_instance cluster) [
        | none ↦ false
        | some x ↦ int_eq x o
      ])
      else false

  abbrev pub count_placed : String → ℤ → List Placement → ℕ
  count_placed exclude o [] = 0
  count_placed exclude o (p ∷ pipes) =
      (if placed_on exclude o p then 1 else 0) + count_placed exclude o pipes

  load_from_lem :
      (exclude : String) (o : ℤ) (pipes : List Placement) (load : ℤ → ℕ)
      → load_from cluster exclude pipes load o ≡ load o + count_placed exclude o pipes
  unfolding load_from
  load_from_lem exclude o [] load = omega arith
  load_from_lem exclude o (p ∷ pipes) load =
      rw (load_from_lem exclude o pipes) (ground (arith, no_instance p.assigned_instance))

  -- The load of an instance is the number of the pipelines with another name than the excluded one that
  -- are placed on the cluster, on an instance that is read as this ordinal.
  pub load_by_ordinal-count :
      (exclude : String) (o : ℤ) (pipes : List Placement)
      → load_by_ordinal cluster exclude pipes o ≡ count_placed exclude o pipes
  unfolding load_by_ordinal
  load_by_ordinal-count exclude o pipes = omega (arith, load_from_lem exclude o pipes (λ _. 0))
