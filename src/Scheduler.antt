-- ===== src/Scheduler.antt =====
-- Placement of a pipeline on a cluster instance (internal/controller/cluster_scheduler.go, and the
-- pod and load queries of internal/controller/pipeline_cluster_assign.go).
mod Bounds
mod Laws
mod Names
mod Tests
use Prim.Native.String
use rpc_operator.Prelude.{
  ℕ, zero, suc, ◌+◌, String, Bool, true, false, ◌&&◌, ◌||◌, not, Option, none, some, List, [], ◌∷◌,
  ltb, nat_eq, ◌==◌, if◌then◌else◌, any,
}
use rpc_operator.Prelude.Sorting.{sort}
use rpc_operator.Prelude.Int.{ℤ, pos, negsuc, int_eq, int_le, to_int32}
use rpc_operator.Prelude.Decimal.{atoi, itoa_int}
use rpc_operator.Prelude.Texts.{strip_prefix}

-- `n, err := strconv.Atoi(…); if err != nil || n < 0 { return 0, false }; return int32(n), true`
unfoldable pub ordinal_of : Option ℤ → Option ℤ
ordinal_of (some (pos n)) = some (to_int32 n)
ordinal_of (some (negsuc n)) = none
ordinal_of none = none

unfoldable pub ordinal_from_pod_name : String → String → Option ℤ
unfolding ordinal_of
ordinal_from_pod_name pod_name cluster_name =
    elim (strip_prefix (String.◌++◌ cluster_name "-") pod_name) [
      | none ↦ none
      | some rest ↦ ordinal_of (atoi rest)
    ]

-- `slices.Contains`
abbrev pub contains : List ℤ → ℤ → Bool
contains l o = any (λ x. int_eq x o) l

-- the loop of `leastLoadedInstance` over the sorted ordinals behind the first
unfoldable pub best_of : (ℤ → ℕ) → ℤ → List ℤ → ℤ
best_of load best [] = best
best_of load best (o ∷ rest) = best_of load (if ltb (load o) (load best) then o else best) rest

abbrev pub choose : (ℤ → ℕ) → List ℤ → Option ℤ
choose load [] = none
choose load (o ∷ rest) = some (best_of load o rest)

unfoldable pub least_loaded_instance : List ℤ → (ℤ → ℕ) → Option ℤ
unfolding best_of sort
least_loaded_instance ready load = choose load (sort int_le ready)

unfoldable pub pick_instance : String → String → List ℤ → (ℤ → ℕ) → Option ℤ
pick_instance current cluster_name ready load = elim (ordinal_from_pod_name current cluster_name) [
  | some cur ↦ if contains ready cur then some cur else least_loaded_instance ready load
  | none ↦ least_loaded_instance ready load
]

-- A pod as the operator reads it: its name, and its conditions as pairs of type and status.
pub record Pod : Type 0 where
  pub name : String
  pub conditions : List (String × String)

-- the loop of `isPodReady`: the first condition of type Ready decides
unfoldable pub ready_condition : List (String × String) → Bool
ready_condition [] = false
ready_condition ((type, status) ∷ rest) =
    let later = ready_condition rest in if type == "Ready" then status == "True" else later

unfoldable pub is_pod_ready : Pod → Bool
unfolding ready_condition
is_pod_ready p = ready_condition p.conditions

-- the loop of `readyClusterOrdinals` over the pods that the API server listed
unfoldable pub ready_cluster_ordinals : String → List Pod → List ℤ
ready_cluster_ordinals cluster_name [] = []
ready_cluster_ordinals cluster_name (p ∷ pods) =
    let rest = ready_cluster_ordinals cluster_name pods in
    elim (ordinal_from_pod_name p.name cluster_name) [
      | none ↦ rest
      | some o ↦ if is_pod_ready p then o ∷ rest else rest
    ]

-- A pipeline's name and placement, as `loadByOrdinal` reads them.
pub record Placement : Type 0 where
  pub name : String
  pub assigned_cluster : String
  pub assigned_instance : String

-- `load[o]++`
abbrev increment : ℤ → (ℤ → ℕ) → ℤ → ℕ
increment o load x = if int_eq o x then load x + 1 else load x

-- whether the loop skips the pipeline
abbrev skipped : String → String → Placement → Bool
skipped cluster_name exclude p =
    p.name == exclude || not (p.assigned_cluster == cluster_name) || p.assigned_instance == ""

-- the loop of `loadByOrdinal`
unfoldable pub load_from : String → String → List Placement → (ℤ → ℕ) → ℤ → ℕ
load_from cluster_name exclude [] load = load
load_from cluster_name exclude (p ∷ pipes) load = load_from cluster_name exclude pipes (
    if skipped cluster_name exclude p
    then load
    else elim (ordinal_from_pod_name p.assigned_instance cluster_name) [
      | none ↦ load
      | some o ↦ increment o load
    ])

unfoldable pub load_by_ordinal : String → String → List Placement → ℤ → ℕ
load_by_ordinal cluster_name exclude pipes = load_from cluster_name exclude pipes (λ _. 0)

-- fmt.Sprintf("%s-%d", cluster.Name, ordinal)
unfoldable pub instance_name : String → ℤ → String
unfolding itoa_int
instance_name cluster_name ordinal = String.◌++◌ cluster_name (String.◌++◌ "-" (itoa_int ordinal))

-- the port of the streams API, `httpPort` of internal/controller/pipeline_pod.go, is 4195
unfoldable pub cluster_pod_url : String → String → ℤ → String
unfolding itoa_int
cluster_pod_url cluster_name namespace ordinal = String.◌++◌ "http://" (
    String.◌++◌ cluster_name (
      String.◌++◌ "-" (
        String.◌++◌ (itoa_int ordinal) (
          String.◌++◌ "."
            (String.◌++◌ cluster_name (String.◌++◌ "." (String.◌++◌ namespace ".svc:4195")))))))
