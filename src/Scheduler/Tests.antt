-- ===== src/Scheduler/Tests.antt =====
-- Runs of the scheduler, and the theorems at concrete inputs.
use rpc_operator.Prelude.{
  ℕ, ◌≡◌, refl, ◌↔◌, none, some, List, [], ◌∷◌, Memᴰ, arith, nat_eq, if◌then◌else◌,
}
use rpc_operator.Prelude.Int.{ℤ, pos, negsuc, to_int32}
use rpc_operator.Prelude.Decimal.{atoi, itoa}
use rpc_operator.Prelude.Texts.{strip_prefix}
use rpc_operator.Scheduler.{
  ordinal_from_pod_name, pick_instance, least_loaded_instance, cluster_pod_url, instance_name, Pod,
  Placement, load_by_ordinal, ready_cluster_ordinals,
}
use rpc_operator.Scheduler.Laws.{Picks, pick_instance-Picks}
use rpc_operator.Scheduler.Bounds.{ReadFrom, ordinal_from_pod_name-ReadFrom}
use rpc_operator.Scheduler.Names.{
  ordinal-instance_name, ReadyPod, ready_cluster_ordinals_iff, count_placed, load_by_ordinal-count,
}

ordinals :
    (ordinal_from_pod_name "etl-12" "etl" ≡ some (pos 12))
    × (ordinal_from_pod_name "etl-small-0" "etl" ≡ none)
    × (ordinal_from_pod_name "etl-4294967296" "etl" ≡ some (pos 0))
    × (cluster_pod_url "etl" "ns" (pos 12) ≡ "http://etl-12.etl.ns.svc:4195")
unfolding ordinal_from_pod_name strip_prefix atoi to_int32 cluster_pod_url itoa
ordinals = (refl, refl, refl, refl)

abbrev loads : ℤ → ℕ
loads (pos n) = if nat_eq n 0 then 3 else 1
loads (negsuc n) = 1

abbrev ready : List ℤ
ready = pos 2 ∷ pos 0 ∷ pos 1 ∷ []

-- the least loaded of the lowest ordinal, and the current one
picks :
    (pick_instance "" "etl" ready loads ≡ some (pos 1))
    × (pick_instance "etl-0" "etl" ready loads ≡ some (pos 0))
    × (pick_instance "etl-7" "etl" ready loads ≡ some (pos 1))
    × (pick_instance "etl-0" "etl" [] loads ≡ none)
unfolding pick_instance least_loaded_instance ordinal_from_pod_name strip_prefix atoi to_int32
picks = (refl, refl, refl, refl)

pick_instance-Picks_example :
    Picks "etl-0" "etl" ready loads (pick_instance "etl-0" "etl" ready loads)
pick_instance-Picks_example = pick_instance-Picks "etl-0" "etl" ready loads

ordinal-instance_name_example :
    ordinal_from_pod_name (instance_name "etl" (pos 12)) "etl" ≡ some (pos 12)
ordinal-instance_name_example = ordinal-instance_name "etl" 12 (omega arith)

abbrev pods : List Pod
pods =
    record { name = "etl-0"; conditions = ("Ready", "True") ∷ [] }
    ∷ record { name = "etl-1"; conditions = ("Ready", "False") ∷ [] }
    ∷ record { name = "other-2"; conditions = ("Ready", "True") ∷ [] }
    ∷ []

ready_cluster_ordinals_iff_example :
    Memᴰ (pos 0) (ready_cluster_ordinals "etl" pods) ↔ ReadyPod "etl" pods (pos 0)
ready_cluster_ordinals_iff_example = ready_cluster_ordinals_iff "etl" pods (pos 0)

abbrev placements : List Placement
placements =
    record { name = "a"; assigned_cluster = "etl"; assigned_instance = "etl-0" }
    ∷ record { name = "b"; assigned_cluster = "etl"; assigned_instance = "etl-0" }
    ∷ record { name = "c"; assigned_cluster = "other"; assigned_instance = "etl-0" }
    ∷ []

load_by_ordinal-count_example :
    load_by_ordinal "etl" "a" placements (pos 0) ≡ count_placed "etl" "a" (pos 0) placements
load_by_ordinal-count_example = load_by_ordinal-count "etl" "a" (pos 0) placements

wrapped : ordinal_from_pod_name "etl-4294967295" "etl" ≡ some (negsuc 0)
unfolding ordinal_from_pod_name strip_prefix atoi to_int32
wrapped = refl

ordinal_from_pod_name-ReadFrom_example : ReadFrom "etl-4294967295" "etl" (negsuc 0)
ordinal_from_pod_name-ReadFrom_example =
    ordinal_from_pod_name-ReadFrom "etl-4294967295" "etl" (negsuc 0) wrapped
