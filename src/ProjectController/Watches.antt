-- ===== src/ProjectController/Watches.antt =====
-- Which projects a change is passed on to (projectsForClusterPod and projectsForPipeline of
-- internal/controller/pipelineproject_controller.go).
mod Tests
use Prim.Native.String
use Prim.Native.String.{[], ◌∷◌}
use text.Mathlib.TextLemmas.{
  nil-append, cons-append, length-append, length-cons, append-ne-nil_of_right_ne-nil,
}
use rpc_operator.Prelude.{
  ℕ, ◌+◌, String, ◌≡◌, refl, ap, Bool, true, false, Option, none, some, List, [], ◌∷◌, map, ◌==◌,
  if◌then◌else◌, eq_iff, eq_refl, text_eq-false, arith,
}
use rpc_operator.Controller.Calls.{Answer, ok, err}
use rpc_operator.ProjectController.Resources.{child_cluster_name}

-- `strings.HasSuffix` with `strings.TrimSuffix`: the text in front of the suffix
unfoldable pub strip_suffix : String → String → Option String
strip_suffix suffix [] = if [] == suffix then some [] else none
strip_suffix suffix (c ∷ s) =
    let rest = strip_suffix suffix s in
    if (c ∷ s) == suffix then some [] else elim rest [ none ↦ none | some front ↦ some (c ∷ front) ]

-- a request to reconcile a project
pub record Request : Type 0 where
  pub name : String
  pub namespace : String

-- projectsForClusterPod, from the label with the cluster's name (empty if there is none)
unfoldable pub projects_for_cluster_pod : String → String → List Request
unfolding strip_suffix
projects_for_cluster_pod label namespace =
    if label == "" then [] else elim (strip_suffix "-cluster" label) [
      | none ↦ []
      | some project ↦ record { name = project; namespace = namespace } ∷ []
    ]

-- projectsForPipeline, from the reply to the listing of the projects
unfoldable pub projects_for_pipeline : String → Answer (List String) → List Request
projects_for_pipeline namespace (ok projects) =
    map (λ p. record { name = p; namespace = namespace }) projects
projects_for_pipeline namespace (err e) = []

not_longer :
    (c : Prim.Native.Char.Char) (front suffix : String)
    → ((c ∷ String.◌++◌ front suffix) == suffix) ≡ false
not_longer c front suffix = text_eq-false _ suffix (λ e.
    let counts : String.count (c ∷ String.◌++◌ front suffix) ≡ String.count suffix =
      ap String.count e in
    grind (arith, length-cons c (String.◌++◌ front suffix), length-append front suffix))

strip_suffix-append :
    (suffix front : String) → strip_suffix suffix (String.◌++◌ front suffix) ≡ some front
unfolding strip_suffix
strip_suffix-append suffix [] = rw nil-append (at_end suffix)
  where
    at_end : (s : String) → strip_suffix s s ≡ some []
    at_end [] = refl
    at_end (c ∷ s) = rw (strip_suffix, eq_refl (c ∷ s)) refl
strip_suffix-append suffix (c ∷ front) =
    rw (cons-append, strip_suffix, not_longer c front suffix, strip_suffix-append suffix front) refl

-- A pod of the cluster of a project passes its changes on to that project alone.
pub projects_for_cluster_pod-child_cluster_name :
    (project namespace : String)
    → projects_for_cluster_pod (child_cluster_name project) namespace
      ≡ record { name = project; namespace = namespace } ∷ []
unfolding projects_for_cluster_pod child_cluster_name
projects_for_cluster_pod-child_cluster_name project namespace =
    let named : (String.◌++◌ project "-cluster" == "") ≡ false =
      text_eq-false _ "" (append-ne-nil_of_right_ne-nil project (λ e. cc e)) in
    rw (strip_suffix-append "-cluster" project, named) refl
