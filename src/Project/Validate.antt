-- ===== src/Project/Validate.antt =====
-- `ValidateProject` of internal/projectroute/projectroute.go. The parser of Bloblang, `bloblang.Parse`,
-- is a parameter: it returns the error's text, if there is one. The map of pipelines is the list of
-- its entries in the order in which Go's loop visits them.
mod Errors
mod Caches
pub mod Messages
pub mod Laws
pub mod Valid
use Prim.Native.String
use rpc_operator.Prelude.{
  ℕ, zero, suc, ◌+◌, String, Bool, true, false, not, ◌&&◌, ◌||◌, Option, none, some, List, [], ◌∷◌,
  ◌++◌, any, ◌==◌, if◌then◌else◌,
}
use rpc_operator.Prelude.Decimal.{itoa}
use rpc_operator.Prelude.Quote.{quote}
use rpc_operator.Prelude.Sorting.{sort, text_le}
use rpc_operator.Project.Types.{RouteTarget, ProjectRoute, KvCache, CacheResource, Project}
use rpc_operator.Project.Plan.{is_producer, is_consumer}
use rpc_operator.Project.Cycle.Search.{Outcome, found, clear, out_of_fuel, find_cycle}

pub record ProjectError : Type 0 where
  pub route : String
  pub message : String

pub record PipelineView : Type 0 where
  pub name : String
  pub project_name : String
  pub has_input : Bool
  pub has_output : Bool

abbrev pub Pipelines : Type 0
Pipelines = List (String × PipelineView)

unfoldable pub view_of : String → Pipelines → Option PipelineView
view_of name [] = none
view_of name ((k, v) ∷ rest) = if k == name then some v else view_of name rest

-- the closure `inProject`
unfoldable pub in_project : Project → Pipelines → String → Bool
in_project project pipelines name = elim (view_of name pipelines) [
  | none ↦ false
  | some pv ↦ pv.project_name == project.name
]

abbrev pub project_error : String → ProjectError
project_error message = record { route = ""; message = message }

-- the loop over the names, with the names seen before
unfoldable pub duplicate_errors : List String → List ProjectRoute → List ProjectError
duplicate_errors seen [] = []
duplicate_errors seen (r ∷ rs) =
    let rest = duplicate_errors (r.name ∷ seen) rs in
    if any (λ n. n == r.name) seen
    then record {
      route = r.name;
      message = String.◌++◌ "route name " (String.◌++◌ (quote r.name) " is not unique");
    }
      ∷ rest
    else rest

-- the mapping that `parsePredicate` parses
unfoldable pub predicate_mapping : String → String
predicate_mapping when =
    String.◌++◌ "root = if !(" (String.◌++◌ when ") { deleted() } else { this }")

-- "route '%s' to[%d]"
abbrev pub target_label : ProjectRoute → ℕ → String
target_label r j =
    String.◌++◌ "route '" (String.◌++◌ r.name (String.◌++◌ "' to[" (String.◌++◌ (itoa j) "]")))

module _ (parse : String → Option String) (project : Project) (pipelines : Pipelines) where
  -- `name == "" || !inProject(name)`
  abbrev pub outside : String → Bool
  outside name = name == "" || not (in_project project pipelines name)

  unfoldable pub predicate_errors : ProjectRoute → ℕ → RouteTarget → List ProjectError
  predicate_errors r j t = if t.when == "" then [] else elim (parse (predicate_mapping t.when)) [
    | none ↦ []
    | some text ↦
        record {
          route = r.name;
          message = String.◌++◌ (target_label r j) (String.◌++◌ ".when: " text);
        }
        ∷ []
  ]

  unfoldable pub target_errors : ProjectRoute → ℕ → RouteTarget → List ProjectError
  target_errors r j t =
      (if outside t.pipeline
        then record {
          route = r.name;
          message =
              String.◌++◌ (target_label r j)
                (String.◌++◌ "='" (String.◌++◌ t.pipeline "': pipeline not found in project"));
        }
          ∷ []
        else [])
      ++ predicate_errors r j t

  unfoldable pub targets_errors : ProjectRoute → ℕ → List RouteTarget → List ProjectError
  targets_errors r j [] = []
  targets_errors r j (t ∷ ts) = target_errors r j t ++ targets_errors r (j + 1) ts

  -- one round of the loop over the routes
  unfoldable pub route_error : ProjectRoute → List ProjectError
  route_error r =
      (if outside r.from
        then record {
          route = r.name;
          message = String.◌++◌ "route '" (
              String.◌++◌ r.name
                (String.◌++◌ "' from='" (String.◌++◌ r.from "': pipeline not found in project")));
        }
          ∷ []
        else [])
      ++ targets_errors r 0 r.to

  unfoldable pub route_errors : List ProjectRoute → List ProjectError
  route_errors [] = []
  route_errors (r ∷ rs) = route_error r ++ route_errors rs

  -- the I/O conflicts of one pipeline of the project
  unfoldable pub io_conflicts : String → PipelineView → List ProjectError
  io_conflicts name pv =
      (if is_producer project.spec.routes name && pv.has_output
        then project_error "output is managed by the project's routes; remove it" ∷ []
        else [])
      ++ (if is_consumer project.spec.routes name && pv.has_input
          then project_error "input is managed by the project's routes; remove it" ∷ []
          else [])

  unfoldable pub view_errors : String → PipelineView → List ProjectError
  view_errors name pv = if pv.project_name == project.name then io_conflicts name pv else []

  unfoldable pub io_errors : Pipelines → List ProjectError
  io_errors [] = []
  io_errors ((name, pv) ∷ rest) = view_errors name pv ++ io_errors rest

  -- strings.Join(cyc, " → ")
  unfoldable pub arrows : String → List String → String
  arrows first [] = first
  arrows first (n ∷ ns) = String.◌++◌ first (String.◌++◌ " → " (arrows n ns))

  unfoldable pub cycle_errors : Outcome → List ProjectError
  cycle_errors (found (n ∷ ns)) =
      project_error (String.◌++◌ "route graph contains a cycle: " (arrows n ns)) ∷ []
  cycle_errors _ = []

  abbrev pub has_kv : CacheResource → Bool
  has_kv cr = elim cr.nats_kv [ none ↦ false | some kv ↦ true ]

  abbrev pub has_config : CacheResource → Bool
  has_config cr = not (cr.config == "") && not (cr.config == "null")

  abbrev pub both_or_neither : Bool → Bool → Bool
  both_or_neither true b = b
  both_or_neither false b = not b

  unfoldable pub cache_error : CacheResource → List ProjectError
  cache_error cr =
      if both_or_neither (has_kv cr) (has_config cr)
      then project_error (
          String.◌++◌ "cacheResources["
            (String.◌++◌ cr.name "]: set exactly one of natsKV or config"))
        ∷ []
      else []

  unfoldable pub cache_errors : List CacheResource → List ProjectError
  cache_errors [] = []
  cache_errors (cr ∷ crs) = cache_error cr ++ cache_errors crs

  unfoldable pub all_errors : List ProjectError
  all_errors =
      duplicate_errors [] project.spec.routes
      ++ route_errors project.spec.routes
      ++ io_errors pipelines
      ++ cycle_errors (find_cycle project.spec.routes)
      ++ cache_errors project.spec.cache_resources

  -- ordered by the message
  unfoldable pub validate_project : List ProjectError
  validate_project = sort (λ a b. text_le a.message b.message) all_errors
