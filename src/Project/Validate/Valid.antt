-- ===== src/Project/Validate/Valid.antt =====
-- What a valid project is, apart from the code that looks for violations.
use rpc_operator.Prelude.{
  String, ◌≡◌, ◌≢◌, ◌⊎◌, true, false, Option, none, some, List, [], ◌∷◌, Memᴰ, All,
}
use rpc_operator.Project.Types.{RouteTarget, ProjectRoute, CacheResource, Project, KvCache}
use rpc_operator.Project.Plan.{is_producer, is_consumer}
use rpc_operator.Project.Cycle.Graph.{Leads}
use rpc_operator.Project.Validate.{PipelineView, Pipelines, view_of, predicate_mapping}

-- no name stands before itself, or among the names given
abbrev pub AreDistinct : List String → List ProjectRoute → Type 0
AreDistinct seen [] = Unit
AreDistinct seen (r ∷ rs) = (¬ Memᴰ r.name seen) × AreDistinct (r.name ∷ seen) rs

module _ (parse : String → Option String) (project : Project) (pipelines : Pipelines) where
  -- The name is that of a pipeline that claims the project.
  abbrev pub InProject : String → Type 0
  InProject name =
      (name ≢ "")
      × (pv : PipelineView) × (view_of name pipelines ≡ some pv)
      × (pv.project_name ≡ project.name)

  abbrev pub IsTarget : RouteTarget → Type 0
  IsTarget t = InProject t.pipeline × ((t.when ≡ "") ⊎ (parse (predicate_mapping t.when) ≡ none))

  abbrev pub IsRoute : ProjectRoute → Type 0
  IsRoute r = InProject r.from × All IsTarget r.to

  -- A producer has no output of its own, and a consumer no input.
  abbrev pub IsView : String × PipelineView → Type 0
  IsView v =
      (v.1.project_name ≡ project.name)
      → ((is_producer project.spec.routes v.0 ≡ true → v.1.has_output ≡ false)
          × (is_consumer project.spec.routes v.0 ≡ true → v.1.has_input ≡ false))

  -- One of the two is set, and not the other.
  abbrev pub IsCache : CacheResource → Type 0
  IsCache cr =
      (((kv : KvCache) × (cr.nats_kv ≡ some kv)) × ((cr.config ≡ "") ⊎ (cr.config ≡ "null")))
      ⊎ ((cr.nats_kv ≡ none) × (cr.config ≢ "") × (cr.config ≢ "null"))

  pub record IsValid : Type 0 where
    pub distinct : AreDistinct [] project.spec.routes
    pub routes : All IsRoute project.spec.routes
    pub views : All IsView pipelines
    pub acyclic : (u : String) → ¬ Leads project.spec.routes u u
    pub caches : All IsCache project.spec.cache_resources
