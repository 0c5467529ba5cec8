-- ===== src/ProjectController/Caches/Promises.antt =====
-- What stands behind a status of a cache resource, and which calls are allowed
-- (internal/controller/pipelineproject_caches.go).
use rpc_operator.Prelude.{
  String, ◌≡◌, ◌≢◌, refl, ◌⊎◌, inl, inr, Option, none, some, List, [], ◌∷◌, Memᴰ, All,
}
use rpc_operator.Effects.{Event}
use rpc_operator.Controller.Calls.{Answer, ok, err, Error}
use rpc_operator.Project.Types.{KvCache, CacheResource, Project}
use rpc_operator.Project.Naming.{cache_bucket, nats_url}
use rpc_operator.Render.Document.{Codec}
use rpc_operator.ProjectController.Caches.{
  CacheCall, ensure_kv, delete_kv, push_cache, drop_cache, CacheReply, CacheStatus, CacheOutcome,
  kv_config, nats,
}

abbrev pub CacheHistory : Type 0
CacheHistory = List (Event CacheCall CacheReply)

abbrev pub Stable : (CacheHistory → Type 0) → Type 0
Stable K = (h : CacheHistory) (e : Event CacheCall CacheReply) → K h → K (e ∷ h)

-- what holds if there is no error
abbrev pub IfFine : {A : Type 0} → (CacheHistory → A → Type 0) → CacheHistory → Answer A → Type 0
IfFine K h (ok a) = K h a
IfFine K h (err e) = Unit

-- the same, and what holds in both cases
abbrev pub Both :
    {A : Type 0}
    → (CacheHistory → Type 0)
    → (CacheHistory → A → Type 0)
    → CacheHistory
    → Answer A
    → Type 0
Both K F h r = K h × IfFine F h r

module _ (codec : Codec) (project : Project) (urls : List String) (olds : List CacheStatus) where
  -- The resource needs no bucket, or the server confirmed it.
  abbrev pub HasBucket : CacheHistory → CacheResource → Type 0
  HasBucket h cr =
      (cr.nats_kv ≡ none)
      ⊎ ((kv : KvCache) × (cr.nats_kv ≡ some kv)
          × Memᴰ
              (record {
                call =
                    ensure_kv (nats codec project urls) (cache_bucket project.name cr.name)
                      (kv_config kv);
                reply = ok tt;
              })
              h)

  -- The instance took the resource.
  abbrev pub Took : CacheHistory → CacheResource → String → String → Type 0
  Took h cr body url = Memᴰ (record { call = push_cache url cr.name body; reply = ok tt }) h

  -- A removed resource: the last statuses name it, and the project has none of that name.
  abbrev pub IsRemoved : CacheStatus → Type 0
  IsRemoved old =
      Memᴰ old olds
      × ((cr : CacheResource) → Memᴰ cr project.spec.cache_resources → cr.name ≢ old.name)

  -- A resource of the project is pushed to one of the instances behind its bucket; and only removed
  -- resources lose their entries on these instances and their buckets on the project's server.
  abbrev pub Tends : CacheHistory → CacheCall → Type 0
  Tends h (push_cache url label body) =
      Memᴰ url urls
      × (cr : CacheResource) × Memᴰ cr project.spec.cache_resources
      × (cr.name ≡ label)
      × HasBucket h cr
  Tends h (drop_cache url label) =
      Memᴰ url urls × (old : CacheStatus) × IsRemoved old × (old.name ≡ label)
  Tends h (ensure_kv url bucket config) =
      (url ≡ nats_url project.name project.namespace)
      × (cr : CacheResource) × Memᴰ cr project.spec.cache_resources
      × (bucket ≡ cache_bucket project.name cr.name)
  Tends h (delete_kv url bucket) =
      (url ≡ nats_url project.name project.namespace)
      × (old : CacheStatus) × IsRemoved old
      × (old.bucket ≡ bucket)
      × (bucket ≢ "")
  Tends h _ = Unit

  -- The status is a failure, or the resource has its bucket and every instance took it.
  abbrev pub Backs : CacheHistory → CacheResource → CacheStatus → Type 0
  Backs h cr st =
      (st.name ≡ cr.name)
      × ((st.phase ≡ "Failed") ⊎ (HasBucket h cr × ((body : String) × All (Took h cr body) urls)))

  -- One status for each resource, in order; fewer only with an error.
  abbrev pub Covers : List CacheResource → List CacheStatus → Option Error → CacheHistory → Type 0
  Covers [] [] failure h = Unit
  Covers [] (st ∷ sts) failure h = ⊥
  Covers (cr ∷ crs) [] failure h = failure ≢ none
  Covers (cr ∷ crs) (st ∷ sts) failure h = Backs h cr st × Covers crs sts failure h

  abbrev pub Reports : CacheHistory → CacheOutcome → Type 0
  Reports h out = Covers project.spec.cache_resources out.statuses out.failure h

  pub HasBucket-later : (cr : CacheResource) → Stable (λ h. HasBucket h cr)
  HasBucket-later cr h e (inl n) = inl n
  HasBucket-later cr h e (inr (kv, s, m)) = inr (kv, s, Memᴰ.tail m)

  pub AllTook-later :
      (cr : CacheResource) (body : String) (rest : List String)
      → Stable (λ h. All (Took h cr body) rest)
  AllTook-later cr body [] h e k = tt
  AllTook-later cr body (u ∷ us) h e (m, k) = (Memᴰ.tail m, AllTook-later cr body us h e k)

  pub Backs-later : (cr : CacheResource) (st : CacheStatus) → Stable (λ h. Backs h cr st)
  Backs-later cr st h e (n, inl f) = (n, inl f)
  Backs-later cr st h e (n, inr (b, (body, k))) =
      (n, inr (HasBucket-later cr h e b, (body, AllTook-later cr body urls h e k)))

  pub Covers-later :
      (crs : List CacheResource) (sts : List CacheStatus) (failure : Option Error)
      → Stable (Covers crs sts failure)
  Covers-later [] [] failure h e k = tt
  Covers-later [] (st ∷ sts) failure h e k = k
  Covers-later (cr ∷ crs) [] failure h e k = k
  Covers-later (cr ∷ crs) (st ∷ sts) failure h e (b, k) =
      (Backs-later cr st h e b, Covers-later crs sts failure h e k)

  -- where the statuses are complete, a later error changes nothing
  pub Covers-complete :
      (crs : List CacheResource) (sts : List CacheStatus) (failure : Option Error)
      (h : CacheHistory)
      → Covers crs sts none h
      → Covers crs sts failure h
  Covers-complete [] [] failure h k = tt
  Covers-complete [] (st ∷ sts) failure h k = k
  Covers-complete (cr ∷ crs) [] failure h k = absurd (k refl)
  Covers-complete (cr ∷ crs) (st ∷ sts) failure h (b, k) = (b, Covers-complete crs sts failure h k)
