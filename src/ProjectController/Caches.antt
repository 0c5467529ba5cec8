-- ===== src/ProjectController/Caches.antt =====
-- `reconcileCacheResources` of internal/controller/pipelineproject_caches.go, with
-- `BuildCacheResourceConfig` of internal/render/cache_resource.go. The statuses of the last reconcile
-- are an argument.
pub mod Promises
pub mod Pushes
pub mod Removals
pub mod Laws
use Prim.Native.String
use rpc_operator.Prelude.{
  ℕ, ◌%◌, String, Bool, true, false, not, ◌&&◌, ◌||◌, Option, none, some, List, [], ◌∷◌, ◌==◌,
  if◌then◌else◌, any,
}
use rpc_operator.Prelude.Quote.{quote}
use rpc_operator.Fallible
use rpc_operator.Fallible.{Fallible, wrap, ◌>>=◌}
use rpc_operator.Effects
use rpc_operator.Effects.{Prog, ret, ask, Event}
use rpc_operator.Api.Conditions.{Condition}
use rpc_operator.Controller.Calls.{Answer, ok, err, Error, on_answer, is_rejected}
use rpc_operator.Project.Types.{KvCache, CacheResource, Project}
use rpc_operator.Project.Naming.{cache_bucket, nats_url}
use rpc_operator.Render.Value.{Value, str, arr, obj, nil, cons, end, field}
use rpc_operator.Render.Document.{Codec}
use rpc_operator.Scheduler.{Pod, ordinal_from_pod_name, is_pod_ready, cluster_pod_url}
use rpc_operator.ProjectController.Retention.{or_zero}

-- nats.KVConfig
pub record KvConfig : Type 0 where
  pub ttl : ℕ
  pub history : ℕ
  pub max_bytes : ℕ

-- `list_instances cluster`, `ensure_kv url bucket config`, `delete_kv url bucket`,
-- `push_cache instance label body` and `drop_cache instance label`. An error's text is `err.Error()`.
pub data CacheCall : Type 0 where
  list_instances : String → CacheCall
  ensure_kv : String → String → KvConfig → CacheCall
  delete_kv : String → String → CacheCall
  push_cache : String → String → String → CacheCall
  drop_cache : String → String → CacheCall

abbrev pub CacheReply : CacheCall → Type 0
CacheReply (list_instances _) = Answer (List Pod)
CacheReply _ = Answer (Unit {0})

abbrev pub Caching : Type 0 → Type 0
Caching A = Prog CacheCall CacheReply A

-- ProjectCacheResourceStatus
pub record CacheStatus : Type 0 where
  pub name : String
  pub bucket : String
  pub phase : String
  pub conditions : List Condition

-- the statuses and the error that `reconcileCacheResources` returns
pub record CacheOutcome : Type 0 where
  pub statuses : List CacheStatus
  pub failure : Option Error

-- failedCacheStatus
unfoldable pub failed_cache_status : CacheStatus → String → String → CacheStatus
failed_cache_status st reason message = record st {
  phase = "Failed";
  conditions = record { type = "Ready"; status = "False"; reason = reason; message = message } ∷ [];
}

-- the conversion to uint8 keeps the low byte
unfoldable pub kv_config : KvCache → KvConfig
kv_config kv = record {
  ttl = or_zero kv.ttl;
  history = or_zero kv.history % 256;
  max_bytes = or_zero kv.max_bytes;
}

-- `fmt.Errorf(prefix + ": %w", err)`
abbrev pub prefixed : String → Error → Error
prefixed prefix e = record e { text = String.◌++◌ prefix (String.◌++◌ ": " e.text) }

-- the URLs of readyClusterInstanceURLs
unfoldable pub ready_urls : String → String → List Pod → List String
ready_urls cluster namespace [] = []
ready_urls cluster namespace (p ∷ pods) =
    let rest = ready_urls cluster namespace pods in
    elim (ordinal_from_pod_name p.name cluster) [
      | none ↦ rest
      | some o ↦ if is_pod_ready p then cluster_pod_url cluster namespace o ∷ rest else rest
    ]

unfoldable pub kv_document : String → String → Value
kv_document url bucket = obj (
    field "nats_kv"
      (obj (field "bucket" (str bucket) (field "urls" (arr (cons (str url) nil)) end))) end)

unfoldable pub build_cache_resource_config :
    Codec → CacheResource → String → String → Fallible String
build_cache_resource_config codec cr url bucket = elim cr.nats_kv [
  | some _ ↦ codec.yaml_marshal (kv_document url bucket)
  | none ↦
      let label = String.◌++◌ "cache resource " (quote cr.name) in
      if cr.config == "" || cr.config == "null"
      then Fallible.err (String.◌++◌ label ": neither natsKV nor config set")
      else (wrap (λ e. String.◌++◌ label (String.◌++◌ ": config not valid JSON: " e))
            (codec.json_unmarshal cr.config)
          >>= codec.yaml_marshal)
]

-- pushCacheToInstances
unfoldable pub push_to : List String → String → String → Caching (Answer (Unit {0}))
push_to [] label body = ret (ok tt)
push_to (url ∷ urls) label body =
    ask (push_cache url label body)
      λ r. on_answer r (λ _. push_to urls label body) (λ e. ret (err e))

module _ (codec : Codec) (project : Project) (urls : List String) where
  abbrev pub nats : String
  nats = nats_url project.name project.namespace

  -- what follows the push
  abbrev pub pushed : CacheStatus → CacheResource → Answer (Unit {0}) → Answer CacheStatus
  pushed st cr (ok _) = ok st
  pushed st cr (err e) =
      if is_rejected e
      then ok (failed_cache_status st "PushFailed" e.text)
      else err (prefixed (String.◌++◌ "push cache resource " cr.name) e)

  unfoldable pub render_and_push : CacheStatus → CacheResource → Caching (Answer CacheStatus)
  render_and_push st cr = elim (build_cache_resource_config codec cr nats st.bucket) [
    | Fallible.err e ↦ ret (ok (failed_cache_status st "RenderFailed" e))
    | Fallible.ok body ↦ Effects.◌>>=◌ (push_to urls cr.name body) (λ r. ret (pushed st cr r))
  ]

  abbrev pub fresh_status : CacheResource → String → CacheStatus
  fresh_status cr bucket = record {
    name = cr.name;
    bucket = bucket;
    phase = "Ready";
    conditions = [];
  }

  -- the bucket of a managed resource comes first
  unfoldable pub ensure_kind : CacheResource → Option KvCache → Caching (Answer CacheStatus)
  ensure_kind cr none = render_and_push (fresh_status cr "") cr
  ensure_kind cr (some kv) =
      let st = fresh_status cr (cache_bucket project.name cr.name) in
      ask (ensure_kv nats (cache_bucket project.name cr.name) (kv_config kv)) λ r.
        on_answer r (λ _. render_and_push st cr)
          (λ e. ret (ok (failed_cache_status st "BucketFailed" e.text)))

  -- one round of the loop over the resources
  unfoldable pub ensure_cache : CacheResource → Caching (Answer CacheStatus)
  ensure_cache cr = ensure_kind cr cr.nats_kv

  -- the loop; an error ends it with the statuses before it
  unfoldable pub ensure_caches : List CacheResource → Caching CacheOutcome
  ensure_caches [] = ret (record { statuses = []; failure = none })
  ensure_caches (cr ∷ crs) = Effects.◌>>=◌ (ensure_cache cr) λ r.
      on_answer r
        (λ st.
          Effects.◌>>=◌ (ensure_caches crs)
            (λ rest. ret (record { statuses = st ∷ rest.statuses; failure = rest.failure })))
        (λ e. ret (record { statuses = []; failure = some e }))

  -- the removal of one label from every instance
  unfoldable pub drop_from : List String → String → Caching (Answer (Unit {0}))
  drop_from [] label = ret (ok tt)
  drop_from (url ∷ rest) label = ask (drop_cache url label) λ r.
      on_answer r (λ _. drop_from rest label)
        (λ e. ret (
          err (
            prefixed
              (String.◌++◌ "delete cache resource " (String.◌++◌ label (String.◌++◌ " from " url)))
              e)))

  -- the removal of a bucket
  unfoldable pub drop_bucket : CacheStatus → Caching (Answer (Unit {0}))
  drop_bucket old =
      if old.bucket == ""
      then ret (ok tt)
      else ask (delete_kv nats old.bucket) (λ r.
        on_answer r (λ _. ret (ok tt))
          (λ e. ret (err (prefixed (String.◌++◌ "delete kv bucket " old.bucket) e))))

  -- `desired[name]`
  unfoldable pub is_wanted : String → Bool
  is_wanted name = any (λ cr. cr.name == name) project.spec.cache_resources

  unfoldable pub tear_down : List CacheStatus → Caching (Option Error)
  tear_down [] = ret none
  tear_down (old ∷ olds) =
      if is_wanted old.name
      then tear_down olds
      else Effects.◌>>=◌ (drop_from urls old.name) (λ r.
        on_answer r
          (λ _.
            Effects.◌>>=◌ (drop_bucket old)
              (λ r'. on_answer r' (λ _. tear_down olds) (λ e. ret (some e))))
          (λ e. ret (some e)))

  -- what follows the listing of the instances
  unfoldable pub sync_caches : List CacheStatus → Caching CacheOutcome
  sync_caches olds = Effects.◌>>=◌ (ensure_caches project.spec.cache_resources) λ out.
      elim out.failure [
        | some e ↦ ret out
        | none ↦
            Effects.◌>>=◌ (tear_down olds)
              (λ failure. ret (record { statuses = out.statuses; failure = failure }))
      ]

-- `wired` is whether there is a client for the instances
unfoldable pub reconcile_cache_resources :
    Codec → Project → Bool → List CacheStatus → Caching CacheOutcome
reconcile_cache_resources codec project wired olds =
    let cluster = String.◌++◌ project.name "-cluster" in
    if wired
    then ask (list_instances cluster) (λ r.
      on_answer r
        (λ pods. sync_caches codec project (ready_urls cluster project.namespace pods) olds)
        (λ e. ret (record { statuses = []; failure = some (prefixed "list cluster instances" e) })))
    else ret (record { statuses = olds; failure = none })
