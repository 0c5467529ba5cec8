-- ===== src/Web/Routes/Promises.antt =====
-- What a request may make the server ask for (internal/api/auth.go and internal/api/server.go).
use rpc_operator.Prelude.{
  ◌≡◌, ◌≢◌, ◌⊎◌, true, false, none, some, List, [], Memᴰ, any, is_empty, ◌==◌,
}
use rpc_operator.Effects.{Event}
use rpc_operator.Fallible
use rpc_operator.Controller.Calls.{Pipeline, ok}
use rpc_operator.Web.Access.{Head, token_from_request}
use rpc_operator.Web.Validate.{validate_pipeline}
use rpc_operator.Web.Rest.Calls.{
  Client, operator, user, Kind, pipelines, clusters, projects, Object, RestCall, connect,
  connect_clientset, list, get, create, update, delete, patch_stopped, review, list_pods, RestReply,
  RestResponse,
}
use rpc_operator.Web.Rest.Shared.{RestDeps, Body, namespace_of, with_spec_of}
use rpc_operator.Web.Rest.Projects.{validate_graph}

abbrev pub RestHistory : Type 0
RestHistory = List (Event RestCall RestReply)

abbrev pub event : (c : RestCall) → RestReply c → Event RestCall RestReply
event c r = record { call = c; reply = r }

module _ (deps : RestDeps) (body : Body) (head : Head) where
  -- The client that may write: the user's, by the token of the request, or without authentication the
  -- operator's.
  abbrev pub MayWrite : Client → Type 0
  MayWrite c =
      ((deps.server.auth_enabled ≡ false) × (c ≡ operator))
      ⊎ ((deps.server.auth_enabled ≡ true)
          × (token_from_request head ≢ "")
          × (c ≡ user (token_from_request head)))

  -- The client that may read: also the operator's for a request without a token, where anonymous
  -- reading is on.
  abbrev pub MayRead : Client → Type 0
  MayRead c =
      MayWrite c
      ⊎ ((deps.server.auth_enabled ≡ true)
          × (deps.server.anonymous_read ≡ true)
          × (token_from_request head ≡ "")
          × (c ≡ operator))

  -- The namespace of the path is one that the operator is allowed.
  abbrev pub IsInScope : Type 0
  IsInScope =
      (is_empty deps.server.watch_namespaces ≡ true)
      ⊎ ((head.namespace ≢ "")
          × (any (λ n. n == head.namespace) deps.server.watch_namespaces ≡ true))

  -- A pipeline is valid, and a project has a valid graph with the pipelines that were listed.
  abbrev pub IsChecked : RestHistory → (k : Kind) → Object k → Type 0
  IsChecked h pipelines o = validate_pipeline deps.codec deps.json deps.catalog o.spec ≡ []
  IsChecked h projects o =
      (c : Client) × (ps : List Pipeline) × Memᴰ
        (event (list c pipelines (some head.namespace)) (ok ps)) h
      × (validate_graph deps.codec deps.parse o ps ≡ [])
  IsChecked h clusters o = Unit

  -- The object that the path names was read by this client.
  abbrev pub WasRead : RestHistory → Client → (k : Kind) → Object k → Type 0
  WasRead h c k o = Memᴰ (event (get c k head.namespace head.name) (ok o)) h

  abbrev pub Guarded : RestHistory → RestCall → Type 0
  Guarded h (connect t) =
      (deps.server.auth_enabled ≡ true) × (t ≡ token_from_request head) × (t ≢ "")
  Guarded h (connect_clientset t) =
      (deps.server.auth_enabled ≡ true) × (t ≡ token_from_request head) × (t ≢ "")
  Guarded h (list c k none) = MayRead c
  Guarded h (list c k (some ns)) = MayRead c × (ns ≡ head.namespace) × IsInScope
  Guarded h (list_pods c ns cluster) =
      MayRead c × (ns ≡ head.namespace) × (cluster ≡ head.name) × IsInScope
  Guarded h (get c k ns name) =
      MayRead c
      × (((ns ≡ head.namespace) × (name ≡ head.name) × IsInScope)
          ⊎ ((k ≡ projects) × (deps.server.auth_enabled ≡ false)))
  Guarded h (create c k o) =
      MayWrite c × IsInScope × (namespace_of k o ≡ head.namespace) × IsChecked h k o
  Guarded h (update c k o) =
      MayWrite c
      × IsInScope
      × (sent : Object k) × (current : Object k) × (body k ≡ Fallible.ok sent)
      × WasRead h c k current
      × (o ≡ with_spec_of k sent current)
      × IsChecked h k o
  Guarded h (delete c k o) = MayWrite c × IsInScope × WasRead h c k o
  Guarded h (patch_stopped c p stopped) = MayWrite c × IsInScope × WasRead h c pipelines p
  Guarded h (review c) = MayWrite c × (c ≢ operator)

  -- any response
  abbrev pub Responds : RestHistory → RestResponse → Type 0
  Responds h r = Unit
