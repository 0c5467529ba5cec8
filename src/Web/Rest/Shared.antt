-- ===== src/Web/Rest/Shared.antt =====
-- What the handlers of pipelines, projects and clusters share (internal/api/handlers_pipelines.go,
-- handlers_projects.go and handlers_clusters.go).
use rpc_operator.Prelude.{String, not, ◌&&◌, Option, none, some, List, [], ◌∷◌, ◌==◌, if◌then◌else◌}
use rpc_operator.Effects.{ret, ask}
use rpc_operator.Fallible.{Fallible}
use rpc_operator.Render.Document.{Codec}
use rpc_operator.Web.Access.{Server, Head, Context, problem}
use rpc_operator.Web.Validate.{ValidationError, JsonOps, Catalog}
use rpc_operator.Web.Rest.Calls.{
  Kind, pipelines, clusters, projects, Object, Client, list, get, create, update, delete, RestAct,
  RestResponse, invalid, listed, object, deleted, reject, answered, with_client,
}

-- What surrounds the handlers: the libraries, the catalog, and the parser of Bloblang.
pub record RestDeps : Type 0 where
  pub server : Server
  pub codec : Codec
  pub json : JsonOps
  pub catalog : Catalog
  pub parse : String → Option String

-- The body of a request, decoded as an object.
abbrev pub Body : Type 0
Body = (k : Kind) → Fallible (Object k)

-- what follows the decoding of a body
abbrev pub decoded : {A : Type 0} → Fallible A → (A → RestAct RestResponse) → RestAct RestResponse
decoded (Fallible.ok o) k = k o
decoded (Fallible.err e) k = reject (problem 400 "invalid JSON" e)

-- `o.Namespace`, `o.Namespace = ns` and `current.Spec = body.Spec`
abbrev pub namespace_of : (k : Kind) → Object k → String
namespace_of pipelines o = o.namespace
namespace_of clusters o = o.namespace
namespace_of projects o = o.namespace

abbrev pub with_namespace : (k : Kind) → String → Object k → Object k
with_namespace pipelines ns o = record o { namespace = ns }
with_namespace clusters ns o = record o { namespace = ns }
with_namespace projects ns o = record o { namespace = ns }

abbrev pub with_spec_of : (k : Kind) → Object k → Object k → Object k
with_spec_of pipelines body o = record o { spec = body.spec }
with_spec_of clusters body o = record o { spec = body.spec }
with_spec_of projects body o = record o { spec = body.spec }

-- the handlers that are alike for the three kinds
module _ (server : Server) (k : Kind) where
  abbrev pub list_all : Head → Context → RestAct RestResponse
  list_all head ctx =
      with_client server ctx
        (λ c. ask (list c k none) (λ r. answered r (λ items. ret (listed k items))))

  abbrev pub list_namespaced : Head → Context → RestAct RestResponse
  list_namespaced head ctx =
      with_client server ctx (λ c.
        ask (list c k (some head.namespace)) (λ r. answered r (λ items. ret (listed k items))))

  abbrev pub get_one : Head → Context → RestAct RestResponse
  get_one head ctx =
      with_client server ctx
        (λ c. ask (get c k head.namespace head.name) (λ r. answered r (λ o. ret (object 200 k o))))

  abbrev pub delete_one : Head → Context → RestAct RestResponse
  delete_one head ctx = with_client server ctx (λ c. ask (get c k head.namespace head.name) (λ r.
      answered r (λ o. ask (delete c k o) (λ r'. answered r' (λ _. ret (deleted head.name))))))

  abbrev pub store_new : Client → Object k → RestAct RestResponse
  store_new c o = ask (create c k o) (λ r. answered r (λ stored. ret (object 201 k stored)))

  abbrev pub store_changed : Client → Object k → RestAct RestResponse
  store_changed c o = ask (update c k o) (λ r. answered r (λ stored. ret (object 200 k stored)))

  -- the body in the namespace of the path
  abbrev pub placed : Head → Object k → (Object k → RestAct RestResponse) → RestAct RestResponse
  placed head o next =
      if not (namespace_of k o == "") && not (namespace_of k o == head.namespace)
      then reject (problem 400 "namespace mismatch" "body namespace must equal URL namespace")
      else next (with_namespace k head.namespace o)

  -- `if verrs := …; len(verrs) > 0`
  abbrev pub unless_invalid : List ValidationError → RestAct RestResponse → RestAct RestResponse
  unless_invalid [] m = m
  unless_invalid (e ∷ es) m = ret (invalid (e ∷ es))
