-- ===== src/Web/Routes/Writes.antt =====
-- The handlers of pipelines, clusters and projects keep to what their request may do
-- (internal/api/handlers_pipelines.go, handlers_clusters.go and handlers_projects.go).
use rpc_operator.Prelude.{
  String, ◌≡◌, refl, sym, ap, inl, Bool, not, ◌&&◌, none, some, List, [], ◌∷◌, Memᴰ, ◌==◌,
}
use Prim.Native.String
use rpc_operator.Effects.{ret, ask, Event}
use rpc_operator.Effects.Rules.{Every-if}
use rpc_operator.Fallible.{Fallible}
use rpc_operator.Controller.Calls.{Pipeline, Answer, ok, err, on_answer}
use rpc_operator.Project.Types.{Project}
use rpc_operator.Web.Access.{Head, Context}
use rpc_operator.Web.Validate.{ValidationError, one, validate_pipeline}
use rpc_operator.Web.Rest.Calls.{
  Client, Kind, pipelines, clusters, projects, Object, get, list, create, update, delete,
  patch_stopped, RestCall, RestReply, RestAct, RestResponse, invalid, answered, with_client,
}
use rpc_operator.Web.Rest.Shared.{
  RestDeps, Body, decoded, namespace_of, with_namespace, with_spec_of, list_all, list_namespaced,
  get_one, delete_one, store_new, store_changed, placed, unless_invalid,
}
use rpc_operator.Web.Rest.Projects.{
  validate_graph, validate_project_graph, handle_create_project, handle_update_project,
}
use rpc_operator.Web.Rest.Pipelines.{handle_create, handle_update, set_stopped}
use rpc_operator.Web.Rest.Clusters.{handle_create_cluster, handle_update_cluster}
use rpc_operator.Web.Routes.Promises.{
  RestHistory, event, MayWrite, MayRead, IsInScope, IsChecked, WasRead, Guarded, Responds,
}
use rpc_operator.Web.Routes.Guards.{Goes, Serves, with_client-Goes}

namespace_of-with_namespace :
    (k : Kind) (ns : String) (o : Object k) → namespace_of k (with_namespace k ns o) ≡ ns
namespace_of-with_namespace pipelines ns o = refl
namespace_of-with_namespace clusters ns o = refl
namespace_of-with_namespace projects ns o = refl

module _ (deps : RestDeps) (body : Body) (head : Head) where
  pub answered-Goes :
      {A : Type 0} (r : Answer A) (k : A → RestAct RestResponse) (h : RestHistory)
      → ((a : A) → r ≡ ok a → Goes deps body head h (k a))
      → Goes deps body head h (answered r k)
  answered-Goes (ok a) k h go = go a refl
  answered-Goes (err e) k h go = tt

  pub decoded-Goes :
      {A : Type 0} (r : Fallible A) (k : A → RestAct RestResponse) (h : RestHistory)
      → ((a : A) → r ≡ Fallible.ok a → Goes deps body head h (k a))
      → Goes deps body head h (decoded r k)
  decoded-Goes (Fallible.ok a) k h go = go a refl
  decoded-Goes (Fallible.err e) k h go = tt

  placed-Goes :
      (k : Kind) (o : Object k) (next : Object k → RestAct RestResponse) (h : RestHistory)
      → ((o' : Object k) → namespace_of k o' ≡ head.namespace → Goes deps body head h (next o'))
      → Goes deps body head h (placed deps.server k head o next)
  placed-Goes k o next h go =
      Every-if (Guarded deps body head) (Responds deps body head) h
        (not (namespace_of k o == "") && not (namespace_of k o == head.namespace)) _ _ (λ _. tt)
        (λ _.
          go (with_namespace k head.namespace o) (namespace_of-with_namespace k head.namespace o))

  unless_invalid-Goes :
      (k : Kind) (errors : List ValidationError) (m : RestAct RestResponse) (h : RestHistory)
      → (errors ≡ [] → Goes deps body head h m)
      → Goes deps body head h (unless_invalid deps.server k errors m)
  unless_invalid-Goes k [] m h go = go refl
  unless_invalid-Goes k (e ∷ es) m h go = tt

  module _ (ctx : Context) (reads : Serves deps body head (MayRead deps body head) ctx) where
    pub list_all-Goes : (k : Kind) → Goes deps body head [] (list_all deps.server k head ctx)
    list_all-Goes k =
        with_client-Goes deps body head (MayRead deps body head) ctx _ [] reads
          (λ c h may. (may, λ r. answered-Goes r _ (event (list c k none) r ∷ h) (λ a e. tt)))

    pub list_namespaced-Goes :
        IsInScope deps body head
        → (k : Kind) → Goes deps body head [] (list_namespaced deps.server k head ctx)
    list_namespaced-Goes scope k =
        with_client-Goes deps body head (MayRead deps body head) ctx _ [] reads (λ c h may. (
          (may, refl, scope),
          λ r. answered-Goes r _ (event (list c k (some head.namespace)) r ∷ h) (λ a e. tt),
        ))

    pub get_one-Goes :
        IsInScope deps body head
        → (k : Kind) → Goes deps body head [] (get_one deps.server k head ctx)
    get_one-Goes scope k =
        with_client-Goes deps body head (MayRead deps body head) ctx _ [] reads (λ c h may. (
          (may, inl (refl, refl, scope)),
          λ r. answered-Goes r _ (event (get c k head.namespace head.name) r ∷ h) (λ a e. tt),
        ))

  module _ (ctx : Context) (writes : Serves deps body head (MayWrite deps body head) ctx)
      (scope : IsInScope deps body head) where
    -- an object is read, and then something is done with it
    get-Goes :
        (c : Client) (k : Kind) (next : Object k → RestAct RestResponse) (h : RestHistory)
        → MayWrite deps body head c
        → ((h' : RestHistory) (o : Object k)
            → WasRead deps body head h' c k o
            → Goes deps body head h' (next o))
        → Goes deps body head h (ask (get c k head.namespace head.name) (λ r. answered r next))
    get-Goes c k next h may go = (
      (inl may, inl (refl, refl, scope)),
      λ r. answered-Goes r next (event (get c k head.namespace head.name) r ∷ h) (λ o e.
          go (event (get c k head.namespace head.name) r ∷ h) o (
            Memᴰ.head (
              ap (λ (a : Answer (Object k)). event (get c k head.namespace head.name) a) (sym e)))),
    )

    pub delete_one-Goes : (k : Kind) → Goes deps body head [] (delete_one deps.server k head ctx)
    delete_one-Goes k =
        with_client-Goes deps body head (MayWrite deps body head) ctx _ [] writes (λ c h may.
          get-Goes c k _ h may (λ h' o was.
            ((may, scope, was), λ r. answered-Goes r _ (event (delete c k o) r ∷ h') (λ a e. tt))))

    pub set_stopped-Goes :
        (stopped : Bool) → Goes deps body head [] (set_stopped deps body stopped head ctx)
    unfolding set_stopped
    set_stopped-Goes stopped =
        with_client-Goes deps body head (MayWrite deps body head) ctx _ [] writes (λ c h may.
          get-Goes c pipelines _ h may (λ h' p was. (
            (may, scope, was),
            λ r. answered-Goes r _ (event (patch_stopped c p stopped) r ∷ h') (λ a e. tt),
          )))

    store_new-Goes :
        (k : Kind) (c : Client) (o : Object k) (h : RestHistory)
        → MayWrite deps body head c
        → namespace_of k o ≡ head.namespace
        → IsChecked deps body head h k o
        → Goes deps body head h (store_new deps.server k c o)
    store_new-Goes k c o h may here checked = (
      (may, scope, here, checked),
      λ r. answered-Goes r _ (event (create c k o) r ∷ h) (λ a e. tt),
    )

    store_changed-Goes :
        (k : Kind) (c : Client) (sent current : Object k) (h : RestHistory)
        → MayWrite deps body head c
        → body k ≡ Fallible.ok sent
        → WasRead deps body head h c k current
        → IsChecked deps body head h k (with_spec_of k sent current)
        → Goes deps body head h (store_changed deps.server k c (with_spec_of k sent current))
    store_changed-Goes k c sent current h may given was checked = (
      (may, scope, sent, current, given, was, refl, checked),
      λ r. answered-Goes r _ (event (update c k (with_spec_of k sent current)) r ∷ h) (λ a e. tt),
    )

    pub handle_create-Goes : Goes deps body head [] (handle_create deps body head ctx)
    unfolding handle_create
    handle_create-Goes = decoded-Goes (body pipelines) _ [] (λ b given.
        placed-Goes pipelines b
          (λ p.
            unless_invalid deps.server pipelines
              (validate_pipeline deps.codec deps.json deps.catalog p.spec)
              (with_client deps.server ctx (λ c. store_new deps.server pipelines c p)))
          []
          (λ p here.
            unless_invalid-Goes pipelines
              (validate_pipeline deps.codec deps.json deps.catalog p.spec)
              (with_client deps.server ctx (λ c. store_new deps.server pipelines c p)) []
              (λ valid.
                with_client-Goes deps body head (MayWrite deps body head) ctx
                  (λ c. store_new deps.server pipelines c p) [] writes
                  (λ c h may. store_new-Goes pipelines c p h may here valid))))

    pub handle_update-Goes : Goes deps body head [] (handle_update deps body head ctx)
    unfolding handle_update
    handle_update-Goes = decoded-Goes (body pipelines) _ [] (λ b given.
        unless_invalid-Goes pipelines (validate_pipeline deps.codec deps.json deps.catalog b.spec) _
          []
          (λ valid.
            with_client-Goes deps body head (MayWrite deps body head) ctx _ [] writes (λ c h may.
              get-Goes c pipelines _ h may (λ h' current was.
                store_changed-Goes pipelines c b current h' may given was valid))))

    pub handle_create_cluster-Goes :
        Goes deps body head [] (handle_create_cluster deps body head ctx)
    unfolding handle_create_cluster
    handle_create_cluster-Goes = decoded-Goes (body clusters) _ [] (λ b given.
        placed-Goes clusters b
          (λ cl. with_client deps.server ctx (λ c. store_new deps.server clusters c cl)) []
          (λ cl here.
            with_client-Goes deps body head (MayWrite deps body head) ctx
              (λ c. store_new deps.server clusters c cl) [] writes
              (λ c h may. store_new-Goes clusters c cl h may here tt)))

    pub handle_update_cluster-Goes :
        Goes deps body head [] (handle_update_cluster deps body head ctx)
    unfolding handle_update_cluster
    handle_update_cluster-Goes = decoded-Goes (body clusters) _ [] (λ b given.
        with_client-Goes deps body head (MayWrite deps body head) ctx _ [] writes (λ c h may.
          get-Goes c clusters _ h may
            (λ h' current was. store_changed-Goes clusters c b current h' may given was tt)))

    -- what follows where the graph is valid, and what is known of it
    validate_project_graph-Goes :
        (c : Client) (p : Project) (m : RestAct RestResponse) (h : RestHistory)
        → MayWrite deps body head c
        → ((e : Event RestCall RestReply)
            → IsChecked deps body head (e ∷ h) projects p
            → Goes deps body head (e ∷ h) m)
        → Goes deps body head h (validate_project_graph deps body c head.namespace p m)
    unfolding validate_project_graph
    validate_project_graph-Goes c p m h may go = ((inl may, refl, scope), by_reply)
      where
        by_reply :
            (r : Answer (List Pipeline))
            → Goes deps body head (event (list c pipelines (some head.namespace)) r ∷ h) (
                on_answer r
                  (λ ps.
                    unless_invalid deps.server pipelines
                      (validate_graph deps.codec deps.parse p ps)
                      m)
                  (λ e. ret (
                    invalid (one "spec.routes" (String.◌++◌ "could not list pipelines: " e.text)))))
        by_reply (err e) = tt
        by_reply (ok ps) =
            unless_invalid-Goes pipelines (validate_graph deps.codec deps.parse p ps) m
              (event (list c pipelines (some head.namespace)) (ok ps) ∷ h)
              (λ valid.
                go (event (list c pipelines (some head.namespace)) (ok ps))
                  (c, ps, Memᴰ.head refl, valid))

    pub handle_create_project-Goes :
        Goes deps body head [] (handle_create_project deps body head ctx)
    unfolding handle_create_project
    handle_create_project-Goes = decoded-Goes (body projects) _ [] (λ b given.
        placed-Goes projects b
          (λ p. with_client deps.server ctx (λ c.
            validate_project_graph deps body c head.namespace p
              (store_new deps.server projects c p)))
          []
          (λ p here.
            with_client-Goes deps body head (MayWrite deps body head) ctx
              (λ c.
                validate_project_graph deps body c head.namespace p
                  (store_new deps.server projects c p))
              [] writes
              (λ c h may.
                validate_project_graph-Goes c p (store_new deps.server projects c p) h may
                  (λ e checked. store_new-Goes projects c p (e ∷ h) may here checked))))

    pub handle_update_project-Goes :
        Goes deps body head [] (handle_update_project deps body head ctx)
    unfolding handle_update_project
    handle_update_project-Goes = decoded-Goes (body projects) _ [] (λ b given.
        with_client-Goes deps body head (MayWrite deps body head) ctx _ [] writes (λ c h may.
          get-Goes c projects _ h may (λ h' current was.
            validate_project_graph-Goes c (with_spec_of projects b current)
              (store_changed deps.server projects c (with_spec_of projects b current)) h' may
              (λ e checked.
                store_changed-Goes projects c b current (e ∷ h') may given (Memᴰ.tail was)
                  checked))))
