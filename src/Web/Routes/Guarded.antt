-- ===== src/Web/Routes/Guarded.antt =====
-- Every handler that is registered keeps to what its request may do (internal/api/server.go).
use rpc_operator.Prelude.{
  String, ◌≡◌, ◌≢◌, refl, ap, ◌∙◌, inl, inr, true, false, not, ◌||◌, Option, none, some, [], ◌∷◌,
  All, ◌==◌, eq_iff, arith,
}
use rpc_operator.Effects.{ret, ask, Every, ◌>>=◌}
use rpc_operator.Effects.Rules.{Every-bind, Every-if}
use rpc_operator.Fallible.{Fallible}
use rpc_operator.Controller.Calls.{Pipeline, Answer, ok, err, on_answer}
use rpc_operator.Project.Types.{Project}
use rpc_operator.Render.Document.{render_pipeline_yaml}
use rpc_operator.Web.Access.{Head, Context, background, problem, allowlist}
use rpc_operator.Web.Rest.Calls.{
  Client, operator, user, Kind, pipelines, clusters, projects, get, list, list_pods,
  connect_clientset, connected_clientset, review, UserInfo, reject, yaml, client_for_request,
  clientset_for_request,
}
use rpc_operator.Web.Rest.Shared.{RestDeps, Body, list_all}
use rpc_operator.Web.Rest.Pipelines.{handle_validate, handle_render, preview, rewritten_text}
use rpc_operator.Web.Rest.Users.{handle_list_namespaces, handle_whoami, reviewed, reviewed_user}
use rpc_operator.Web.Rest.Clusters.{handle_cluster_instances}
use rpc_operator.Web.Routes.{
  Handler, Route, readable, writable, readable_anywhere, whoami_route, namespaces_route,
  pipeline_routes, cluster_routes, project_routes, spec_routes,
}
use rpc_operator.Web.Routes.Promises.{
  RestHistory, event, MayWrite, MayRead, IsInScope, Guarded, Responds,
}
use rpc_operator.Web.Routes.Guards.{
  Goes, Serves, Gets, auth_of, client_for_request-Gets, with_client-Goes, auth_if_enabled-Goes,
  auth_or_anonymous-Goes, allowlist-Goes,
}
use rpc_operator.Web.Routes.Writes.{
  answered-Goes, decoded-Goes, list_all-Goes, list_namespaced-Goes, get_one-Goes, delete_one-Goes,
  set_stopped-Goes, handle_create-Goes, handle_update-Goes, handle_create_cluster-Goes,
  handle_update_cluster-Goes, handle_create_project-Goes, handle_update_project-Goes,
}

-- the first of a list, and the rest
infixr 5 ◌▸◌
abbrev ◌▸◌ : {A B : Type 0} → A → B → A × B
a ▸ b = (a, b)

module _ (deps : RestDeps) (body : Body) (head : Head) where
  module _ (ctx : Context) (reads : Serves deps body head (MayRead deps body head) ctx) where
    handle_cluster_instances-Goes :
        IsInScope deps body head
        → Goes deps body head [] (handle_cluster_instances deps.server head ctx)
    unfolding handle_cluster_instances
    handle_cluster_instances-Goes scope =
        with_client-Goes deps body head (MayRead deps body head) ctx _ [] reads (λ c h may. (
          (may, inl (refl, refl, scope)),
          λ r.
              answered-Goes deps body head r _
                (event (get c clusters head.namespace head.name) r ∷ h)
                (λ cluster e. (
                  (may, refl, refl, scope),
                  λ r'.
                      answered-Goes deps body head r' _
                        (event (list_pods c head.namespace head.name) r'
                          ∷ event (get c clusters head.namespace head.name) r
                          ∷ h)
                        (λ pods e'. (
                          (may, refl, scope),
                          λ r''.
                              answered-Goes deps body head r'' _
                                (event (list c pipelines (some head.namespace)) r''
                                  ∷ event (list_pods c head.namespace head.name) r'
                                  ∷ event (get c clusters head.namespace head.name) r
                                  ∷ h)
                                (λ ps e''. tt),
                        )),
                )),
        ))

    -- what is known of the result of clientsetForRequest
    abbrev GetsSet : RestHistory → Fallible (Option Client) → Type 0
    GetsSet h (Fallible.ok (some c)) = MayWrite deps body head c × (c ≢ operator)
    GetsSet h (Fallible.ok none) = Unit
    GetsSet h (Fallible.err e) = Unit

    handle_whoami-Goes : Goes deps body head [] (handle_whoami deps.server head ctx)
    unfolding handle_whoami clientset_for_request
    handle_whoami-Goes =
        Every-if (Guarded deps body head) (Responds deps body head) []
          (not deps.server.auth_enabled) _ _ (λ _. tt)
          (λ on.
            Every-if (Guarded deps body head) (Responds deps body head) [] ctx.anonymous _ _
              (λ _. tt)
              (λ named.
                Every-bind (Guarded deps body head) GetsSet (Responds deps body head)
                  (reviewed deps.server) [] (clientset_for_request deps.server ctx)
                  (gets (ground (arith, on, named))) by_client))
      where
        gets :
            (not deps.server.auth_enabled || ctx.anonymous) ≡ false
            → Every (Guarded deps body head) GetsSet [] (clientset_for_request deps.server ctx)
        gets bound = rw bound (
            Every-if (Guarded deps body head) GetsSet [] (ctx.token == "") _ _ (λ _. tt)
              (λ given.
                Every-if (Guarded deps body head) GetsSet [] (not deps.server.has_rest_config) _ _
                  (λ _. tt) (λ _. connects bound (λ e. cc ((eq_iff ctx.token "").1 e, given)))))
          where
            connects :
                (not deps.server.auth_enabled || ctx.anonymous) ≡ false
                → ctx.token ≢ ""
                → Every
                    (Guarded deps body head)
                    GetsSet
                    []
                    (ask (connect_clientset ctx.token) (λ r. ret (connected_clientset ctx.token r)))
            connects bound given = (
              (auth_of deps body head ctx.anonymous bound, (reads.as_user bound given).0, given),
              by_reply,
            )
              where
                by_reply :
                    (r : Option String)
                    → GetsSet
                        (event (connect_clientset ctx.token) r ∷ [])
                        (connected_clientset ctx.token r)
                by_reply none = (
                  inr (
                    auth_of deps body head ctx.anonymous bound,
                    (λ e. given ((reads.as_user bound given).0 ∙ e)),
                    ap user (reads.as_user bound given).0,
                  ),
                  λ e. cc e,
                )
                by_reply (some e) = tt

        by_review :
            (h : RestHistory) (r : Answer UserInfo)
            → Goes deps body head h (reviewed_user deps.server r)
        by_review h (ok info) = tt
        by_review h (err e) = tt

        by_client :
            (h : RestHistory) (r : Fallible (Option Client))
            → GetsSet h r
            → Goes deps body head h (reviewed deps.server r)
        by_client h (Fallible.err e) k = tt
        by_client h (Fallible.ok none) k = tt
        by_client h (Fallible.ok (some c)) k = (k, λ r. by_review (event (review c) r ∷ h) r)

  handle_validate-Goes : Goes deps body head [] (handle_validate deps body head background)
  unfolding handle_validate
  handle_validate-Goes = decoded-Goes deps body head (body pipelines) _ [] (λ p e. tt)

  -- The preview of a rendering reads a project only without authentication.
  handle_render-Goes : Goes deps body head [] (handle_render deps body head background)
  unfolding handle_render
  handle_render-Goes =
      decoded-Goes deps body head (body pipelines) _ []
        (λ p e. by_text p (render_pipeline_yaml deps.codec p.spec))
    where
      Open : Client → Type 0
      Open c = (deps.server.auth_enabled ≡ false) × (c ≡ operator)

      by_project :
          (p : Pipeline) (name text : String) (h : RestHistory) (r : Answer Project)
          → Goes deps body head h (
              on_answer r
                (λ project. ret (yaml (rewritten_text deps body p project text)))
                (λ e. ret (yaml text)))
      by_project p name text h (ok project) = tt
      by_project p name text h (err e) = tt

      by_client :
          (p : Pipeline) (name text : String) (h : RestHistory) (r : Fallible Client)
          → Gets deps body head Open h r
          → Goes deps body head h (preview deps body p name text r)
      by_client p name text h (Fallible.err e) k = tt
      by_client p name text h (Fallible.ok c) (off, same) = (
        (inl (inl (off, same)), inr (refl, off)),
        λ r. by_project p name text (event (get c projects p.namespace name) r ∷ h) r,
      )

      serves : Serves deps body head Open background
      serves = record {
        as_operator = λ free. (ground (arith, free), refl);
        as_user = λ bound given. absurd (given refl);
      }

      by_ref :
          (p : Pipeline) (text : String) (ref : Option String)
          → Goes deps body head [] (elim ref [
            | none ↦ ret (yaml text)
            | some name ↦
                client_for_request deps.server background >>= preview deps body p name text
          ])
      by_ref p text none = tt
      by_ref p text (some name) =
          Every-bind (Guarded deps body head) (Gets deps body head Open) (Responds deps body head)
            (preview deps body p name text) [] (client_for_request deps.server background)
            (client_for_request-Gets deps body head Open background serves [])
            (by_client p name text)

      by_text :
          (p : Pipeline) (r : Fallible String)
          → Goes deps body head [] (elim r [
            | Fallible.err e ↦ reject (problem 422 "render failed" e)
            | Fallible.ok text ↦ elim p.spec.project_ref [
              | none ↦ ret (yaml text)
              | some name ↦
                  client_for_request deps.server background >>= preview deps body p name text
            ]
          ])
      by_text p (Fallible.err e) = tt
      by_text p (Fallible.ok text) = by_ref p text p.spec.project_ref

  -- the handler of a route keeps to what the request may do
  abbrev pub Keeps : Route → Type 0
  Keeps r = Goes deps body head [] (r.handler head background)

  readable-Goes :
      (h : Handler)
      → ((ctx : Context)
          → Serves deps body head (MayRead deps body head) ctx
          → IsInScope deps body head
          → Goes deps body head [] (h head ctx))
      → Goes deps body head [] (readable deps body h head background)
  readable-Goes h go =
      auth_or_anonymous-Goes deps body head (allowlist reject deps.server h)
        (λ ctx reads. allowlist-Goes deps body head h ctx [] (λ scope. go ctx reads scope))

  writable-Goes :
      (h : Handler)
      → ((ctx : Context)
          → Serves deps body head (MayWrite deps body head) ctx
          → IsInScope deps body head
          → Goes deps body head [] (h head ctx))
      → Goes deps body head [] (writable deps body h head background)
  writable-Goes h go =
      auth_if_enabled-Goes deps body head (allowlist reject deps.server h)
        (λ ctx writes. allowlist-Goes deps body head h ctx [] (λ scope. go ctx writes scope))

  -- Whatever the API server replies, a handler of the routes for the user, the namespaces, the pipelines,
  -- the clusters without their metrics, the projects, and the validation and the preview of a pipeline uses
  -- the operator's client only without authentication, or to read where anonymous reading is on and the
  -- request has no token; else it uses the client of the token that the request has. It creates, changes,
  -- deletes, stops and runs only in the namespace of the path, which is one of the allowed ones: what it
  -- changes it has read from there by its name and takes only the specification from the body, a pipeline
  -- that it stores is valid, and a project that it stores has a valid graph with the pipelines listed
  -- there. It reads other namespaces only by listing all, or without authentication for the preview. The
  -- routes of metrics, logs, connections, the catalog and OIDC, and the static files, are no part of this.
  pub resource_routes-Guarded :
      Keeps (whoami_route deps body)
      × Keeps (namespaces_route deps body)
      × All Keeps (pipeline_routes deps body)
      × All Keeps (cluster_routes deps body)
      × All Keeps (project_routes deps body)
      × All Keeps (spec_routes deps body)
  unfolding pipeline_routes cluster_routes project_routes spec_routes handle_list_namespaces
  resource_routes-Guarded = (
    auth_or_anonymous-Goes deps body head (handle_whoami deps.server)
        (λ ctx reads. handle_whoami-Goes ctx reads),
    auth_or_anonymous-Goes deps body head (handle_list_namespaces deps.server)
        (λ ctx reads. namespaces-Goes ctx),
    anywhere pipelines
        ▸ readable-Goes _
            (λ ctx reads scope. list_namespaced-Goes deps body head ctx reads scope pipelines)
        ▸ readable-Goes _ (λ ctx reads scope. get_one-Goes deps body head ctx reads scope pipelines)
        ▸ writable-Goes _ (λ ctx writes scope. handle_create-Goes deps body head ctx writes scope)
        ▸ writable-Goes _ (λ ctx writes scope. handle_update-Goes deps body head ctx writes scope)
        ▸ writable-Goes _
            (λ ctx writes scope. delete_one-Goes deps body head ctx writes scope pipelines)
        ▸ writable-Goes _
            (λ ctx writes scope. set_stopped-Goes deps body head ctx writes scope true)
        ▸ writable-Goes _
            (λ ctx writes scope. set_stopped-Goes deps body head ctx writes scope false)
        ▸ tt,
    anywhere clusters
        ▸ readable-Goes _
            (λ ctx reads scope. list_namespaced-Goes deps body head ctx reads scope clusters)
        ▸ readable-Goes _ (λ ctx reads scope. get_one-Goes deps body head ctx reads scope clusters)
        ▸ writable-Goes _
            (λ ctx writes scope. handle_create_cluster-Goes deps body head ctx writes scope)
        ▸ writable-Goes _
            (λ ctx writes scope. handle_update_cluster-Goes deps body head ctx writes scope)
        ▸ writable-Goes _
            (λ ctx writes scope. delete_one-Goes deps body head ctx writes scope clusters)
        ▸ readable-Goes _ (λ ctx reads scope. handle_cluster_instances-Goes ctx reads scope)
        ▸ tt,
    anywhere projects
        ▸ readable-Goes _
            (λ ctx reads scope. list_namespaced-Goes deps body head ctx reads scope projects)
        ▸ readable-Goes _ (λ ctx reads scope. get_one-Goes deps body head ctx reads scope projects)
        ▸ writable-Goes _
            (λ ctx writes scope. handle_create_project-Goes deps body head ctx writes scope)
        ▸ writable-Goes _
            (λ ctx writes scope. handle_update_project-Goes deps body head ctx writes scope)
        ▸ writable-Goes _
            (λ ctx writes scope. delete_one-Goes deps body head ctx writes scope projects)
        ▸ tt,
    handle_validate-Goes ▸ handle_render-Goes ▸ tt,
  )
    where
      namespaces-Goes :
          (ctx : Context) → Goes deps body head [] (handle_list_namespaces deps.server head ctx)
      namespaces-Goes ctx = tt

      anywhere :
          (k : Kind)
          → Goes deps body head []
              (readable_anywhere deps body (list_all deps.server k) head background)
      anywhere k =
          auth_or_anonymous-Goes deps body head (list_all deps.server k)
            (λ ctx reads. list_all-Goes deps body head ctx reads k)
