-- ===== src/ProjectController/Laws.antt =====
-- Which streams `reconcileRouteStreams` makes and deletes, and what its statuses report
-- (internal/controller/pipelineproject_routes.go).
use rpc_operator.Prelude.{
  String, ◌≡◌, ◌≢◌, refl, ◌⊎◌, inl, inr, Bool, true, false, not, ◌&&◌, Option, none, some, List, [],
  ◌∷◌, Memᴰ, All, any, any-Memᴰ, Memᴰ-any, ◌==◌, eq_iff, arith,
}
use rpc_operator.Effects.{ret, Event, Every}
use rpc_operator.Effects.Rules.{Every-bind, Every-if, Every-map}
use rpc_operator.Controller.Calls.{Answer, ok, err, Error, on_answer}
use rpc_operator.Project.Types.{ProjectRoute, Project}
use rpc_operator.Project.Naming.{stream_name, subject}
use rpc_operator.ProjectController.Calls.{
  NatsCall, ensure_nats_stream, delete_nats_stream, NatsReply, NatsHistory, RouteStatus,
  RouteOutcome,
}
use rpc_operator.ProjectController.Retention.{route_retention}
use rpc_operator.ProjectController.Routes.{
  status_of, is_desired, url, ensure_streams, delete_stale, stale_error, reconcile_route_streams,
}

module _ (project : Project) (olds : List RouteStatus) where
  abbrev pub ensure_of : ProjectRoute → NatsCall
  ensure_of r =
      ensure_nats_stream (url project) (stream_name project.name r.name)
        (subject project.name r.name) (route_retention project r)

  -- The stream is that of a route.
  abbrev pub IsRouteStream : String → Type 0
  IsRouteStream stream =
      (r : ProjectRoute) × Memᴰ r project.spec.routes × (stream_name project.name r.name ≡ stream)

  -- A stream is made for a route of the project only, and one is deleted only where the last statuses
  -- name it and it is that of no route.
  abbrev pub Tends : NatsHistory → NatsCall → Type 0
  Tends h (ensure_nats_stream u stream subj limits) =
      (r : ProjectRoute) × Memᴰ r project.spec.routes
      × (ensure_nats_stream u stream subj limits ≡ ensure_of r)
  Tends h (delete_nats_stream u stream) =
      (u ≡ url project)
      × ((old : RouteStatus) × Memᴰ old olds × (old.stream ≡ stream))
      × (stream ≢ "")
      × (¬ IsRouteStream stream)

  -- the status of a route says what was replied to its call: ready, or failed with the error's text
  abbrev pub Tells : Answer (Unit {0}) → RouteStatus → Type 0
  Tells (ok _) st = (st.phase ≡ "Ready") × (st.conditions ≡ [])
  Tells (err e) st =
      (st.phase ≡ "Failed")
      × (st.conditions
          ≡ record { type = "Ready"; status = "False"; reason = "StreamError"; message = e.text }
            ∷ [])

  -- the status bears the names of the route
  abbrev pub IsAbout : ProjectRoute → RouteStatus → Type 0
  IsAbout r st =
      (st.name ≡ r.name)
      × (st.subject ≡ subject project.name r.name)
      × (st.stream ≡ stream_name project.name r.name)

  status_of-Tells :
      (r : ProjectRoute) (reply : Answer (Unit {0})) → Tells reply (status_of project.name r reply)
  unfolding status_of
  status_of-Tells r (ok u) = (refl, refl)
  status_of-Tells r (err e) = (refl, refl)

  status_of-IsAbout :
      (r : ProjectRoute) (reply : Answer (Unit {0})) → IsAbout r (status_of project.name r reply)
  unfolding status_of
  status_of-IsAbout r (ok u) = (refl, refl, refl)
  status_of-IsAbout r (err e) = (refl, refl, refl)

  -- one status for each route, in their order, and each tells the reply to the route's call
  abbrev pub Reports : List ProjectRoute → List RouteStatus → NatsHistory → Type 0
  Reports [] [] h = Unit
  Reports (r ∷ rs) (st ∷ sts) h =
      ((reply : Answer (Unit {0})) × Memᴰ (record { call = ensure_of r; reply = reply }) h
        × Tells reply st
        × IsAbout r st)
      × Reports rs sts h
  Reports _ _ h = ⊥

  -- the stream of an old status is that of a route, or empty, or its deletion was confirmed
  abbrev pub IsCleared : NatsHistory → RouteStatus → Type 0
  IsCleared h old =
      IsRouteStream old.stream
      ⊎ (old.stream ≡ "")
      ⊎ Memᴰ (record { call = delete_nats_stream (url project) old.stream; reply = ok tt }) h

  abbrev pub Settles : NatsHistory → RouteOutcome → Type 0
  Settles h out =
      Reports project.spec.routes out.statuses h × (out.failure ≡ none → All (IsCleared h) olds)

  abbrev Stable : (NatsHistory → Type 0) → Type 0
  Stable K = (h : NatsHistory) (e : Event NatsCall NatsReply) → K h → K (e ∷ h)

  Reports-later : (rs : List ProjectRoute) (sts : List RouteStatus) → Stable (Reports rs sts)
  Reports-later [] [] h e k = tt
  Reports-later [] (st ∷ sts) h e k = k
  Reports-later (r ∷ rs) [] h e k = k
  Reports-later (r ∷ rs) (st ∷ sts) h e ((reply, m, told, about), k) =
      ((reply, Memᴰ.tail m, told, about), Reports-later rs sts h e k)

  ensure_streams-Reports :
      (rs : List ProjectRoute) (K : NatsHistory → Type 0) (stable : Stable K) (h : NatsHistory)
      → ((r : ProjectRoute) → Memᴰ r rs → Memᴰ r project.spec.routes)
      → K h
      → Every Tends (λ h' sts. K h' × Reports rs sts h') h (ensure_streams project rs)
  unfolding ensure_streams
  ensure_streams-Reports [] K stable h known k = (k, tt)
  ensure_streams-Reports (r ∷ rs) K stable h known k = (
    (r, known r (Memᴰ.head refl), refl),
    λ reply.
        Every-bind Tends _ (λ h' sts. K h' × Reports (r ∷ rs) sts h') _ _
          (ensure_streams project rs)
          (ensure_streams-Reports rs (Kept reply) (Kept-stable reply) (after reply ∷ h)
            (λ r' m. known r' (Memᴰ.tail m)) (stable h _ k, Memᴰ.head refl))
          (λ h' sts p.
            (p.0.0, ((reply, p.0.1, status_of-Tells r reply, status_of-IsAbout r reply), p.1))),
  )
    where
      after : Answer (Unit {0}) → Event NatsCall NatsReply
      after reply = record { call = ensure_of r; reply = reply }

      Kept : Answer (Unit {0}) → NatsHistory → Type 0
      Kept reply h' = K h' × Memᴰ (after reply) h'

      Kept-stable : (reply : Answer (Unit {0})) → Stable (Kept reply)
      Kept-stable reply h' e (k', m) = (stable h' e k', Memᴰ.tail m)

  is_desired-IsRouteStream :
      (stream : String)
      → is_desired project.name project.spec.routes stream ≡ true
      → IsRouteStream stream
  unfolding is_desired
  is_desired-IsRouteStream stream e =
      let (r, m, hit) =
        any-Memᴰ (λ r'. stream_name project.name r'.name == stream) project.spec.routes e in
      (r, m, (eq_iff (stream_name project.name r.name) stream).0 hit)

  IsRouteStream-is_desired :
      (stream : String)
      → is_desired project.name project.spec.routes stream ≡ false
      → ¬ IsRouteStream stream
  unfolding is_desired
  IsRouteStream-is_desired stream e (r, m, same) =
      let hit : any (λ r'. stream_name project.name r'.name == stream) project.spec.routes ≡ true =
        Memᴰ-any (λ r'. stream_name project.name r'.name == stream) project.spec.routes r m
          ((eq_iff (stream_name project.name r.name) stream).1 same) in
      cc (hit, e)

  -- why a stream is left alone
  kept_stream :
      (desired : Bool) (stream : String)
      → (not desired && not (stream == "")) ≡ false
      → (desired ≡ true) ⊎ (stream ≡ "")
  kept_stream desired stream e = ground (arith, eq_iff stream "")

  stale_stream :
      (desired : Bool) (stream : String)
      → (not desired && not (stream == "")) ≡ true
      → (desired ≡ false) × (stream ≢ "")
  stale_stream desired stream e = (ground arith, λ k. ground (arith, eq_iff stream ""))

  left_alone :
      (h : NatsHistory) (old : RouteStatus)
      → (is_desired project.name project.spec.routes old.stream ≡ true) ⊎ (old.stream ≡ "")
      → IsCleared h old
  left_alone h old (inl d) = inl (is_desired-IsRouteStream old.stream d)
  left_alone h old (inr e) = inr (inl e)

  abbrev Cleared : (NatsHistory → Type 0) → List RouteStatus → NatsHistory → Option Error → Type 0
  Cleared K rest h failure = K h × (failure ≡ none → All (IsCleared h) rest)

  delete_stale-Cleared :
      (rest : List RouteStatus) (K : NatsHistory → Type 0) (stable : Stable K) (h : NatsHistory)
      → ((old : RouteStatus) → Memᴰ old rest → Memᴰ old olds)
      → K h
      → Every Tends (Cleared K rest) h (delete_stale project rest)
  unfolding delete_stale
  delete_stale-Cleared [] K stable h known k = (k, λ e. tt)
  delete_stale-Cleared (old ∷ rest) K stable h known k =
      Every-if Tends (Cleared K (old ∷ rest)) h
        (not (is_desired project.name project.spec.routes old.stream) && not (old.stream == "")) _ _
        (λ e.
          let (d, n) =
            stale_stream (is_desired project.name project.spec.routes old.stream) old.stream e in
          (
            (
              refl,
              (old, known old (Memᴰ.head refl), refl),
              n,
              IsRouteStream-is_desired old.stream d,
            ),
            by_reply (λ reply k'.
                delete_stale-Cleared rest (Kept reply) (Kept-stable reply) (after reply ∷ h)
                  (λ o m. known o (Memᴰ.tail m)) k'),
          ))
        (λ e.
          Every-map Tends (Cleared K rest) (Cleared K (old ∷ rest))
            (λ h' f c. (
              c.0,
              λ ok'. (
                left_alone h' old (
                    kept_stream (is_desired project.name project.spec.routes old.stream) old.stream
                      e),
                c.1 ok',
              ),
            ))
            h (delete_stale project rest)
            (delete_stale-Cleared rest K stable h (λ o m. known o (Memᴰ.tail m)) k))
    where
      after : Answer (Unit {0}) → Event NatsCall NatsReply
      after reply = record { call = delete_nats_stream (url project) old.stream; reply = reply }

      Kept : Answer (Unit {0}) → NatsHistory → Type 0
      Kept reply h' = K h' × Memᴰ (after reply) h'

      Kept-stable : (reply : Answer (Unit {0})) → Stable (Kept reply)
      Kept-stable reply h' e (k', m) = (stable h' e k', Memᴰ.tail m)

      by_reply :
          ((reply : Answer (Unit {0}))
            → Kept reply (after reply ∷ h)
            → Every Tends (Cleared (Kept reply) rest) (after reply ∷ h) (delete_stale project rest))
          → (reply : Answer (Unit {0}))
          → Every Tends (Cleared K (old ∷ rest)) (after reply ∷ h) (
              on_answer reply
                (λ _. delete_stale project rest)
                (λ e. ret (some (stale_error project old.stream e))))
      by_reply go (ok u) =
          Every-map Tends (Cleared (Kept (ok u)) rest) (Cleared K (old ∷ rest))
            (λ h' f c. (c.0.0, λ fine. (inr (inr c.0.1), c.1 fine))) _ (delete_stale project rest)
            (go (ok u) (stable h _ k, Memᴰ.head refl))
      by_reply go (err e) = (stable h _ k, λ fine. cc fine)

  -- With a stream manager, and whatever the NATS server replies, `reconcileRouteStreams` makes streams for
  -- the routes of the project only, and deletes only streams that the last statuses name and that are
  -- those of no route. Its statuses are one for each route, in order, with the names of the route, and
  -- each is Ready where the server accepted the stream and else Failed with the error's text; and where it reports no error, every stream of the last statuses is that of a
  -- route, or is the empty name, or its deletion was confirmed.
  pub reconcile_route_streams-Settles :
      Every Tends Settles [] (reconcile_route_streams project true olds)
  unfolding reconcile_route_streams
  reconcile_route_streams-Settles =
      Every-bind Tends (λ h sts. Unit × Reports project.spec.routes sts h) Settles _ []
        (ensure_streams project project.spec.routes)
        (ensure_streams-Reports project.spec.routes (λ h. Unit) (λ h e k. tt) [] (λ r m. m) tt)
        (λ h sts p.
          Every-bind Tends (Cleared (Reports project.spec.routes sts) olds) Settles _ h
            (delete_stale project olds)
            (delete_stale-Cleared olds (Reports project.spec.routes sts)
              (Reports-later project.spec.routes sts) h (λ o m. m) p.1)
            (λ h' f c. c))
