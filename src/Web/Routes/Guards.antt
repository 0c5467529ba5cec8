-- ===== src/Web/Routes/Guards.antt =====
-- The gates and the clients (internal/api/auth.go).
use rpc_operator.Prelude.{
  String, ◌≡◌, ◌≢◌, refl, inl, inr, Bool, true, false, not, ◌||◌, Option, none, some, [], ◌∷◌, any,
  is_empty, ◌==◌, eq_iff, arith, Text-cases, if◌then◌else◌,
}
use rpc_operator.Effects.{ret, ask, Every}
use rpc_operator.Effects.Rules.{Every-bind, Every-if}
use rpc_operator.Fallible.{Fallible}
use rpc_operator.Web.Access.{
  Head, Context, background, with_token, marked_anonymous, token_from_request, unauthorized,
  auth_middleware, auth_if_enabled, auth_or_anonymous, allowlist,
}
use rpc_operator.Web.Rest.Calls.{
  Client, operator, user, connect, RestAct, RestResponse, reject, client_for_request, connected,
  on_client, with_client,
}
use rpc_operator.Web.Rest.Shared.{RestDeps, Body}
use rpc_operator.Web.Routes.Promises.{
  RestHistory, event, MayWrite, MayRead, IsInScope, Guarded, Responds,
}

module _ (deps : RestDeps) (body : Body) (head : Head) where
  abbrev pub Goes : RestHistory → RestAct RestResponse → Type 0
  Goes h m = Every (Guarded deps body head) (Responds deps body head) h m

  -- the clients that a request gets in this context
  pub record Serves (May : Client → Type 0) (ctx : Context) : Type 0 where
    pub as_operator : (not deps.server.auth_enabled || ctx.anonymous) ≡ true → May operator
    pub as_user :
        (not deps.server.auth_enabled || ctx.anonymous) ≡ false
        → ctx.token ≢ ""
        → (ctx.token ≡ token_from_request head) × May (user ctx.token)

  -- what is known of the result of clientForRequest
  abbrev pub Gets : (Client → Type 0) → RestHistory → Fallible Client → Type 0
  Gets May h (Fallible.ok c) = May c
  Gets May h (Fallible.err e) = Unit

  pub auth_of :
      (anonymous : Bool)
      → (not deps.server.auth_enabled || anonymous) ≡ false
      → deps.server.auth_enabled ≡ true
  auth_of anonymous e = ground arith

  pub client_for_request-Gets :
      (May : Client → Type 0) (ctx : Context)
      → Serves May ctx
      → (h : RestHistory)
      → Every (Guarded deps body head) (Gets May) h (client_for_request deps.server ctx)
  unfolding client_for_request
  client_for_request-Gets May ctx serves h =
      Every-if (Guarded deps body head) (Gets May) h (not deps.server.auth_enabled || ctx.anonymous)
        _ _ (λ free. serves.as_operator free)
        (λ bound.
          Every-if (Guarded deps body head) (Gets May) h (ctx.token == "") _ _ (λ _. tt)
            (λ given.
              Every-if (Guarded deps body head) (Gets May) h
                (not deps.server.has_rest_config || not deps.server.has_scheme) _ _ (λ _. tt)
                (λ _. connects bound (λ e. cc ((eq_iff ctx.token "").1 e, given)))))
    where
      connects :
          (not deps.server.auth_enabled || ctx.anonymous) ≡ false
          → ctx.token ≢ ""
          → Every
              (Guarded deps body head)
              (Gets May)
              h
              (ask (connect ctx.token) (λ r. ret (connected ctx.token r)))
      connects bound given =
          ((auth_of ctx.anonymous bound, (serves.as_user bound given).0, given), by_reply)
        where
          by_reply :
              (r : Option String)
              → Gets May (event (connect ctx.token) r ∷ h) (connected ctx.token r)
          by_reply none = (serves.as_user bound given).1
          by_reply (some e) = tt

  pub with_client-Goes :
      (May : Client → Type 0) (ctx : Context) (k : Client → RestAct RestResponse) (h : RestHistory)
      → Serves May ctx
      → ((c : Client) (h' : RestHistory) → May c → Goes h' (k c))
      → Goes h (with_client deps.server ctx k)
  with_client-Goes May ctx k h serves next =
      Every-bind (Guarded deps body head) (Gets May) (Responds deps body head) (on_client k) h
        (client_for_request deps.server ctx) (client_for_request-Gets May ctx serves h) by_client
    where
      by_client : (h' : RestHistory) (r : Fallible Client) → Gets May h' r → Goes h' (on_client k r)
      by_client h' (Fallible.ok c) may = next c h' may
      by_client h' (Fallible.err e) may = tt

  -- the three contexts in which the gates call a handler
  Serves-open :
      (May : Client → Type 0)
      → May operator
      → deps.server.auth_enabled ≡ false
      → Serves May background
  Serves-open May may off = record {
    as_operator = λ _. may;
    as_user = λ bound given. absurd (given refl);
  }

  Serves-token :
      (May : Client → Type 0)
      → deps.server.auth_enabled ≡ true
      → May (user (token_from_request head))
      → Serves May (with_token (token_from_request head) background)
  Serves-token May on may = record {
    as_operator = λ free. cc (rw (on, ◌||◌, not) at free);
    as_user = λ bound given. (refl, may);
  }

  Serves-anonymous :
      (May : Client → Type 0) → May operator → Serves May (marked_anonymous background)
  Serves-anonymous May may = record {
    as_operator = λ _. may;
    as_user = λ bound given. absurd (given refl);
  }

  may_as_user :
      deps.server.auth_enabled ≡ true
      → (token_from_request head == "") ≡ false
      → MayWrite deps body head (user (token_from_request head))
  may_as_user on given =
      inr (on, (λ e. cc ((eq_iff (token_from_request head) "").1 e, given)), refl)

  pub auth_if_enabled-Goes :
      (next : Head → Context → RestAct RestResponse)
      → ((ctx : Context) → Serves (MayWrite deps body head) ctx → Goes [] (next head ctx))
      → Goes [] (auth_if_enabled reject deps.server next head background)
  unfolding auth_if_enabled auth_middleware
  auth_if_enabled-Goes next go =
      Every-if (Guarded deps body head) (Responds deps body head) [] deps.server.auth_enabled _ _
        (λ on.
          Every-if (Guarded deps body head) (Responds deps body head) []
            (token_from_request head == "") _ _ (λ _. tt)
            (λ given.
              go (with_token (token_from_request head) background)
                (Serves-token (MayWrite deps body head) on (may_as_user on given))))
        (λ off. go background (Serves-open (MayWrite deps body head) (inl (off, refl)) off))

  pub auth_or_anonymous-Goes :
      (next : Head → Context → RestAct RestResponse)
      → ((ctx : Context) → Serves (MayRead deps body head) ctx → Goes [] (next head ctx))
      → Goes [] (auth_or_anonymous reject deps.server next head background)
  unfolding auth_or_anonymous
  auth_or_anonymous-Goes next go =
      Every-if (Guarded deps body head) (Responds deps body head) [] deps.server.auth_enabled _ _
        with_auth
        (λ off. go background (Serves-open (MayRead deps body head) (inl (inl (off, refl))) off))
    where
      with_auth :
          deps.server.auth_enabled ≡ true
          → Goes [] (
              if not (token_from_request head == "")
              then next head (with_token (token_from_request head) background)
              else if deps.server.anonymous_read
              then next head (marked_anonymous background)
              else reject unauthorized)
      with_auth on = elim (Text-cases (token_from_request head) "") [
        | inl e ↦ rw ((eq_iff (token_from_request head) "").1 e) (
            Every-if (Guarded deps body head) (Responds deps body head) []
              deps.server.anonymous_read _ _
              (λ anonymous.
                go (marked_anonymous background)
                  (Serves-anonymous (MayRead deps body head) (inr (on, anonymous, e, refl))))
              (λ _. tt))
        | inr given ↦ rw given (
            go (with_token (token_from_request head) background)
              (Serves-token (MayRead deps body head) on (inl (may_as_user on given))))
      ]

  pub allowlist-Goes :
      (next : Head → Context → RestAct RestResponse) (ctx : Context) (h : RestHistory)
      → (IsInScope deps body head → Goes h (next head ctx))
      → Goes h (allowlist reject deps.server next head ctx)
  unfolding allowlist
  allowlist-Goes next ctx h go =
      Every-if (Guarded deps body head) (Responds deps body head) h
        (is_empty deps.server.watch_namespaces) _ _ (λ all. go (inl all))
        (λ some_only.
          Every-if (Guarded deps body head) (Responds deps body head) h
            (head.namespace == ""
              || not (any (λ n. n == head.namespace) deps.server.watch_namespaces))
            _ _ (λ _. tt)
            (λ within. go (
              inr (
                (λ e. ground (arith, eq_iff head.namespace "", within, e)),
                ground (arith, within),
              ))))
