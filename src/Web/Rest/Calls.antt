-- ===== src/Web/Rest/Calls.antt =====
-- What the handlers ask for, and the clients that they ask by (clientForRequest of internal/api/auth.go,
-- and internal/api/errors.go).
use rpc_operator.Prelude.{ℕ, String, Bool, not, ◌||◌, Option, none, some, List, ◌==◌, if◌then◌else◌}
use rpc_operator.Effects.{Prog, ret, ask, ◌>>=◌}
use rpc_operator.Fallible.{Fallible}
use rpc_operator.Api.Cluster.{Cluster}
use rpc_operator.Controller.Calls.{
  Pipeline, Answer, Error, not_found, already_exists, conflict, on_answer,
}
use rpc_operator.Project.Types.{Project}
use rpc_operator.Scheduler.{Pod}
use rpc_operator.Web.Distribution.{ClusterDistribution}
use rpc_operator.Web.Access.{Server, Context, Problem, problem}
use rpc_operator.Web.Validate.{ValidationError}

-- The client of the operator's own account, or one with a user's token.
pub data Client : Type 0 where
  operator : Client
  user : String → Client

pub data Kind : Type 0 where
  pipelines clusters projects : Kind

abbrev pub Object : Kind → Type 0
Object pipelines = Pipeline
Object clusters = Cluster
Object projects = Project

-- the user in a SelfSubjectReview
pub record UserInfo : Type 0 where
  pub name : String
  pub uid : String
  pub groups : List String

-- `connect` is `client.New` and `connect_clientset` is `kubernetes.NewForConfig`, with a token; `list`
-- has a namespace, or none for all; `list_pods` lists those with the label of a cluster.
pub data RestCall : Type 0 where
  connect connect_clientset : String → RestCall
  list : Client → Kind → Option String → RestCall
  get : Client → Kind → String → String → RestCall
  create update delete : Client → (k : Kind) → Object k → RestCall
  patch_stopped : Client → Pipeline → Bool → RestCall
  review : Client → RestCall
  list_pods : Client → String → String → RestCall

-- A connection replies with its error, if there is one.
abbrev pub RestReply : RestCall → Type 0
RestReply (connect _) = Option String
RestReply (connect_clientset _) = Option String
RestReply (list _ k _) = Answer (List (Object k))
RestReply (get _ k _ _) = Answer (Object k)
RestReply (create _ k _) = Answer (Object k)
RestReply (update _ k _) = Answer (Object k)
RestReply (delete _ _ _) = Answer (Unit {0})
RestReply (patch_stopped _ _ _) = Answer Pipeline
RestReply (review _) = Answer UserInfo
RestReply (list_pods _ _ _) = Answer (List Pod)

abbrev pub RestAct : Type 0 → Type 0
RestAct A = Prog RestCall RestReply A

-- The body of a response: an error, the errors of a validation, the objects of a list, an object with
-- the status of the response, the name of a deleted object, the result of a validation, a text in YAML,
-- the operator's namespaces, the view of a cluster, and the user with whether they are anonymous, may
-- only read, see logs without a token and can log in by OIDC.
pub data RestResponse : Type 0 where
  fails : Problem → RestResponse
  invalid : List ValidationError → RestResponse
  listed : (k : Kind) → List (Object k) → RestResponse
  object : ℕ → (k : Kind) → Object k → RestResponse
  deleted : String → RestResponse
  validated : Bool → List ValidationError → RestResponse
  yaml : String → RestResponse
  namespaces : List String → RestResponse
  distribution : ClusterDistribution → RestResponse
  whoami : UserInfo → Bool → Bool → Bool → Bool → RestResponse

abbrev pub reject : Problem → RestAct RestResponse
reject p = ret (fails p)

-- writeK8sError
unfoldable pub k8s_problem : Error → Problem
k8s_problem e = elim e.kind [
  | not_found ↦ problem 404 "not found" e.text
  | already_exists ↦ problem 409 "already exists" e.text
  | conflict ↦ problem 409 "conflict" e.text
  | _ ↦ problem 500 "internal error" e.text
]

-- `if err != nil { writeK8sError(w, err); return }`
abbrev pub answered : {A : Type 0} → Answer A → (A → RestAct RestResponse) → RestAct RestResponse
answered r k = on_answer r k (λ e. reject (k8s_problem e))

-- after `client.New`
abbrev pub connected : String → Option String → Fallible Client
connected token none = Fallible.ok (user token)
connected token (some e) = Fallible.err e

-- clientForRequest
unfoldable pub client_for_request : Server → Context → RestAct (Fallible Client)
client_for_request server ctx =
    if not server.auth_enabled || ctx.anonymous
    then ret (Fallible.ok operator)
    else if ctx.token == ""
    then ret (Fallible.err "no token in context (authMiddleware did not run?)")
    else if not server.has_rest_config || not server.has_scheme
    then ret (Fallible.err "server missing RestConfig/Scheme; cannot build per-request client")
    else ask (connect ctx.token) (λ r. ret (connected ctx.token r))

-- after `kubernetes.NewForConfig`
abbrev pub connected_clientset : String → Option String → Fallible (Option Client)
connected_clientset token none = Fallible.ok (some (user token))
connected_clientset token (some e) = Fallible.err e

-- clientsetForRequest, where no clientset is the nil one
unfoldable pub clientset_for_request : Server → Context → RestAct (Fallible (Option Client))
clientset_for_request server ctx =
    if not server.auth_enabled || ctx.anonymous
    then ret (Fallible.ok (if server.has_clientset then some operator else none))
    else if ctx.token == ""
    then ret (Fallible.err "no token in context (authMiddleware did not run?)")
    else if not server.has_rest_config
    then ret (Fallible.err "server missing RestConfig; cannot build per-request clientset")
    else ask (connect_clientset ctx.token) (λ r. ret (connected_clientset ctx.token r))

-- what follows a client, or its error
abbrev pub on_client : (Client → RestAct RestResponse) → Fallible Client → RestAct RestResponse
on_client k (Fallible.ok c) = k c
on_client k (Fallible.err e) = reject (problem 500 "internal error" e)

-- the lines of a handler around clientForRequest
abbrev pub with_client : Server → Context → (Client → RestAct RestResponse) → RestAct RestResponse
with_client server ctx k = client_for_request server ctx >>= on_client k
