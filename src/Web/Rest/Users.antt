-- ===== src/Web/Rest/Users.antt =====
-- The user and the namespaces of a request (handleWhoami of internal/api/auth.go, and
-- internal/api/handlers_namespaces.go).
use Prim.Native.String.{◌++◌}
use rpc_operator.Prelude.{true, false, not, Option, none, some, [], if◌then◌else◌}
use rpc_operator.Effects.{ret, ask, ◌>>=◌}
use rpc_operator.Fallible.{Fallible}
use rpc_operator.Controller.Calls
use rpc_operator.Controller.Calls.{Pipeline, Answer, on_answer}
use rpc_operator.Controller.Status.{is_some}
use rpc_operator.Web.Access.{Server, Head, Context, problem}
use rpc_operator.Web.Rest.Calls.{
  Client, UserInfo, review, RestAct, RestResponse, namespaces, whoami, reject,
  clientset_for_request,
}

module _ (server : Server) where
  -- handleListNamespaces
  unfoldable pub handle_list_namespaces : Head → Context → RestAct RestResponse
  handle_list_namespaces head ctx = ret (namespaces server.watch_namespaces)

  abbrev pub nobody : UserInfo
  nobody = record { name = "system:anonymous"; uid = ""; groups = [] }

  -- after the review
  abbrev pub reviewed_user : Answer UserInfo → RestAct RestResponse
  reviewed_user (Calls.ok info) =
      ret (whoami info false false server.anonymous_logs (is_some server.oidc))
  reviewed_user (Calls.err e) =
      reject (problem 401 "unauthorized" ("token rejected by apiserver: " ++ e.text))

  -- after clientsetForRequest, which with authentication never gives a nil clientset
  abbrev pub reviewed : Fallible (Option Client) → RestAct RestResponse
  reviewed (Fallible.err e) = reject (problem 500 "internal error" e)
  reviewed (Fallible.ok none) = reject (problem 500 "panic" "")
  reviewed (Fallible.ok (some c)) = ask (review c) reviewed_user

  -- handleWhoami: the user, and whether they are anonymous, may only read, see logs without a token, and
  -- can log in by OIDC
  unfoldable pub handle_whoami : Head → Context → RestAct RestResponse
  handle_whoami head ctx =
      if not server.auth_enabled
      then ret (whoami nobody true false true (is_some server.oidc))
      else if ctx.anonymous
      then ret (whoami nobody true true server.anonymous_logs (is_some server.oidc))
      else (clientset_for_request server ctx >>= reviewed)
