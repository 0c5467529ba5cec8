-- ===== src/Web/Access.antt =====
-- Who may do what: the token of a request, and the gates in front of the handlers
-- (internal/api/auth.go, and allowlist of internal/api/handlers_namespaces.go).
use Prim.Native.String
use Prim.Native.String.{[], ◌∷◌}
use Prim.Native.Char.{code}
use rpc_operator.Prelude.{
  ℕ, String, Bool, true, false, not, ◌&&◌, ◌||◌, Option, none, some, List, any, is_empty, leb,
  nat_eq, ◌==◌, if◌then◌else◌,
}
use rpc_operator.Prelude.Texts.{strip_prefix}
use rpc_operator.Web.Oidc.{OidcConfig}

-- The fields of Server that its handlers decide by; `has_rest_config` and `has_scheme` say whether
-- RestConfig and Scheme are set, and `has_clientset` whether Clientset is.
pub record Server : Type 0 where
  pub watch_namespaces : List String
  pub auth_enabled : Bool
  pub anonymous_read : Bool
  pub anonymous_logs : Bool
  pub prometheus_url : String
  pub oidc : Option OidcConfig
  pub has_rest_config : Bool
  pub has_scheme : Bool
  pub has_clientset : Bool

-- What is read of a request's head: the header Authorization, the parameter `token` of the query, and
-- the namespace and the name in its path.
pub record Head : Type 0 where
  pub authorization : String
  pub token_parameter : String
  pub namespace : String
  pub name : String

-- `unicode.IsSpace`
abbrev pub is_space : ℕ → Bool
is_space c =
    (leb 9 c && leb c 13)
    || nat_eq c 32
    || nat_eq c 133
    || nat_eq c 160
    || nat_eq c 5760
    || (leb 8192 c && leb c 8202)
    || nat_eq c 8232
    || nat_eq c 8233
    || nat_eq c 8239
    || nat_eq c 8287
    || nat_eq c 12288

abbrev pub trim_left : String → String
trim_left [] = []
trim_left (c ∷ s) = let rest = trim_left s in if is_space (code c) then rest else c ∷ s

abbrev pub trim_right : String → String
trim_right [] = []
trim_right (c ∷ s) =
    let rest = trim_right s in if rest == "" && is_space (code c) then [] else c ∷ rest

-- `strings.TrimSpace`
unfoldable pub trim_space : String → String
trim_space s = trim_right (trim_left s)

-- tokenFromRequest
unfoldable pub token_from_request : Head → String
unfolding trim_space strip_prefix
token_from_request head = elim (strip_prefix "Bearer " head.authorization) [
  | some token ↦ trim_space token
  | none ↦ head.token_parameter
]

-- The values of a request's context.
pub record Context : Type 0 where
  pub token : String
  pub anonymous : Bool

abbrev pub background : Context
background = record { token = ""; anonymous = false }

-- `tokenContextKey` and `anonymousContextKey`
abbrev pub with_token : String → Context → Context
with_token t ctx = record ctx { token = t }

abbrev pub marked_anonymous : Context → Context
marked_anonymous ctx = record ctx { anonymous = true }

-- An error with its status, code and text.
pub record Problem : Type 0 where
  pub status : ℕ
  pub code : String
  pub details : String

abbrev pub problem : ℕ → String → String → Problem
problem status code details = record { status = status; code = code; details = details }

abbrev pub unauthorized : Problem
unauthorized = problem 401 "unauthorized" "missing or empty Bearer token"

-- A handler behind the gates: what it does for a request, its context included, where `reject` writes
-- an error.
module _ {A : Type 0} (reject : Problem → A) (server : Server) where
  -- authMiddleware
  unfoldable pub auth_middleware : (Head → Context → A) → Head → Context → A
  auth_middleware next head ctx =
      let token = token_from_request head in
      if token == "" then reject unauthorized else next head (with_token token ctx)

  -- authIfEnabled
  unfoldable pub auth_if_enabled : (Head → Context → A) → Head → Context → A
  unfolding auth_middleware
  auth_if_enabled next head ctx =
      if server.auth_enabled then auth_middleware next head ctx else next head ctx

  -- authOrAnonymous
  unfoldable pub auth_or_anonymous : (Head → Context → A) → Head → Context → A
  auth_or_anonymous next head ctx =
      let token = token_from_request head in
      if server.auth_enabled
      then (if not (token == "")
          then next head (with_token token ctx)
          else if server.anonymous_read
          then next head (marked_anonymous ctx)
          else reject unauthorized)
      else next head ctx

  -- allowlist
  unfoldable pub allowlist : (Head → Context → A) → Head → Context → A
  allowlist next head ctx =
      if is_empty server.watch_namespaces
      then next head ctx
      else if head.namespace == "" || not (any (λ n. n == head.namespace) server.watch_namespaces)
      then reject (
          problem 403 "namespace_not_allowed" (
            String.◌++◌ "namespace "
              (String.◌++◌ head.namespace " is outside the operator's allowlist")))
      else next head ctx
