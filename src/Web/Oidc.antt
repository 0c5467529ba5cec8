-- ===== src/Web/Oidc.antt =====
-- The OIDC login (internal/api/oidc.go): its handlers as programs over the session store, the memory
-- of the sessions, the random source and the identity provider.
pub mod Promises
pub mod Callback
pub mod Refresh
pub mod World
pub mod Signing
pub mod Journey
mod Tests
use Prim.Native.String.{◌++◌}
use rpc_operator.Prelude.{
  ℕ, String, Bool, true, false, Option, none, some, List, [], ◌∷◌, ◌==◌, if◌then◌else◌, ◌&&◌, not,
}
use rpc_operator.Effects.{Prog, ret, ask, ◌>>=◌}
use rpc_operator.Fallible.{Fallible, ok, err, wrap}
use rpc_operator.Web.Sessions.{Session}

-- OIDCConfig
pub record OidcConfig : Type 0 where
  pub issuer : String
  pub client_id : String
  pub scopes : List String
  pub redirect_url : String
  pub ui_redirect_url : String

-- The outcome of the one discovery of an oidcRuntime, none before it.
abbrev pub Runtime : Type 0
Runtime = Option (Fallible (Unit {0}))

-- `init`, with what a discovery would give now
unfoldable pub init : Fallible (Unit {0}) → Runtime → Runtime × Fallible (Unit {0})
init now none = let first = wrap (λ e. "oidc discovery: " ++ e) now in (some first, first)
init now (some first) = (some first, first)

-- `*oauth2.Token`, whose id_token is empty where the extra is no text
pub record Tokens : Type 0 where
  pub refresh_token : String
  pub id_token : String

-- What `Claims` reads from a verified ID token: its nonce.
abbrev pub Claims : Type 0
Claims = Fallible String

pub data OidcCall : Type 0 where
  init_runtime : OidcCall
  random : ℕ → OidcCall
  make_session : String → String → String → OidcCall
  get_session delete_session : String → OidcCall
  put_session : String → Session → OidcCall
  lock unlock read_refresh : ℕ → OidcCall
  write_refresh : ℕ → String → OidcCall
  exchange : String → String → OidcCall
  renew verify : String → OidcCall

-- `make_session` sets the time of its creation.
abbrev pub OidcReply : OidcCall → Type 0
OidcReply init_runtime = Fallible (Unit {0})
OidcReply (random _) = String
OidcReply (make_session _ _ _) = Session
OidcReply (get_session _) = Option Session
OidcReply (read_refresh _) = String
OidcReply (exchange _ _) = Fallible Tokens
OidcReply (renew _) = Fallible Tokens
OidcReply (verify _) = Fallible Claims
OidcReply _ = Unit {0}

abbrev pub OidcAct : Type 0 → Type 0
OidcAct A = Prog OidcCall OidcReply A

-- What is read of a request: the cookie rpc-oidc-state and two parameters of the query.
pub record OidcRequest : Type 0 where
  pub cookie : Fallible String
  pub state : String
  pub code : String

-- What a response does with the session cookie: nothing, setSessionCookie or clearSessionCookie.
pub data CookieChange : Type 0 where
  unchanged cleared : CookieChange
  set : String → CookieChange

-- An error with its status, code and text; a redirect, and whether no cache may keep it; the JSON with
-- an ID token; and 204.
pub data Response : Type 0 where
  failed : ℕ → String → String → CookieChange → Response
  redirect : String → CookieChange → Bool → Response
  token : String → Response
  no_content : CookieChange → Response

abbrev pub refuse : ℕ → String → String → OidcAct Response
refuse status code message = ret (failed status code message unchanged)

-- the session is deleted first
abbrev pub drop_session : String → ℕ → String → String → OidcAct Response
drop_session id status code message = ask (delete_session id) (λ _. refuse status code message)

-- after `init`
abbrev pub initialized : Fallible (Unit {0}) → OidcAct Response → OidcAct Response
initialized (err e) m = refuse 503 "oidc_init_failed" e
initialized (ok _) m = m

-- the first lines of a handler
abbrev pub with_oidc : Option OidcConfig → (OidcConfig → OidcAct Response) → OidcAct Response
with_oidc none k = refuse 404 "oidc_disabled" "OIDC is not configured"
with_oidc (some cfg) k = ask init_runtime (λ r. initialized r (k cfg))

-- uiRedirectTarget
unfoldable pub ui_redirect_target : OidcConfig → String
ui_redirect_target cfg = if cfg.ui_redirect_url == "" then "/" else cfg.ui_redirect_url

-- `s256Challenge` is a hash, and `auth_code_url` is `AuthCodeURL` of the discovered provider.
module _ (s256_challenge : String → String)
    (auth_code_url : String → List (String × String) → String) where
  abbrev pub auth_url : String → String → String → String
  auth_url state verifier nonce = auth_code_url state (
      ("code_challenge", s256_challenge verifier)
      ∷ ("code_challenge_method", "S256")
      ∷ ("nonce", nonce)
      ∷ [])

  -- handleOIDCLogin
  unfoldable pub handle_login : Option OidcConfig → OidcAct Response
  handle_login oidc = with_oidc oidc (λ _. ask (random 32) (λ id. ask (random 32) (λ state.
      ask (random 64) (λ verifier. ask (random 16) (λ nonce.
        ask (make_session state verifier nonce) (λ sess.
          ask (put_session id sess)
            (λ _. ret (redirect (auth_url state verifier nonce) (set id) false))))))))

-- the end of a login that is verified
unfoldable pub finish_callback : OidcConfig → String → Tokens → Session → OidcAct Response
unfolding ui_redirect_target
finish_callback cfg id tok sess = ask (write_refresh sess.cell tok.refresh_token) (λ _.
    ask (put_session id sess)
      (λ _. ret (redirect (ui_redirect_target cfg ++ "#id_token=" ++ tok.id_token) (set id) true)))

unfoldable pub check_nonce : OidcConfig → String → Tokens → Session → Claims → OidcAct Response
check_nonce cfg id tok sess (err e) = refuse 401 "id_token_claims_unreadable" e
check_nonce cfg id tok sess (ok nonce) =
    if nonce == sess.nonce
    then finish_callback cfg id tok sess
    else drop_session id 401 "nonce_mismatch" "id_token nonce does not match login request"

unfoldable pub verify_login : OidcConfig → String → Session → Tokens → OidcAct Response
verify_login cfg id sess tok =
    if tok.id_token == ""
    then refuse 502 "no_id_token"
        "IdP response is missing id_token; verify scope=openid is requested"
    else ask (verify tok.id_token) (λ r. elim r [
      | err e ↦ refuse 401 "id_token_invalid" e
      | ok claims ↦ check_nonce cfg id tok sess claims
    ])

unfoldable pub exchange_code : OidcConfig → String → String → Session → OidcAct Response
exchange_code cfg id code sess = ask (exchange code sess.code_verifier) (λ r. elim r [
  | err e ↦ drop_session id 502 "token_exchange_failed" e
  | ok tok ↦ verify_login cfg id sess tok
])

unfoldable pub callback_of : OidcConfig → OidcRequest → String → Session → OidcAct Response
callback_of cfg req id sess =
    if req.state == sess.state
    then (if req.code == ""
        then refuse 400 "missing_code" "no auth code in callback"
        else exchange_code cfg id req.code sess)
    else drop_session id 400 "state_mismatch" "state parameter does not match"

-- after `get`
abbrev pub callback_found : OidcConfig → OidcRequest → String → Option Session → OidcAct Response
callback_found cfg req id none = refuse 400 "session_not_found" "state cookie expired or unknown"
callback_found cfg req id (some sess) = callback_of cfg req id sess

-- after the cookie is read
abbrev pub callback_cookie : OidcConfig → OidcRequest → Fallible String → OidcAct Response
callback_cookie cfg req (err e) = refuse 400 "missing_state_cookie" e
callback_cookie cfg req (ok id) = ask (get_session id) (callback_found cfg req id)

-- handleOIDCCallback
unfoldable pub handle_callback : Option OidcConfig → OidcRequest → OidcAct Response
handle_callback oidc req = with_oidc oidc (λ cfg. callback_cookie cfg req req.cookie)

-- the replacement of a refresh token that the provider rotates, and the reply
unfoldable pub finish_refresh : String → Session → String → Tokens → OidcAct Response
finish_refresh id sess old tok =
    if not (tok.refresh_token == "") && not (tok.refresh_token == old)
    then ask (write_refresh sess.cell tok.refresh_token)
        (λ _. ask (put_session id sess) (λ _. ret (token tok.id_token)))
    else ret (token tok.id_token)

unfoldable pub verify_refresh : String → Session → String → Tokens → OidcAct Response
verify_refresh id sess old tok =
    if tok.id_token == ""
    then refuse 502 "no_id_token" "refresh response is missing id_token"
    else ask (verify tok.id_token) (λ r. elim r [
      | err e ↦ refuse 401 "id_token_invalid" e
      | ok _ ↦ finish_refresh id sess old tok
    ])

unfoldable pub refresh_of : String → Session → OidcAct Response
refresh_of id sess = ask (read_refresh sess.cell) (λ old. ask (renew old) (λ r. elim r [
  | err e ↦ ask (delete_session id) (λ _. ret (failed 401 "refresh_failed" e cleared))
  | ok tok ↦ verify_refresh id sess old tok
]))

-- `sess.mu.Lock(); defer sess.mu.Unlock()`
abbrev pub locked : ℕ → OidcAct Response → OidcAct Response
locked cell m = ask (lock cell) (λ _. m >>= λ r. ask (unlock cell) (λ _. ret r))

abbrev pub no_refresh : OidcAct Response
no_refresh = refuse 401 "session_expired" "session not found or has no refresh token"

-- after `get`
abbrev pub refresh_found : String → Option Session → OidcAct Response
refresh_found id none = no_refresh
refresh_found id (some sess) =
    ask (read_refresh sess.cell)
      (λ old. if old == "" then no_refresh else locked sess.cell (refresh_of id sess))

-- after the cookie is read
abbrev pub refresh_cookie : Fallible String → OidcAct Response
refresh_cookie (err e) = refuse 401 "no_session" "no oidc session cookie"
refresh_cookie (ok id) = ask (get_session id) (refresh_found id)

-- handleOIDCRefresh
unfoldable pub handle_refresh : Option OidcConfig → OidcRequest → OidcAct Response
handle_refresh oidc req = with_oidc oidc (λ _. refresh_cookie req.cookie)

-- handleOIDCLogout
unfoldable pub handle_logout : Option OidcConfig → OidcRequest → OidcAct Response
handle_logout none req = ret (no_content unchanged)
handle_logout (some cfg) req = elim req.cookie [
  | err e ↦ ret (no_content cleared)
  | ok id ↦ ask (delete_session id) (λ _. ret (no_content cleared))
]
