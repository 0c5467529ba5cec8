-- ===== src/Web/Oidc/Tests.antt =====
-- The theorems on logins, at a provider whose codes and ID tokens hold the nonce.
use Prim.Native.String.{◌++◌}
use rpc_operator.Prelude.{String, List, ◌≡◌, ◌≢◌, refl, ap, none, some, true, false, [], arith}
use rpc_operator.Prelude.Decimal.{itoa}
use rpc_operator.Prelude.Texts.{strip_prefix, strip_prefix-append}
use rpc_operator.Fallible.{Fallible, ok, err}
use rpc_operator.Effects.{Every}
use rpc_operator.Web.Oidc.{
  OidcConfig, Tokens, Claims, OidcRequest, init, failed, redirect, token, unchanged, set,
  handle_callback, handle_refresh, handle_login, handle_logout, no_content, cleared,
  ui_redirect_target,
}
use rpc_operator.Web.Oidc.World.{World, Outside, handle, IsHonest}
use rpc_operator.Web.Oidc.Promises.{SignsIn, SignedIn, KeepsFresh, Refreshed}
use rpc_operator.Web.Oidc.Callback.{handle_callback-SignsIn}
use rpc_operator.Web.Oidc.Refresh.{handle_refresh-KeepsFresh}
use rpc_operator.Web.Oidc.Journey.{
  after_login, after_callback, after_refresh, sign_in-Succeeds, sign_in-Expires,
}

abbrev cfg : OidcConfig
cfg = record {
  issuer = "https://idp";
  client_id = "rpc";
  scopes = [];
  redirect_url = "https://ui/api/v1/auth/callback";
  ui_redirect_url = "";
}

abbrev authorize : String → String → String
authorize challenge nonce = "c" ++ nonce

abbrev tokens_for : String → String → Tokens
tokens_for verifier nonce = record { refresh_token = "r"; id_token = "c" ++ nonce }

abbrev renewed : String → Tokens
renewed refresh = record { refresh_token = "r2"; id_token = "fresh" }

-- the nonce in an ID token
abbrev nonce_in : String → Fallible Claims
nonce_in raw = elim (strip_prefix "c" raw) [
  | none ↦ ok (err "no nonce")
  | some nonce ↦ ok (ok nonce)
]

abbrev out : Outside
out = record {
  draw = λ n bytes. itoa n;
  discover = ok tt;
  exchange_for = λ code verifier. ok (record { refresh_token = "r"; id_token = code });
  renew_for = λ refresh. ok (renewed refresh);
  verify_token = nonce_in;
}

abbrev s256 : String → String
s256 verifier = verifier

abbrev auth_code_url : String → List (String × String) → String
auth_code_url state params = "https://idp/auth?state=" ++ state

with_c : (nonce : String) → ("c" ++ nonce) ≢ ""
unfolding strip_prefix
with_c nonce e = cc (ap (strip_prefix "c") e, strip_prefix-append "c" nonce)

nonce_in_lem : (nonce : String) → nonce_in ("c" ++ nonce) ≡ ok (ok nonce)
nonce_in_lem nonce = ground (arith, strip_prefix-append "c" nonce)

out-IsHonest : IsHonest s256 authorize tokens_for renewed out
unfolding strip_prefix
out-IsHonest = record {
  issues = λ challenge nonce. with_c nonce;
  exchanges = λ verifier nonce. refl;
  sends = λ verifier nonce. with_c nonce;
  signs = λ verifier nonce. nonce_in_lem nonce;
  refreshable = λ verifier nonce e. cc;
  renews = λ refresh given. refl;
  resends = λ refresh given e. cc;
  resigns = λ refresh given. (err "no nonce", refl);
}

abbrev booted : World
booted = record {
  runtime = none;
  sessions = [];
  cells = λ c. "";
  next_cell = 0;
  drawn = 7;
  now = 1000;
}

booted-ready : (init out.discover booted.runtime).1 ≡ ok tt
unfolding init
booted-ready = refl

abbrev landing : OidcRequest
landing = record { cookie = ok "7"; state = "8"; code = "c10" }

-- The redirect of a login, and that a logout leaves no session for the callback.
login_location :
    (handle 600 out (handle_login s256 auth_code_url (some cfg)) booted).1
    ≡ redirect "https://idp/auth?state=8" (set "7") false
unfolding handle_login init itoa
login_location = refl

logged_out : (handle 600 out (handle_logout (some cfg) landing) booted).1 ≡ no_content cleared
unfolding handle_logout
logged_out = refl

handle_callback-SignsIn_example :
    Every (SignsIn landing) (SignedIn (some cfg) landing) [] (handle_callback (some cfg) landing)
handle_callback-SignsIn_example = handle_callback-SignsIn (some cfg) landing

handle_refresh-KeepsFresh_example :
    Every (KeepsFresh landing) (Refreshed landing) [] (handle_refresh (some cfg) landing)
handle_refresh-KeepsFresh_example = handle_refresh-KeepsFresh (some cfg) landing

sign_in-Succeeds_example :
    ((after_login 600 out cfg s256 auth_code_url authorize tokens_for renewed booted).1
      ≡ redirect "https://idp/auth?state=8" (set "7") false)
    × ((after_callback 600 out cfg s256 auth_code_url authorize tokens_for renewed 30 booted).1
        ≡ redirect "/#id_token=c10" (set "7") true)
    × ((after_refresh 600 out cfg s256 auth_code_url authorize tokens_for renewed 30 500 booted).1
        ≡ token "fresh")
unfolding itoa ui_redirect_target
sign_in-Succeeds_example =
    sign_in-Succeeds 600 out cfg s256 auth_code_url authorize tokens_for renewed out-IsHonest booted
      booted-ready 30 (omega arith) 500 (omega arith)

sign_in-Expires_example :
    ((after_callback 600 out cfg s256 auth_code_url authorize tokens_for renewed 30 booted).1
      ≡ redirect "/#id_token=c10" (set "7") true)
    × ((after_refresh 600 out cfg s256 auth_code_url authorize tokens_for renewed 30 571 booted).1
        ≡ failed 401 "session_expired" "session not found or has no refresh token" unchanged)
unfolding itoa ui_redirect_target
sign_in-Expires_example =
    sign_in-Expires 600 out cfg s256 auth_code_url authorize tokens_for renewed out-IsHonest booted
      booted-ready 30 (omega arith) 571 (omega arith)
