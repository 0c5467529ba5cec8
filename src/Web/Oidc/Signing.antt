-- ===== src/Web/Oidc/Signing.antt =====
-- A sign-in from its start to a renewal (internal/api/oidc.go).
use Prim.Native.String.{◌++◌}
use rpc_operator.Prelude.{ℕ, String, List, ◌≡◌, refl, true, false, some, arith, eq_refl, ◌==◌}
use rpc_operator.Fallible.{ok}
use rpc_operator.Web.Sessions.{Session, find, get, is_expired}
use rpc_operator.Web.Oidc.{
  failed, unchanged, init, OidcConfig, Tokens, Claims, OidcRequest, redirect, token, set, auth_url,
  handle_login, handle_callback, callback_of, exchange_code, verify_login, check_nonce,
  finish_callback, handle_refresh, refresh_of, verify_refresh, finish_refresh, ui_redirect_target,
}
use rpc_operator.Web.Oidc.World.{
  World, Outside, handle, id_drawn, state_drawn, verifier_drawn, nonce_drawn, logged_in,
  called_back,
}

module _ (ttl : ℕ) (out : Outside) (cfg : OidcConfig) where
  pub get-live :
      (now : ℕ) (id : String) (sess : Session) (w : World)
      → find id w.sessions ≡ some sess
      → is_expired ttl w.now sess ≡ false
      → get ttl w.now id w.sessions ≡ (some sess, w.sessions)
  unfolding get
  get-live now id sess w found live = rw (found, get, live) refl

  module _ (req : OidcRequest) (id : String) (sess : Session) (tok : Tokens) where
    -- a callback whose checks all succeed
    pub callback-run :
        (w : World)
        → init out.discover w.runtime ≡ (some (ok tt), ok tt)
        → req.cookie ≡ ok id
        → get ttl w.now id w.sessions ≡ (some sess, w.sessions)
        → (req.state == sess.state) ≡ true
        → (req.code == "") ≡ false
        → out.exchange_for req.code sess.code_verifier ≡ ok tok
        → (tok.id_token == "") ≡ false
        → out.verify_token tok.id_token ≡ ok (ok sess.nonce)
        → handle ttl out (handle_callback (some cfg) req) w ≡ (
          called_back id sess tok w,
          redirect (ui_redirect_target cfg ++ "#id_token=" ++ tok.id_token) (set id) true,
        )
    unfolding handle_callback callback_of exchange_code verify_login check_nonce finish_callback
    callback-run w ready cookie got state code exchanged sent verified =
        ground (arith, eq_refl sess.nonce)

    -- a refresh of a token that the provider renews
    pub refresh-run :
        (w : World) (old : String) (claims : Claims)
        → init out.discover w.runtime ≡ (some (ok tt), ok tt)
        → req.cookie ≡ ok id
        → get ttl w.now id w.sessions ≡ (some sess, w.sessions)
        → w.cells sess.cell ≡ old
        → (old == "") ≡ false
        → out.renew_for old ≡ ok tok
        → (tok.id_token == "") ≡ false
        → out.verify_token tok.id_token ≡ ok claims
        → (handle ttl out (handle_refresh (some cfg) req) w).1 ≡ token tok.id_token
    unfolding handle_refresh refresh_of verify_refresh finish_refresh
    refresh-run w old claims ready cookie got held some_token renewed sent verified = ground arith

  -- a refresh of a session that is too old
  pub refresh-run_late :
      (req : OidcRequest) (id : String) (sess : Session) (w : World)
      → init out.discover w.runtime ≡ (some (ok tt), ok tt)
      → req.cookie ≡ ok id
      → find id w.sessions ≡ some sess
      → is_expired ttl w.now sess ≡ true
      → (handle ttl out (handle_refresh (some cfg) req) w).1
        ≡ failed 401 "session_expired" "session not found or has no refresh token" unchanged
  unfolding handle_refresh get
  refresh-run_late req id sess w ready cookie found late = ground arith

  pub login-run :
      (s256_challenge : String → String) (auth_code_url : String → List (String × String) → String)
      (w : World)
      → init out.discover w.runtime ≡ (some (ok tt), ok tt)
      → handle ttl out (handle_login s256_challenge auth_code_url (some cfg)) w ≡ (
        logged_in out w,
        redirect
            (auth_url s256_challenge auth_code_url
              (state_drawn out w)
              (verifier_drawn out w)
              (nonce_drawn out w))
            (set (id_drawn out w))
            false,
      )
  unfolding handle_login
  login-run s256_challenge auth_code_url w ready = ground arith
