-- ===== src/Web/Oidc/Journey.antt =====
-- What a user meets who signs in, returns from the provider and renews the ID token
-- (internal/api/oidc.go).
use Prim.Native.String.{◌++◌}
use rpc_operator.Prelude.{
  ℕ, ◌+◌, ◌≤◌, ◌<◌, String, List, ◌≡◌, ◌≢◌, refl, true, false, Option-cases, inl, inr, some, nat_eq,
  arith, eq_refl, text_eq-false,
}
use rpc_operator.Fallible.{ok}
use rpc_operator.Web.Sessions.{Session, Sessions, find, put, is_expired}
use rpc_operator.Web.Sessions.Laws.{find-put}
use rpc_operator.Web.Oidc.{
  failed, unchanged, init, OidcConfig, Tokens, OidcRequest, Response, redirect, token, set,
  auth_url, handle_login, handle_callback, handle_refresh, ui_redirect_target,
}
use rpc_operator.Web.Oidc.World.{
  World, Outside, handle, pass, IsHonest, id_drawn, state_drawn, verifier_drawn, nonce_drawn,
  session_made, logged_in, called_back,
}
use rpc_operator.Web.Oidc.Signing.{get-live, callback-run, refresh-run, refresh-run_late, login-run}

find-put_same :
    (id : String) (sess : Session) (store : Sessions) → find id (put id sess store) ≡ some sess
find-put_same id sess store = rw (find-put id id sess store, eq_refl id) refl

is_expired-within :
    (ttl now : ℕ) (sess : Session) → now ≤ sess.created_at + ttl → is_expired ttl now sess ≡ false
is_expired-within ttl now sess h = ground arith

is_expired-beyond :
    (ttl now : ℕ) (sess : Session) → sess.created_at + ttl < now → is_expired ttl now sess ≡ true
is_expired-beyond ttl now sess h = ground arith

nat_eq-same : (n : ℕ) → nat_eq n n ≡ true
nat_eq-same n = ground arith

init-again :
    (out : Outside) (w : World)
    → (init out.discover w.runtime).1 ≡ ok tt
    → init out.discover w.runtime ≡ (some (ok tt), ok tt)
unfolding init
init-again out w ready = elim (Option-cases w.runtime) [
  | inl first ↦ ground (arith, first, ready)
  | inr (r, later) ↦ ground (arith, later, ready)
]

module _ (ttl : ℕ) (out : Outside) (cfg : OidcConfig) (s256_challenge : String → String)
    (auth_code_url : String → List (String × String) → String)
    (authorize : String → String → String) (tokens_for : String → String → Tokens)
    (renewed : String → Tokens) where
  -- the request with which the browser returns from the provider
  abbrev pub returning : World → OidcRequest
  returning w = record {
    cookie = ok (id_drawn out w);
    state = state_drawn out w;
    code = authorize (s256_challenge (verifier_drawn out w)) (nonce_drawn out w);
  }

  -- the tokens of the login
  abbrev pub tokens : World → Tokens
  tokens w = tokens_for (verifier_drawn out w) (nonce_drawn out w)

  -- the login, the callback `d` later and a refresh `d'` after that
  abbrev pub after_login : World → World × Response
  after_login w = handle ttl out (handle_login s256_challenge auth_code_url (some cfg)) w

  abbrev pub after_callback : ℕ → World → World × Response
  after_callback d w =
      handle ttl out (handle_callback (some cfg) (returning w)) (pass d (after_login w).0)

  abbrev pub after_refresh : ℕ → ℕ → World → World × Response
  after_refresh d d' w =
      handle ttl out (handle_refresh (some cfg) (returning w)) (pass d' (after_callback d w).0)

  module _ (honest : IsHonest s256_challenge authorize tokens_for renewed out) (w : World)
      (ready : (init out.discover w.runtime).1 ≡ ok tt) (d : ℕ) (soon : d ≤ ttl) where
    after_callback_lem : after_callback d w ≡ (
      called_back (id_drawn out w) (session_made out w) (tokens w) (pass d (logged_in out w)),
      redirect
          (ui_redirect_target cfg ++ "#id_token=" ++ (tokens w).id_token)
          (set (id_drawn out w))
          true,
    )
    unfolding init
    after_callback_lem =
        rw (login-run ttl out cfg s256_challenge auth_code_url w (init-again out w ready)) (
          callback-run ttl out cfg (returning w) (id_drawn out w) (session_made out w) (tokens w)
            (pass d (logged_in out w)) refl refl
            (get-live ttl out cfg (w.now + d) (id_drawn out w) (session_made out w)
              (pass d (logged_in out w))
              (find-put_same (id_drawn out w) (session_made out w) w.sessions)
              (is_expired-within ttl (w.now + d) (session_made out w) (omega arith)))
            (eq_refl (state_drawn out w))
            (text_eq-false (authorize (s256_challenge (verifier_drawn out w)) (nonce_drawn out w))
              "" (honest.issues (s256_challenge (verifier_drawn out w)) (nonce_drawn out w)))
            (honest.exchanges (verifier_drawn out w) (nonce_drawn out w))
            (text_eq-false (tokens w).id_token ""
              (honest.sends (verifier_drawn out w) (nonce_drawn out w)))
            (honest.signs (verifier_drawn out w) (nonce_drawn out w)))

    -- With a provider that a discovery finds, and that honours the codes that it issues and the tokens
    -- that it gives, a user who returns from the provider within the lifetime of a session is redirected
    -- with the ID token of the login and keeps the cookie; and a refresh replies with a renewed ID
    -- token, if it is within that lifetime of the login.
    pub sign_in-Succeeds :
        (d' : ℕ)
        → d + d' ≤ ttl
        → ((after_login w).1
            ≡ redirect
                (auth_url s256_challenge auth_code_url
                  (state_drawn out w)
                  (verifier_drawn out w)
                  (nonce_drawn out w))
                (set (id_drawn out w))
                false)
          × ((after_callback d w).1
              ≡ redirect
                  (ui_redirect_target cfg ++ "#id_token=" ++ (tokens w).id_token)
                  (set (id_drawn out w))
                  true)
          × ((after_refresh d d' w).1 ≡ token (renewed (tokens w).refresh_token).id_token)
    unfolding init
    sign_in-Succeeds d' within = (
      rw (login-run ttl out cfg s256_challenge auth_code_url w (init-again out w ready)) refl,
      rw after_callback_lem refl,
      rw after_callback_lem (
          refresh-run ttl out cfg (returning w) (id_drawn out w) (session_made out w)
            (renewed (tokens w).refresh_token) (pass d' world) (tokens w).refresh_token
            (honest.resigns (tokens w).refresh_token
              (honest.refreshable (verifier_drawn out w) (nonce_drawn out w))).0
            refl refl
            (get-live ttl out cfg (w.now + d + d') (id_drawn out w) (session_made out w)
              (pass d' world)
              (find-put_same (id_drawn out w) (session_made out w)
                (put (id_drawn out w) (session_made out w) w.sessions))
              (is_expired-within ttl (w.now + d + d') (session_made out w) (omega arith)))
            (rw (nat_eq-same w.next_cell) refl)
            (text_eq-false (tokens w).refresh_token "" has_token)
            (honest.renews (tokens w).refresh_token has_token)
            (text_eq-false (renewed (tokens w).refresh_token).id_token ""
              (honest.resends (tokens w).refresh_token has_token))
            (honest.resigns (tokens w).refresh_token has_token).1),
    )
      where
        world : World
        world =
            called_back (id_drawn out w) (session_made out w) (tokens w) (pass d (logged_in out w))

        has_token : (tokens w).refresh_token ≢ ""
        has_token = honest.refreshable (verifier_drawn out w) (nonce_drawn out w)

    -- With such a provider, after a login and a callback within the lifetime of a session, a refresh
    -- later than that lifetime after the login is refused as expired, however late the callback was: it
    -- does not prolong the session, though it sets the cookie of the session again.
    pub sign_in-Expires :
        (d' : ℕ)
        → ttl < d + d'
        → ((after_callback d w).1
            ≡ redirect
                (ui_redirect_target cfg ++ "#id_token=" ++ (tokens w).id_token)
                (set (id_drawn out w))
                true)
          × ((after_refresh d d' w).1
              ≡ failed 401 "session_expired" "session not found or has no refresh token" unchanged)
    unfolding init
    sign_in-Expires d' late = (
      rw after_callback_lem refl,
      rw after_callback_lem (
          refresh-run_late ttl out cfg (returning w) (id_drawn out w) (session_made out w)
            (pass d' (
              called_back (id_drawn out w) (session_made out w) (tokens w)
                (pass d (logged_in out w))))
            refl refl
            (find-put_same (id_drawn out w) (session_made out w)
              (put (id_drawn out w) (session_made out w) w.sessions))
            (is_expired-beyond ttl (w.now + d + d') (session_made out w) (omega arith))),
    )
