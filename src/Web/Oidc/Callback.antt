-- ===== src/Web/Oidc/Callback.antt =====
-- The callback of a login (handleOIDCCallback of internal/api/oidc.go).
use rpc_operator.Prelude.{
  ℕ, String, ◌≡◌, ◌≢◌, subst, Text-cases, refl, inl, inr, false, Option, none, some, [], ◌∷◌, Memᴰ,
  ◌==◌, eq_iff, arith,
}
use rpc_operator.Effects.{Every}
use rpc_operator.Effects.Rules.{Every-if}
use rpc_operator.Fallible.{Fallible, ok, err}
use rpc_operator.Web.Sessions.{Session}
use rpc_operator.Web.Oidc.{
  OidcConfig, Tokens, Claims, get_session, put_session, write_refresh, exchange, verify,
  init_runtime, OidcRequest, Response, refuse, drop_session, finish_callback, check_nonce,
  verify_login, exchange_code, callback_of, handle_callback, callback_found, callback_cookie,
  initialized, OidcAct, ui_redirect_target,
}
use rpc_operator.Web.Oidc.Promises.{
  OidcHistory, event, IsCaller, IsVerified, AllFine, SignsIn, SignedIn,
}

not_eq-false : (s t : String) → (s == t) ≡ false → s ≢ t
not_eq-false s t e same = ground (arith, eq_iff s t, e, same)

module _ (oidc : Option OidcConfig) (req : OidcRequest) where
  -- all that a handler does from here is sound
  abbrev pub Goes : OidcHistory → OidcAct Response → Type 0
  Goes h m = Every (SignsIn req) (SignedIn oidc req) h m

  module _ (cfg : OidcConfig) (enabled : oidc ≡ some cfg) (id : String) (sess : Session) where
    finish_callback-Goes :
        (tok : Tokens) (h : OidcHistory)
        → IsVerified req id sess tok h
        → Goes h (finish_callback cfg id tok sess)
    unfolding finish_callback ui_redirect_target
    finish_callback-Goes tok h ((cookie, got, state), code, tokens, raw, verified) = (
      (id, sess, tok, ((cookie, got, state), code, tokens, raw, verified), refl, refl),
      λ _. (
        (tok, later1),
        λ _. (
          cfg,
          id,
          sess,
          tok,
          enabled,
          later2,
          Memᴰ.tail (Memᴰ.head refl),
          Memᴰ.head refl,
          refl,
          refl,
          refl,
        ),
      ),
    )
      where
        later1 :
            IsVerified req id sess tok (event (write_refresh sess.cell tok.refresh_token) tt ∷ h)
        later1 = ((cookie, Memᴰ.tail got, state), code, Memᴰ.tail tokens, raw, Memᴰ.tail verified)

        later2 : IsVerified req id sess tok (
            event (put_session id sess) tt
            ∷ event (write_refresh sess.cell tok.refresh_token) tt
            ∷ h)
        later2 = (
          (cookie, Memᴰ.tail (Memᴰ.tail got), state),
          code,
          Memᴰ.tail (Memᴰ.tail tokens),
          raw,
          Memᴰ.tail (Memᴰ.tail verified),
        )

    drop_session-Goes :
        (h : OidcHistory) (status : ℕ) (code message : String)
        → req.cookie ≡ ok id
        → Goes h (drop_session id status code message)
    drop_session-Goes h status code message cookie =
        (cookie, λ _. (inr (id, cookie, Memᴰ.head refl), refl))

    check_nonce-Goes :
        (tok : Tokens) (claims : Claims) (h : OidcHistory)
        → IsCaller req id sess h
        → req.code ≢ ""
        → Memᴰ (event (exchange req.code sess.code_verifier) (ok tok)) h
        → tok.id_token ≢ ""
        → Memᴰ (event (verify tok.id_token) (ok claims)) h
        → ((e : String) → claims ≡ err e → AllFine req h)
        → Goes h (check_nonce cfg id tok sess claims)
    unfolding check_nonce
    check_nonce-Goes tok (err e) h caller code tokens raw verified fine = (inl (fine e refl), refl)
    check_nonce-Goes tok (ok nonce) h caller code tokens raw verified fine =
        Every-if (SignsIn req) (SignedIn oidc req) h (nonce == sess.nonce)
          (finish_callback cfg id tok sess)
          (drop_session id 401 "nonce_mismatch" "id_token nonce does not match login request")
          (λ same. finish_callback-Goes tok h (
            caller,
            code,
            tokens,
            raw,
            subst (λ (n : String). Memᴰ (event (verify tok.id_token) (ok (ok n))) h)
                ((eq_iff nonce sess.nonce).0 same) verified,
          ))
          (λ other.
            drop_session-Goes h 401 "nonce_mismatch" "id_token nonce does not match login request"
              caller.0)

    verify_login-Goes :
        (tok : Tokens) (h : OidcHistory)
        → IsCaller req id sess h
        → req.code ≢ ""
        → Memᴰ (event (exchange req.code sess.code_verifier) (ok tok)) h
        → AllFine req h
        → Goes h (verify_login cfg id sess tok)
    unfolding verify_login
    verify_login-Goes tok h (cookie, got, state) code tokens fine =
        elim (Text-cases tok.id_token "") [
          | inl missing ↦ rw ((eq_iff tok.id_token "").1 missing, verify_login) (inl fine, refl)
          | inr sent ↦ rw (sent, verify_login) (tt, by_reply (not_eq-false tok.id_token "" sent))
        ]
      where
        by_reply :
            tok.id_token ≢ ""
            → (r : Fallible Claims)
            → Goes (event (verify tok.id_token) r ∷ h) (elim r [
              | err e ↦ refuse 401 "id_token_invalid" e
              | ok claims ↦ check_nonce cfg id tok sess claims
            ])
        by_reply raw (err e) = (inl (tt, fine), refl)
        by_reply raw (ok (ok nonce)) =
            check_nonce-Goes tok (ok nonce) (event (verify tok.id_token) (ok (ok nonce)) ∷ h)
              (cookie, Memᴰ.tail got, state) code (Memᴰ.tail tokens) raw (Memᴰ.head refl)
              (λ e same. cc same)
        by_reply raw (ok (err e)) =
            check_nonce-Goes tok (err e) (event (verify tok.id_token) (ok (err e)) ∷ h)
              (cookie, Memᴰ.tail got, state) code (Memᴰ.tail tokens) raw (Memᴰ.head refl)
              (λ _ _. (tt, fine))

    exchange_code-Goes :
        (h : OidcHistory)
        → IsCaller req id sess h
        → req.code ≢ ""
        → AllFine req h
        → Goes h (exchange_code cfg id req.code sess)
    unfolding exchange_code
    exchange_code-Goes h (cookie, got, state) code fine =
        ((id, sess, (cookie, got, state), refl, refl), by_reply)
      where
        by_reply :
            (r : Fallible Tokens)
            → Goes (event (exchange req.code sess.code_verifier) r ∷ h) (elim r [
              | err e ↦ drop_session id 502 "token_exchange_failed" e
              | ok tok ↦ verify_login cfg id sess tok
            ])
        by_reply (err e) =
            drop_session-Goes (event (exchange req.code sess.code_verifier) (err e) ∷ h) 502
              "token_exchange_failed" e cookie
        by_reply (ok tok) =
            verify_login-Goes tok (event (exchange req.code sess.code_verifier) (ok tok) ∷ h)
              (cookie, Memᴰ.tail got, state) code (Memᴰ.head refl) (tt, fine)

    callback_of-Goes :
        (h : OidcHistory)
        → req.cookie ≡ ok id
        → Memᴰ (event (get_session id) (some sess)) h
        → (req.state ≡ sess.state → AllFine req h)
        → Goes h (callback_of cfg req id sess)
    unfolding callback_of
    callback_of-Goes h cookie got fine = elim (Text-cases req.state sess.state) [
      | inl same ↦ elim (Text-cases req.code "") [
        | inl missing ↦
            rw ((eq_iff req.state sess.state).1 same, callback_of)
              (rw ((eq_iff req.code "").1 missing) (inl (fine same), refl))
        | inr sent ↦
            rw ((eq_iff req.state sess.state).1 same, callback_of)
              (rw sent (
                exchange_code-Goes h (cookie, got, same) (not_eq-false req.code "" sent)
                  (fine same)))
      ]
      | inr other ↦
          rw (other, callback_of)
            (drop_session-Goes h 400 "state_mismatch" "state parameter does not match" cookie)
    ]

-- However the store, the memory and the provider reply, a callback exchanges a code only for the
-- session that its cookie names and whose state the request repeats, with the verifier of that session;
-- it changes that session, and redirects with an ID token, only if the provider gave the token for that
-- code, the token is verified and its nonce is the session's, and then the session is stored with the
-- refresh token. Where the state of the session is another than the request's, the exchange fails, or the
-- nonce of the verified token is another than the session's, the session is deleted.
pub handle_callback-SignsIn :
    (oidc : Option OidcConfig) (req : OidcRequest)
    → Every (SignsIn req) (SignedIn oidc req) [] (handle_callback oidc req)
unfolding handle_callback
handle_callback-SignsIn none req = (inl tt, refl)
handle_callback-SignsIn (some cfg) req = (tt, at_start)
  where
    with_session :
        (id : String) (h : OidcHistory)
        → req.cookie ≡ ok id
        → AllFine req h
        → (found : Option Session)
        → Goes (some cfg) req (event (get_session id) found ∷ h) (callback_found cfg req id found)
    with_session id h cookie fine none = (inl (tt, fine), refl)
    with_session id h cookie fine (some sess) =
        callback_of-Goes (some cfg) req cfg refl id sess (event (get_session id) (some sess) ∷ h)
          cookie (Memᴰ.head refl) (λ same. (same, fine))

    by_cookie :
        (h : OidcHistory) (cookie : Fallible String)
        → req.cookie ≡ cookie
        → AllFine req h
        → Goes (some cfg) req h (callback_cookie cfg req cookie)
    by_cookie h (err e) same fine = (inl fine, refl)
    by_cookie h (ok id) same fine = (same, with_session id h same fine)

    at_start :
        (r : Fallible (Unit {0}))
        → Goes
            (some cfg)
            req
            (event init_runtime r ∷ [])
            (initialized r (callback_cookie cfg req req.cookie))
    at_start (err e) = (inl (tt, tt), refl)
    at_start (ok u) = by_cookie (event init_runtime (ok u) ∷ []) req.cookie refl (tt, tt)
