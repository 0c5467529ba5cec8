-- ===== src/Web/Oidc/Refresh.antt =====
-- The renewal of a session (handleOIDCRefresh of internal/api/oidc.go).
use rpc_operator.Prelude.{
  ℕ, String, ◌≡◌, ◌≢◌, refl, inl, inr, not, ◌&&◌, Option, none, some, [], ◌∷◌, Memᴰ, ◌==◌, eq_iff,
  arith, Bool-cases, Text-cases,
}
use rpc_operator.Effects.{Every, ret, ask}
use rpc_operator.Effects.Rules.{Every-bind, Every-if}
use rpc_operator.Fallible.{Fallible, ok, err}
use rpc_operator.Web.Sessions.{Session}
use rpc_operator.Web.Oidc.{
  OidcConfig, Tokens, Claims, get_session, delete_session, renew, verify, lock, unlock,
  read_refresh, init_runtime, OidcRequest, Response, failed, redirect, token, no_content, refuse,
  finish_refresh, verify_refresh, refresh_of, locked, refresh_found, refresh_cookie, initialized,
  handle_refresh, OidcAct, unchanged, cleared, set,
}
use rpc_operator.Web.Oidc.Promises.{
  OidcHistory, event, Holds, IsFree, IsHolder, IsRenewed, KeepsFresh, Refreshed,
}

-- the same with the mutex still held
abbrev pub Held : OidcRequest → ℕ → OidcHistory → Response → Type 0
Held req cell h (token raw) =
    Holds cell h
    × (id : String) × (sess : Session) × (old : String) × (tok : Tokens) × IsRenewed req id sess old
        tok h
    × (raw ≡ tok.id_token)
Held req cell h (failed status code message unchanged) = Holds cell h
Held req cell h (failed status code message cleared) =
    Holds cell h × (id : String) × Memᴰ (event (delete_session id) tt) h
Held req cell h _ = ⊥

module _ (req : OidcRequest) where
  Refreshed-unlock :
      (cell : ℕ) (h : OidcHistory) (r : Response)
      → Held req cell h r
      → Every (KeepsFresh req) (Refreshed req) h (ask (unlock cell) (λ _. ret r))
  Refreshed-unlock cell h (token raw)
        (held, id, sess, old, tok, ((cookie, got, read), renewed, sent, claims, verified), same) =
      (
        held,
        λ _. (
          tt,
          id,
          sess,
          old,
          tok,
          (
            (cookie, Memᴰ.tail got, Memᴰ.tail read),
            Memᴰ.tail renewed,
            sent,
            claims,
            Memᴰ.tail verified,
          ),
          same,
        ),
      )
  Refreshed-unlock cell h (failed status code message unchanged) held = (held, λ _. tt)
  Refreshed-unlock cell h (failed status code message cleared) (held, id, gone) =
      (held, λ _. (tt, id, Memᴰ.tail gone))
  Refreshed-unlock cell h (failed _ _ _ (set _)) held = elim held [ ]
  Refreshed-unlock cell h (redirect _ _ _) held = elim held [ ]
  Refreshed-unlock cell h (no_content _) held = elim held [ ]

  module _ (id : String) (sess : Session) where
    abbrev pub Works : OidcHistory → OidcAct Response → Type 0
    Works h m = Every (KeepsFresh req) (Held req sess.cell) h m

    finish_refresh-Works :
        (old : String) (tok : Tokens) (h : OidcHistory)
        → IsRenewed req id sess old tok h
        → Holds sess.cell h
        → Works h (finish_refresh id sess old tok)
    unfolding finish_refresh
    finish_refresh-Works old tok h ((cookie, got, read), renewed, sent, claims, verified) held =
        elim (Bool-cases (not (tok.refresh_token == "") && not (tok.refresh_token == old))) [
          | inl rotated ↦
              rw (rotated, finish_refresh)
                (
                  (
                    id,
                    sess,
                    old,
                    tok,
                    ((cookie, got, read), renewed, sent, claims, verified),
                    refl,
                    refl,
                    (λ same. ground (arith, eq_iff tok.refresh_token "", rotated, same)),
                    (λ same. ground (arith, eq_iff tok.refresh_token old, rotated, same)),
                    held,
                  ),
                  λ _. (
                    (
                      old,
                      tok,
                      (
                        (cookie, Memᴰ.tail got, Memᴰ.tail read),
                        Memᴰ.tail renewed,
                        sent,
                        claims,
                        Memᴰ.tail verified,
                      ),
                      Memᴰ.head refl,
                      held,
                    ),
                    λ _. (
                      held,
                      id,
                      sess,
                      old,
                      tok,
                      (
                        (cookie, Memᴰ.tail (Memᴰ.tail got), Memᴰ.tail (Memᴰ.tail read)),
                        Memᴰ.tail (Memᴰ.tail renewed),
                        sent,
                        claims,
                        Memᴰ.tail (Memᴰ.tail verified),
                      ),
                      refl,
                    ),
                  ),
                )
          | inr kept ↦
              rw (kept, finish_refresh)
                (
                  held,
                  id,
                  sess,
                  old,
                  tok,
                  ((cookie, got, read), renewed, sent, claims, verified),
                  refl,
                )
        ]

    verify_refresh-Works :
        (old : String) (tok : Tokens) (h : OidcHistory)
        → IsHolder req id sess old h
        → Memᴰ (event (renew old) (ok tok)) h
        → Holds sess.cell h
        → Works h (verify_refresh id sess old tok)
    unfolding verify_refresh
    verify_refresh-Works old tok h (cookie, got, read) renewed held =
        elim (Text-cases tok.id_token "") [
          | inl missing ↦ rw ((eq_iff tok.id_token "").1 missing, verify_refresh) held
          | inr sent ↦
              rw (sent, verify_refresh)
                (tt, by_reply (λ same. ground (arith, eq_iff tok.id_token "", sent, same)))
        ]
      where
        by_reply :
            tok.id_token ≢ ""
            → (r : Fallible Claims)
            → Works (event (verify tok.id_token) r ∷ h) (elim r [
              | err e ↦ refuse 401 "id_token_invalid" e
              | ok _ ↦ finish_refresh id sess old tok
            ])
        by_reply raw (err e) = held
        by_reply raw (ok claims) =
            finish_refresh-Works old tok (event (verify tok.id_token) (ok claims) ∷ h)
              (
                (cookie, Memᴰ.tail got, Memᴰ.tail read),
                Memᴰ.tail renewed,
                raw,
                claims,
                Memᴰ.head refl,
              )
              held

    refresh_of-Works :
        (h : OidcHistory)
        → req.cookie ≡ ok id
        → Memᴰ (event (get_session id) (some sess)) h
        → Holds sess.cell h
        → Works h (refresh_of id sess)
    unfolding refresh_of
    refresh_of-Works h cookie got held =
        (tt, λ old. ((id, sess, (cookie, Memᴰ.tail got, Memᴰ.head refl), held), by_reply old))
      where
        by_reply :
            (old : String) (r : Fallible Tokens)
            → Works (event (renew old) r ∷ event (read_refresh sess.cell) old ∷ h) (elim r [
              | err e ↦ ask (delete_session id) (λ _. ret (failed 401 "refresh_failed" e cleared))
              | ok tok ↦ verify_refresh id sess old tok
            ])
        by_reply old (err e) = (
          (
            sess,
            old,
            e,
            (cookie, Memᴰ.tail (Memᴰ.tail got), Memᴰ.tail (Memᴰ.head refl)),
            Memᴰ.head refl,
            held,
          ),
          λ _. (held, id, Memᴰ.head refl),
        )
        by_reply old (ok tok) =
            verify_refresh-Works old tok
              (event (renew old) (ok tok) ∷ event (read_refresh sess.cell) old ∷ h)
              (cookie, Memᴰ.tail (Memᴰ.tail got), Memᴰ.tail (Memᴰ.head refl)) (Memᴰ.head refl) held

-- However the store, the memory and the provider reply, a refresh asks the provider, and changes or
-- deletes the session, only while it holds the mutex of the session that its cookie names; it stores
-- only a refresh token that the provider gave and that is new, and deletes only after the provider
-- refused; it replies with an ID token only if the provider gave it for the session's token and it is
-- verified, and clears the cookie only with the session; and it always ends with the mutex free.
pub handle_refresh-KeepsFresh :
    (oidc : Option OidcConfig) (req : OidcRequest)
    → Every (KeepsFresh req) (Refreshed req) [] (handle_refresh oidc req)
unfolding handle_refresh
handle_refresh-KeepsFresh none req = tt
handle_refresh-KeepsFresh (some cfg) req = (tt, at_start)
  where
    with_mutex :
        (id : String) (sess : Session) (h : OidcHistory)
        → req.cookie ≡ ok id
        → Memᴰ (event (get_session id) (some sess)) h
        → IsFree h
        → Every (KeepsFresh req) (Refreshed req) h (locked sess.cell (refresh_of id sess))
    with_mutex id sess h cookie got free = (
      free,
      λ _.
          Every-bind (KeepsFresh req) (Held req sess.cell) (Refreshed req)
            (λ r. ask (unlock sess.cell) (λ _. ret r)) (event (lock sess.cell) tt ∷ h)
            (refresh_of id sess)
            (refresh_of-Works req id sess (event (lock sess.cell) tt ∷ h) cookie (Memᴰ.tail got)
              refl)
            (Refreshed-unlock req sess.cell),
    )

    with_session :
        (id : String) (h : OidcHistory)
        → req.cookie ≡ ok id
        → IsFree h
        → (found : Option Session)
        → Every
            (KeepsFresh req)
            (Refreshed req)
            (event (get_session id) found ∷ h)
            (refresh_found id found)
    with_session id h cookie free none = free
    with_session id h cookie free (some sess) = (
      tt,
      λ old.
          Every-if (KeepsFresh req) (Refreshed req) _ (old == "")
            (refuse 401 "session_expired" "session not found or has no refresh token")
            (locked sess.cell (refresh_of id sess)) (λ _. free)
            (λ _.
              with_mutex id sess
                (event (read_refresh sess.cell) old ∷ event (get_session id) (some sess) ∷ h) cookie
                (Memᴰ.tail (Memᴰ.head refl)) free),
    )

    by_cookie :
        (h : OidcHistory) (cookie : Fallible String)
        → req.cookie ≡ cookie
        → IsFree h
        → Every (KeepsFresh req) (Refreshed req) h (refresh_cookie cookie)
    by_cookie h (err e) same free = free
    by_cookie h (ok id) same free = (same, with_session id h same free)

    at_start :
        (r : Fallible (Unit {0}))
        → Every
            (KeepsFresh req)
            (Refreshed req)
            (event init_runtime r ∷ [])
            (initialized r (refresh_cookie req.cookie))
    at_start (err e) = tt
    at_start (ok u) = by_cookie (event init_runtime (ok u) ∷ []) req.cookie refl tt
