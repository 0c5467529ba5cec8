-- ===== src/Web/Oidc/Promises.antt =====
-- What the handlers of a login may do, by what the replies before a call confirmed
-- (internal/api/oidc.go).
use Prim.Native.String.{◌++◌}
use rpc_operator.Prelude.{ℕ, String, ◌≡◌, ◌≢◌, true, Option, some, List, [], ◌∷◌, Memᴰ, ◌⊎◌}
use rpc_operator.Effects.{Event}
use rpc_operator.Fallible.{ok, err}
use rpc_operator.Web.Sessions.{Session}
use rpc_operator.Web.Oidc.{
  OidcConfig, Tokens, Claims, OidcCall, init_runtime, make_session, get_session, delete_session,
  put_session, lock, unlock, read_refresh, write_refresh, exchange, renew, verify, OidcReply,
  OidcRequest, Response, failed, redirect, token, unchanged, cleared, set, ui_redirect_target,
}

abbrev pub OidcHistory : Type 0
OidcHistory = List (Event OidcCall OidcReply)

abbrev pub event : (c : OidcCall) → OidcReply c → Event OidcCall OidcReply
event c r = record { call = c; reply = r }

-- The cookie names a session with the state of the request.
abbrev pub IsCaller : OidcRequest → String → Session → OidcHistory → Type 0
IsCaller req id sess h =
    (req.cookie ≡ ok id) × Memᴰ (event (get_session id) (some sess)) h × (req.state ≡ sess.state)

-- The provider gave the tokens for the request's code and the verifier of the session of its cookie,
-- and the ID token is verified and has the session's nonce.
abbrev pub IsVerified : OidcRequest → String → Session → Tokens → OidcHistory → Type 0
IsVerified req id sess tok h =
    IsCaller req id sess h
    × (req.code ≢ "")
    × Memᴰ (event (exchange req.code sess.code_verifier) (ok tok)) h
    × (tok.id_token ≢ "")
    × Memᴰ (event (verify tok.id_token) (ok (ok sess.nonce))) h

-- The reply is none of those that end a login: it is no session with another state than the request's,
-- no failed exchange, and no verified claims with another nonce than that of the session read before.
abbrev pub IsFine : OidcRequest → OidcHistory → (c : OidcCall) → OidcReply c → Type 0
IsFine req h (get_session id) (some sess) = req.state ≡ sess.state
IsFine req h (exchange code verifier) (err e) = ⊥
IsFine req h (verify raw) (ok (ok nonce)) =
    (id : String) × (sess : Session) × Memᴰ (event (get_session id) (some sess)) h
    × (nonce ≡ sess.nonce)
IsFine req h _ _ = Unit

abbrev pub AllFine : OidcRequest → OidcHistory → Type 0
AllFine req [] = Unit
AllFine req (e ∷ h) = IsFine req h e.call e.reply × AllFine req h

-- The session that the cookie names is deleted.
abbrev pub IsEnded : OidcRequest → OidcHistory → Type 0
IsEnded req h = (id : String) × (req.cookie ≡ ok id) × Memᴰ (event (delete_session id) tt) h

-- What a callback may ask for: an exchange only for the session of the caller, and a change of a
-- session only after the verification.
abbrev pub SignsIn : OidcRequest → OidcHistory → OidcCall → Type 0
SignsIn req h (exchange code verifier) =
    (id : String) × (sess : Session) × IsCaller req id sess h
    × (code ≡ req.code)
    × (verifier ≡ sess.code_verifier)
SignsIn req h (put_session id sess) = (tok : Tokens) × IsVerified req id sess tok h
SignsIn req h (write_refresh cell refresh) =
    (id : String) × (sess : Session) × (tok : Tokens) × IsVerified req id sess tok h
    × (cell ≡ sess.cell)
    × (refresh ≡ tok.refresh_token)
SignsIn req h (delete_session id) = req.cookie ≡ ok id
SignsIn req h (get_session id) = req.cookie ≡ ok id
SignsIn req h init_runtime = Unit
SignsIn req h (verify raw) = Unit
SignsIn req h _ = ⊥

-- What a callback replies: a redirect with the ID token only for a verified login whose session is
-- stored, and an error only with the session deleted, if a reply was one that ends a login.
abbrev pub SignedIn : Option OidcConfig → OidcRequest → OidcHistory → Response → Type 0
SignedIn oidc req h (redirect location cookie no_store) =
    (cfg : OidcConfig) × (id : String) × (sess : Session) × (tok : Tokens) × (oidc ≡ some cfg)
    × IsVerified req id sess tok h
    × Memᴰ (event (write_refresh sess.cell tok.refresh_token) tt) h
    × Memᴰ (event (put_session id sess) tt) h
    × (location ≡ ui_redirect_target cfg ++ "#id_token=" ++ tok.id_token)
    × (cookie ≡ set id)
    × (no_store ≡ true)
SignedIn oidc req h (failed status code message cookie) =
    (AllFine req h ⊎ IsEnded req h) × (cookie ≡ unchanged)
SignedIn oidc req h _ = ⊥

-- the mutex of the session in this cell is held
abbrev pub Holds : ℕ → OidcHistory → Type 0
Holds cell [] = ⊥
Holds cell (e ∷ h) = elim e.call [ lock c ↦ c ≡ cell | unlock c ↦ ⊥ | _ ↦ Holds cell h ]

-- no mutex is held
abbrev pub IsFree : OidcHistory → Type 0
IsFree [] = Unit
IsFree (e ∷ h) = elim e.call [ lock c ↦ ⊥ | unlock c ↦ Unit | _ ↦ IsFree h ]

-- The cookie names a session, and the session's cell had this refresh token.
abbrev pub IsHolder : OidcRequest → String → Session → String → OidcHistory → Type 0
IsHolder req id sess old h =
    (req.cookie ≡ ok id)
    × Memᴰ (event (get_session id) (some sess)) h
    × Memᴰ (event (read_refresh sess.cell) old) h

-- The provider renewed the token that the session held, and the new ID token is verified.
abbrev pub IsRenewed : OidcRequest → String → Session → String → Tokens → OidcHistory → Type 0
IsRenewed req id sess old tok h =
    IsHolder req id sess old h
    × Memᴰ (event (renew old) (ok tok)) h
    × (tok.id_token ≢ "")
    × (claims : Claims) × Memᴰ (event (verify tok.id_token) (ok claims)) h

-- What a refresh may ask for: the provider, and a change of the session, only while it holds the
-- session's mutex; the change only where the provider rotates the token.
abbrev pub KeepsFresh : OidcRequest → OidcHistory → OidcCall → Type 0
KeepsFresh req h (renew old) =
    (id : String) × (sess : Session) × IsHolder req id sess old h × Holds sess.cell h
KeepsFresh req h (write_refresh cell refresh) =
    (id : String) × (sess : Session) × (old : String) × (tok : Tokens) × IsRenewed req id sess old
      tok h
    × (cell ≡ sess.cell)
    × (refresh ≡ tok.refresh_token)
    × (refresh ≢ "")
    × (refresh ≢ old)
    × Holds cell h
KeepsFresh req h (put_session id sess) =
    (old : String) × (tok : Tokens) × IsRenewed req id sess old tok h
    × Memᴰ (event (write_refresh sess.cell tok.refresh_token) tt) h
    × Holds sess.cell h
KeepsFresh req h (delete_session id) =
    (sess : Session) × (old : String) × (e : String) × IsHolder req id sess old h
    × Memᴰ (event (renew old) (err e)) h
    × Holds sess.cell h
KeepsFresh req h (get_session id) = req.cookie ≡ ok id
KeepsFresh req h (lock cell) = IsFree h
KeepsFresh req h (unlock cell) = Holds cell h
KeepsFresh req h (exchange code verifier) = ⊥
KeepsFresh req h (make_session state verifier nonce) = ⊥
KeepsFresh req h _ = Unit

-- What a refresh replies, with no mutex held: an ID token only if it is renewed and verified, and the
-- cookie is cleared only with the session deleted.
abbrev pub Refreshed : OidcRequest → OidcHistory → Response → Type 0
Refreshed req h (token raw) =
    IsFree h
    × (id : String) × (sess : Session) × (old : String) × (tok : Tokens) × IsRenewed req id sess old
        tok h
    × (raw ≡ tok.id_token)
Refreshed req h (failed status code message unchanged) = IsFree h
Refreshed req h (failed status code message cleared) =
    IsFree h × (id : String) × Memᴰ (event (delete_session id) tt) h
Refreshed req h _ = ⊥
