-- ===== src/Web/Oidc/World.antt =====
-- A server with its store, memory, clock and random source, and an identity provider, in which the
-- handlers of internal/api/oidc.go run one after the other.
use rpc_operator.Prelude.{ℕ, suc, ◌+◌, String, ◌≡◌, ◌≢◌, some, if◌then◌else◌, nat_eq}
use rpc_operator.Fallible.{Fallible, ok}
use rpc_operator.Effects.{exec}
use rpc_operator.Web.Sessions.{Session, Sessions, put, get, delete}
use rpc_operator.Web.Oidc.{
  Runtime, init, Tokens, Claims, OidcCall, init_runtime, random, make_session, get_session,
  delete_session, put_session, lock, unlock, read_refresh, write_refresh, exchange, renew, verify,
  OidcReply, OidcAct,
}

pub record World : Type 0 where
  pub runtime : Runtime
  pub sessions : Sessions
  pub cells : ℕ → String
  pub next_cell : ℕ
  pub drawn : ℕ
  pub now : ℕ

-- What is outside of the server: the random source, whose draws are numbered, and the provider.
pub record Outside : Type 0 where
  pub draw : ℕ → ℕ → String
  pub discover : Fallible (Unit {0})
  pub exchange_for : String → String → Fallible Tokens
  pub renew_for : String → Fallible Tokens
  pub verify_token : String → Fallible Claims

module _ (ttl : ℕ) (out : Outside) where
  abbrev pub serve : (c : OidcCall) → World → World × OidcReply c
  serve init_runtime w = let r = init out.discover w.runtime in (record w { runtime = r.0 }, r.1)
  serve (random n) w = (record w { drawn = suc w.drawn }, out.draw w.drawn n)
  serve (make_session state verifier nonce) w = (
    record w {
      next_cell = suc w.next_cell;
      cells = λ c. if nat_eq c w.next_cell then "" else w.cells c;
    },
    record {
      state = state;
      code_verifier = verifier;
      nonce = nonce;
      cell = w.next_cell;
      created_at = w.now;
    },
  )
  serve (get_session id) w =
      let r = get ttl w.now id w.sessions in (record w { sessions = r.1 }, r.0)
  serve (delete_session id) w = (record w { sessions = delete id w.sessions }, tt)
  serve (put_session id sess) w = (record w { sessions = put id sess w.sessions }, tt)
  serve (lock cell) w = (w, tt)
  serve (unlock cell) w = (w, tt)
  serve (read_refresh cell) w = (w, w.cells cell)
  serve (write_refresh cell refresh) w =
      (record w { cells = λ c. if nat_eq c cell then refresh else w.cells c }, tt)
  serve (exchange code verifier) w = (w, out.exchange_for code verifier)
  serve (renew refresh) w = (w, out.renew_for refresh)
  serve (verify raw) w = (w, out.verify_token raw)

  abbrev pub handle : {A : Type 0} → OidcAct A → World → World × A
  handle m w = exec serve m w

-- time passes
abbrev pub pass : ℕ → World → World
pass d w = record w { now = w.now + d }

-- A provider that answers as a client with a proof key expects: a code that it issued for a challenge
-- and a nonce is exchanged for the verifier of the challenge, with an ID token of that nonce, and its
-- refresh tokens are renewed.
pub record IsHonest (s256_challenge : String → String) (authorize : String → String → String)
    (tokens_for : String → String → Tokens) (renewed : String → Tokens) (out : Outside)
    : Type 0 where
  pub issues : (challenge nonce : String) → authorize challenge nonce ≢ ""
  pub exchanges :
      (verifier nonce : String)
      → out.exchange_for (authorize (s256_challenge verifier) nonce) verifier
        ≡ ok (tokens_for verifier nonce)
  pub sends : (verifier nonce : String) → (tokens_for verifier nonce).id_token ≢ ""
  pub signs :
      (verifier nonce : String)
      → out.verify_token (tokens_for verifier nonce).id_token ≡ ok (ok nonce)
  pub refreshable : (verifier nonce : String) → (tokens_for verifier nonce).refresh_token ≢ ""
  pub renews : (refresh : String) → refresh ≢ "" → out.renew_for refresh ≡ ok (renewed refresh)
  pub resends : (refresh : String) → refresh ≢ "" → (renewed refresh).id_token ≢ ""
  pub resigns :
      (refresh : String)
      → refresh ≢ ""
      → (claims : Claims) × (out.verify_token (renewed refresh).id_token ≡ ok claims)

module _ (out : Outside) (w : World) where
  -- the draws of a login
  abbrev pub id_drawn : String
  id_drawn = out.draw w.drawn 32

  abbrev pub state_drawn : String
  state_drawn = out.draw (suc w.drawn) 32

  abbrev pub verifier_drawn : String
  verifier_drawn = out.draw (suc (suc w.drawn)) 64

  abbrev pub nonce_drawn : String
  nonce_drawn = out.draw (suc (suc (suc w.drawn))) 16

  -- the session of a login
  abbrev pub session_made : Session
  session_made = record {
    state = state_drawn;
    code_verifier = verifier_drawn;
    nonce = nonce_drawn;
    cell = w.next_cell;
    created_at = w.now;
  }

  -- the world after a login
  abbrev pub logged_in : World
  logged_in = record w {
    runtime = some (ok tt);
    drawn = suc (suc (suc (suc w.drawn)));
    next_cell = suc w.next_cell;
    cells = λ c. if nat_eq c w.next_cell then "" else w.cells c;
    sessions = put id_drawn session_made w.sessions;
  }

-- the world after a callback that stores the refresh token
abbrev pub called_back : String → Session → Tokens → World → World
called_back id sess tok w = record w {
  runtime = some (ok tt);
  cells = λ c. if nat_eq c sess.cell then tok.refresh_token else w.cells c;
  sessions = put id sess w.sessions;
}
