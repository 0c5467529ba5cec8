-- ===== src/Effects.antt =====
-- Programs that call services. A program is its calls and, for every reply, what it does next; what
-- is proved of it holds for every sequence of replies.
pub mod Rules
pub mod Parts
use rpc_operator.Prelude.{List, ◌∷◌}

pub data Prog (C : Type 0) (R : C → Type 0) (A : Type 0) : Type 0 where
  ret : A → Prog C R A
  ask : (c : C) → (R c → Prog C R A) → Prog C R A

-- one call with its reply
pub record Event (C : Type 0) (R : C → Type 0) : Type 0 where
  pub call : C
  pub reply : R call

module _ {C : Type 0} {R : C → Type 0} where
  infixl 5 ◌>>=◌
  abbrev pub ◌>>=◌ : {A B : Type 0} → Prog C R A → (A → Prog C R B) → Prog C R B
  ret a >>= f = f a
  ask c k >>= f = ask c (λ r. k r >>= f)

  -- The program as a part of a larger one, with its calls among those of the larger one.
  abbrev pub translate :
      {C' : Type 0} {R' : C' → Type 0} {A : Type 0} (f : C → C') (g : (c : C) → R' (f c) → R c)
      → Prog C R A
      → Prog C' R' A
  translate f g (ret a) = ret a
  translate f g (ask c k) = ask (f c) (λ r. translate f g (k (g c r)))

  -- Every call is made in a history that allows it, and every result is as promised. The latest
  -- event is the first of the history.
  abbrev pub Every :
      {A : Type 0}
      → (List (Event C R) → C → Type 0)
      → (List (Event C R) → A → Type 0)
      → List (Event C R)
      → Prog C R A
      → Type 0
  Every P Q h (ret a) = Q h a
  Every P Q h (ask c k) = P h c × ((r : R c) → Every P Q (record { call = c; reply = r } ∷ h) (k r))

  -- A run against replies that depend on the call alone.
  abbrev pub run : {A : Type 0} → ((c : C) → R c) → List C → Prog C R A → List C × A
  run env calls (ret a) = (calls, a)
  run env calls (ask c k) = run env (c ∷ calls) (k (env c))

  -- A run against a world that each call may change.
  abbrev pub exec : {S A : Type 0} → ((c : C) → S → S × R c) → Prog C R A → S → S × A
  exec step (ret a) s = (s, a)
  exec step (ask c k) s = let r = step c s in exec step (k r.1) r.0
