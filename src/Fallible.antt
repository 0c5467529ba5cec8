-- ===== src/Fallible.antt =====
-- Go's `(A, error)`: a value, or the error's text.
use rpc_operator.Prelude.{String}

pub data Fallible (A : Type 0) : Type 0 where
  ok : A → Fallible A
  err : String → Fallible A

-- `if err != nil { return …, err }`
infixl 5 ◌>>=◌
abbrev pub ◌>>=◌ : {A B : Type 0} → Fallible A → (A → Fallible B) → Fallible B
ok a >>= f = f a
err e >>= f = err e

-- `fmt.Errorf("…: %w", err)`
abbrev pub wrap : {A : Type 0} → (String → String) → Fallible A → Fallible A
wrap text (ok a) = ok a
wrap text (err e) = err (text e)
