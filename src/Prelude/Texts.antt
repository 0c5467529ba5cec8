-- ===== src/Prelude/Texts.antt =====
-- Walking texts.
use Prim.Native.String
use Prim.Native.String.{String, [], ◌∷◌}
use Prim.Native.Char.{code}
use text.Mathlib.TextLemmas.{nil-append, cons-append}
use text.Mathlib.TextEquality.{Char-path}
use mathlib.Core.Path.{◌≡◌, refl, ap}
use mathlib.Core.Logic.{inl, inr}
use mathlib.Core.Option.{Option, none, some}
use native.Mathlib.Omega.{arith}
use rpc_operator.Prelude.Tests.{nat_eq, if◌then◌else◌, Bool-cases}

-- `strings.CutPrefix`: the text behind a prefix
unfoldable pub strip_prefix : String → String → Option String
strip_prefix [] s = some s
strip_prefix (c ∷ p) [] = none
strip_prefix (c ∷ p) (d ∷ s) =
    let rest = strip_prefix p s in if nat_eq (code c) (code d) then rest else none

pub strip_prefix-append : (p s : String) → strip_prefix p (String.◌++◌ p s) ≡ some s
unfolding strip_prefix
strip_prefix-append [] s = rw nil-append refl
strip_prefix-append (c ∷ p) s = rw cons-append (ground (arith, strip_prefix-append p s))

-- A text is the prefix and what was cut.
pub strip_prefix-some : (p s rest : String) → strip_prefix p s ≡ some rest → s ≡ String.◌++◌ p rest
unfolding strip_prefix
strip_prefix-some [] s rest e = rw nil-append (ground arith)
strip_prefix-some (c ∷ p) [] rest e = ground arith
strip_prefix-some (c ∷ p) (d ∷ s) rest e = elim (Bool-cases (nat_eq (code c) (code d))) [
  | inl same ↦
      let heads : c ≡ d = Char-path c d (ground (arith, same)) in
      rw (cons-append, heads) (ap (λ x. d ∷ x) (strip_prefix-some p s rest (rw same at e)))
  | inr other ↦ ground (arith, e, other)
]
