-- ===== src/Prelude/Find.antt =====
-- Go's `strings.Contains` and `strings.TrimRight` with one character.
use Prim.Native.String
use Prim.Native.String.{String, [], ◌∷◌}
use Prim.Native.Char.{code}
use mathlib.Core.Path.{◌≡◌, refl, ◌∙◌, subst}
use mathlib.Core.Logic.{inl, inr}
use text.Mathlib.TextLemmas.{nil-append, cons-append}
use text.Mathlib.TextEquality.{eq_iff, Char-path}
use native.Mathlib.Omega.{arith}
use mathlib.Core.Bool.{Bool, true}
use mathlib.Core.Option.{none, some}
use rpc_operator.Prelude.Tests.{nat_eq, if◌then◌else◌, Option-cases, Bool-cases, ◌==◌}
use rpc_operator.Prelude.Texts.{strip_prefix, strip_prefix-append}

-- strings.Contains(s, needle)
unfoldable pub contains_text : String → String → Bool
contains_text needle [] = needle == []
contains_text needle (c ∷ s) =
    let later = contains_text needle s in
    elim (strip_prefix needle (c ∷ s)) [ some _ ↦ true | none ↦ later ]

-- strings.TrimRight(s, "/")
unfoldable pub trim_slashes : String → String
trim_slashes [] = []
trim_slashes (c ∷ s) =
    let rest = trim_slashes s in
    if nat_eq (code c) b'/' then elim rest [ [] ↦ [] | d ∷ t ↦ c ∷ d ∷ t ] else c ∷ rest

-- `needle` stands somewhere in the text.
abbrev pub Contains : String → String → Type 0
Contains needle s =
    (front : String) × (back : String) × (s ≡ String.◌++◌ front (String.◌++◌ needle back))

pub strip_prefix_sound : (p s t : String) → strip_prefix p s ≡ some t → s ≡ String.◌++◌ p t
unfolding strip_prefix
strip_prefix_sound [] s t e = rw nil-append (cc e)
strip_prefix_sound (c ∷ p) [] t e = cc e
strip_prefix_sound (c ∷ p) (d ∷ s) t e = elim (Bool-cases (nat_eq (code c) (code d))) [
  | inl same ↦
      let here : c ≡ d = Char-path c d (ground arith) in
      let rest : s ≡ String.◌++◌ p t = strip_prefix_sound p s t (rw (same, strip_prefix) at e) in
      rw (cons-append, here, rest) refl
  | inr other ↦ cc (rw (other, strip_prefix) at e)
]

pub contains_text-Contains : (needle s : String) → contains_text needle s ≡ true → Contains needle s
unfolding contains_text
contains_text-Contains needle [] e = ([], [], rw (nil-append, (eq_iff needle []).0 e) refl)
contains_text-Contains needle (c ∷ s) e = elim (Option-cases (strip_prefix needle (c ∷ s))) [
  | inl n ↦
      let (front, back, eq) = contains_text-Contains needle s (rw (n, contains_text) at e) in
      (c ∷ front, back, rw (cons-append, eq) refl)
  | inr (t, h) ↦ ([], t, rw nil-append (strip_prefix_sound needle (c ∷ s) t h))
]

found_here :
    (needle s back : String) → s ≡ String.◌++◌ needle back → strip_prefix needle s ≡ some back
found_here needle s back e = rw e (strip_prefix-append needle back)

empty_append : (s t : String) → [] ≡ String.◌++◌ s t → s ≡ []
empty_append [] t e = refl
empty_append (c ∷ s) t e = let k : [] ≡ c ∷ String.◌++◌ s t = rw⁻¹ (cons-append) e in cc k

pub Contains-contains_text : (needle s : String) → Contains needle s → contains_text needle s ≡ true
unfolding contains_text
Contains-contains_text needle [] (front, back, e) =
    let f : front ≡ [] = empty_append front (String.◌++◌ needle back) e in
    let n : [] ≡ String.◌++◌ needle back =
      subst (λ p. [] ≡ String.◌++◌ p (String.◌++◌ needle back)) f e
      ∙ nil-append (String.◌++◌ needle back) in
    (eq_iff needle []).1 (empty_append needle back n)
Contains-contains_text needle (c ∷ s) ([], back, e) =
    let h : strip_prefix needle (c ∷ s) ≡ some back =
      found_here needle (c ∷ s) back (e ∙ nil-append (String.◌++◌ needle back)) in
    rw (h, contains_text) refl
Contains-contains_text needle (c ∷ s) (d ∷ front, back, e) =
    let k : s ≡ String.◌++◌ front (String.◌++◌ needle back) =
      cc (e, cons-append d front (String.◌++◌ needle back)) in
    let later : contains_text needle s ≡ true = Contains-contains_text needle s (front, back, k) in
    elim (Option-cases (strip_prefix needle (c ∷ s))) [
      | inl n ↦ rw (n, contains_text) later
      | inr (t, h) ↦ rw (h, contains_text) refl
    ]
