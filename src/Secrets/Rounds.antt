-- ===== src/Secrets/Rounds.antt =====
-- The rounds of `ReplaceAllStringFunc` in internal/controller/secret_substitution.go.
use Prim.Native.String
use Prim.Native.String.{[], ◌∷◌}
use Prim.Native.Char.{Char, code}
use text.Mathlib.TextLemmas.{length-cons, length-append}
use rpc_operator.Prelude.{
  suc, ◌+◌, ◌≤◌, ◌≡◌, refl, inl, inr, String, Option, none, some, if◌then◌else◌, Bool-cases, arith,
}
use rpc_operator.Prelude.Texts.{strip_prefix}
use rpc_operator.Prelude.Find.{strip_prefix_sound}
use rpc_operator.Secrets.{
  is_name_char, Split, span_name, cut_close, Match, starts_name, match_end, match_at,
}

span_name-count : (s : String) → String.count (span_name s).back ≤ String.count s
unfolding span_name
span_name-count [] = omega arith
span_name-count (c ∷ s) = elim (Bool-cases (is_name_char (code c))) [
  | inl y ↦ rw (y, length-cons) (grind (arith, span_name-count s))
  | inr n ↦ rw n (omega arith)
]

cut_close-count :
    (s : String) (r : Split) → cut_close s ≡ some r → String.count r.back ≤ String.count s
unfolding cut_close
cut_close-count [] r e = absurd (cc e)
cut_close-count (c ∷ s) r e = grind (arith, length-cons c s, cut_close-count s)

match_end-count :
    (name s : String) (m : Match) → match_end name s ≡ some m → String.count m.rest ≤ String.count s
unfolding match_end
match_end-count name [] m e = absurd (cc e)
match_end-count name (c ∷ s) m e = grind (arith, length-cons c s, cut_close-count s)

pub match_at-count :
    (s : String) (m : Match) → match_at s ≡ some m → suc (String.count m.rest) ≤ String.count s
unfolding match_at
match_at-count s m e = behind (strip_prefix "${" s) (λ t found. strip_prefix_sound "${" s t found) e
  where
    behind :
        (opened : Option String)
        → ((t : String) → opened ≡ some t → s ≡ String.◌++◌ "${" t)
        → elim opened [
          | none ↦ none
          | some t ↦
              let parts = span_name t in
              if starts_name t then match_end parts.front parts.back else none
        ]
          ≡ some m
        → suc (String.count m.rest) ≤ String.count s
    behind none sound e = absurd (cc e)
    behind (some t) sound e = elim (Bool-cases (starts_name t)) [
      | inl y ↦
          let matched : match_end (span_name t).front (span_name t).back ≡ some m =
            grind (arith, e, y) in
          let inside : String.count m.rest ≤ String.count (span_name t).back =
            match_end-count _ _ m matched in
          let front : String.count (span_name t).back ≤ String.count t = span_name-count t in
          let two : String.count s ≡ 2 + String.count t =
            rw (sound t refl) (length-append "${" t) in
          omega arith
      | inr n ↦ grind (arith, e, n)
    ]

count-cons-zero : (c : Char) (s : String) → String.count (c ∷ s) ≤ 0 → ⊥
count-cons-zero c s b = grind (arith, length-cons c s)
