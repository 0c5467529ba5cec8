-- ===== src/Secrets/Laws.antt =====
-- What `substituteSecrets` of internal/controller/secret_substitution.go does to a text.
use Prim.Native.String
use Prim.Native.String.{[], ◌∷◌}
use Prim.Native.Char.{Char}
use text.Mathlib.TextLemmas.{length-cons}
use rpc_operator.Prelude.{
  ℕ, zero, suc, ◌≤◌, ◌≡◌, refl, ◌↔◌, ◌⊎◌, inl, inr, String, Option, none, some, List, ◌∷◌,
  Option-cases, arith,
}
use rpc_operator.Api.{SecretRef}
use rpc_operator.Secrets.{
  Match, match_at, Values, value_of, replacement, replace_all, substitute_secrets,
}
use rpc_operator.Secrets.Rounds.{match_at-count}
use rpc_operator.Secrets.Reading.{IsVariable, match_at-IsVariable, IsVariable-match_at}

-- The variable with its value as the default, or as it was, where it has no value.
abbrev pub Valued : Values → Match → String → Type 0
Valued values m text =
    ((v : String) × (value_of m.name values ≡ some v)
      × (text ≡ String.◌++◌ "${" (String.◌++◌ m.name (String.◌++◌ ":" (String.◌++◌ v "}")))))
    ⊎ ((value_of m.name values ≡ none) × (text ≡ m.text))

-- From left to right: a variable is rewritten as a whole, and a character with which none begins is kept.
pub data Rewritten (values : Values) : String → String → Type 0 where
  ended : Rewritten values [] []
  kept :
      {c : Char} {s t : String}
      → ((m : Match) → ¬ IsVariable (c ∷ s) m)
      → Rewritten values s t
      → Rewritten values (c ∷ s) (c ∷ t)
  valued :
      {s t : String} (m : Match) (text : String)
      → IsVariable s m
      → Valued values m text
      → Rewritten values m.rest t
      → Rewritten values s (String.◌++◌ text t)

replacement-Valued : (values : Values) (m : Match) → Valued values m (replacement values m)
unfolding replacement
replacement-Valued values m = elim (Option-cases (value_of m.name values)) [
  | inl n ↦ rw (n, replacement) (inr (refl, refl))
  | inr (v, e) ↦ rw (e, replacement) (inl (v, refl, refl))
]

replace_all-Rewritten :
    (values : Values) (fuel : ℕ) (s : String)
    → String.count s ≤ fuel
    → Rewritten values s (replace_all values fuel s)
unfolding replace_all
replace_all-Rewritten values zero [] b = ended
replace_all-Rewritten values zero (c ∷ s) b = absurd (grind (arith, length-cons c s))
replace_all-Rewritten values (suc f) [] b = ended
replace_all-Rewritten values (suc f) (c ∷ s) b =
    round (replace_all-Rewritten values f) (match_at (c ∷ s)) refl
  where
    round :
        ((t : String) → String.count t ≤ f → Rewritten values t (replace_all values f t))
        → (found : Option Match) → match_at (c ∷ s) ≡ found
        → Rewritten values (c ∷ s) (elim found [
          | none ↦ c ∷ replace_all values f s
          | some m ↦ String.◌++◌ (replacement values m) (replace_all values f m.rest)
        ])
    round go none e =
        let tail : String.count s ≤ f = grind (arith, length-cons c s) in
        kept (λ m v. cc (IsVariable-match_at (c ∷ s) m v, e)) (go s tail)
    round go (some m) e =
        let less : suc (String.count m.rest) ≤ String.count (c ∷ s) = match_at-count (c ∷ s) m e in
        let back : String.count m.rest ≤ f = omega arith in
        valued m (replacement values m) (match_at-IsVariable (c ∷ s) m e)
          (replacement-Valued values m) (go m.rest back)

-- With a reference and a value at least, the text is rewritten from left to right: each variable of the
-- regular expression gets its value as its default, or stays as it is where it has none, and every character
-- at which no variable begins is kept.
pub substitute_secrets-Rewritten :
    (yaml_text : String) (r : SecretRef) (refs : List SecretRef) (v : String × String)
    (values : Values)
    → Rewritten (v ∷ values) yaml_text (substitute_secrets yaml_text (r ∷ refs) (v ∷ values))
unfolding substitute_secrets
substitute_secrets-Rewritten yaml_text r refs v values =
    replace_all-Rewritten (v ∷ values) (String.count yaml_text) yaml_text (omega arith)

-- The matcher finds a match at the beginning of a text just where a variable stands there, which is `${`, a
-- name and `}`, or `${`, a name, `:`, a default without a closing brace and `}`; and it finds this variable.
pub match_at_iff : (s : String) (m : Match) → (match_at s ≡ some m) ↔ IsVariable s m
match_at_iff s m = (match_at-IsVariable s m, IsVariable-match_at s m)
