-- ===== src/Secrets/Reading.antt =====
-- The variables that the regular expression of internal/controller/secret_substitution.go finds.
use Prim.Native.String
use Prim.Native.String.{[], ◌∷◌}
use Prim.Native.Char.{Char, code}
use text.Mathlib.TextLemmas.{cons-append}
use text.Mathlib.TextEquality.{Char-path}
use rpc_operator.Prelude.{
  ℕ, ◌≡◌, refl, ◌⊎◌, inl, inr, String, true, false, Option, none, some, nat_eq, if◌then◌else◌,
  Bool-cases, arith,
}
use rpc_operator.Prelude.Texts.{strip_prefix, strip_prefix-append}
use rpc_operator.Prelude.Find.{strip_prefix_sound}
use rpc_operator.Secrets.{
  is_name_start, is_name_char, Split, span_name, cut_close, starts_name, with_default, Match,
  match_end, match_at,
}
use rpc_operator.Secrets.Spans.{
  closing, colon, IsWord, HasNoBrace, joined, span_name-splits, span_name-IsWord, span_name-stops,
  cut_close-stops, cut_close-splits,
}

-- a letter or an underscore, and then letters, digits and underscores
abbrev pub IsName : String → Type 0
IsName [] = ⊥
IsName (c ∷ s) = (is_name_start (code c) ≡ true) × IsWord s

-- Behind the name stands a brace, or a colon, a default and a brace.
abbrev pub Closes : String → String → Match → Type 0
Closes name s m =
    (m.name ≡ name)
    × (((s ≡ closing ∷ m.rest) × (m.text ≡ String.◌++◌ "${" (String.◌++◌ name "}")))
        ⊎ ((d : String) × HasNoBrace d
            × (s ≡ colon ∷ String.◌++◌ d (closing ∷ m.rest))
            × (m.text ≡ String.◌++◌ "${" (String.◌++◌ name (String.◌++◌ ":" (String.◌++◌ d "}"))))))

-- The text begins with a variable, with a default or without.
abbrev pub IsVariable : String → Match → Type 0
IsVariable s m =
    (name : String) × (tail : String) × IsName name
    × (s ≡ String.◌++◌ "${" (String.◌++◌ name tail))
    × Closes name tail m

match_end-Closes : (name s : String) (m : Match) → match_end name s ≡ some m → Closes name s m
unfolding match_end
match_end-Closes name [] m e = absurd (cc e)
match_end-Closes name (c ∷ s) m e = elim (Bool-cases (nat_eq (code c) b'}')) [
  | inl y ↦ at_brace (Char-path c closing (ground arith)) (grind (arith, e, y))
  | inr n ↦ elim (Bool-cases (nat_eq (code c) b':')) [
    | inl y ↦
        at_colon (Char-path c colon (ground arith)) (cut_close s)
          (λ r found. cut_close-splits s r found) (rw (n, y, match_end) at e)
    | inr n' ↦ absurd (cc (rw (n, n', match_end) at e))
  ]
]
  where
    at_brace :
        c ≡ closing
        → some (record { name = name; text = String.◌++◌ "${" (String.◌++◌ name "}"); rest = s })
          ≡ some m
        → Closes name (c ∷ s) m
    at_brace same e' =
        let found : m
            ≡ record { name = name; text = String.◌++◌ "${" (String.◌++◌ name "}"); rest = s } =
          cc e' in
        rw (same, found) (refl, inl (refl, refl))

    at_colon :
        c ≡ colon
        → (cut : Option Split)
        → ((r : Split)
            → cut ≡ some r
            → (s ≡ String.◌++◌ r.front (closing ∷ r.back)) × HasNoBrace r.front)
        → with_default name cut ≡ some m
        → Closes name (c ∷ s) m
    at_colon same none splits e' = absurd (cc e')
    at_colon same (some r) splits e' =
        let found : m ≡ record {
          name = name;
          text = String.◌++◌ "${" (String.◌++◌ name (String.◌++◌ ":" (String.◌++◌ r.front "}")));
          rest = r.back;
        } =
          cc e' in
        let (split, clean) = splits r refl in
        rw (same, found) (refl, inr (r.front, clean, joined colon s _ split, refl))

front-IsName : (t : String) → starts_name t ≡ true → IsName (span_name t).front
unfolding span_name
front-IsName [] y = absurd (cc y)
front-IsName (c ∷ s) y = rw y (y, span_name-IsWord s)

pub match_at-IsVariable : (s : String) (m : Match) → match_at s ≡ some m → IsVariable s m
unfolding match_at
match_at-IsVariable s m e =
    behind (strip_prefix "${" s) (λ t found. strip_prefix_sound "${" s t found) e
  where
    opened_by : (t u : String) → t ≡ u → s ≡ String.◌++◌ "${" t → s ≡ String.◌++◌ "${" u
    opened_by t u same found = rw found (rw same refl)

    behind :
        (opened : Option String)
        → ((t : String) → opened ≡ some t → s ≡ String.◌++◌ "${" t)
        → elim opened [
          | none ↦ none
          | some t ↦
              let parts = span_name t in
              if starts_name t then match_end parts.front parts.back else none
        ]
          ≡ some m
        → IsVariable s m
    behind none sound e = absurd (cc e)
    behind (some t) sound e = elim (Bool-cases (starts_name t)) [
      | inl y ↦
          let matched : match_end (span_name t).front (span_name t).back ≡ some m =
            grind (arith, e, y) in
          (
            (span_name t).front,
            (span_name t).back,
            front-IsName t y,
            opened_by t _ (span_name-splits t) (sound t refl),
            match_end-Closes _ _ m matched,
          )
      | inr n ↦ grind (arith, e, n)
    ]

name_starts : (name tail : String) → IsName name → starts_name (String.◌++◌ name tail) ≡ true
name_starts [] tail w = absurd w
name_starts (c ∷ s) tail (h, w) = rw cons-append h

start_in_name : (c : ℕ) → is_name_start c ≡ true → is_name_char c ≡ true
start_in_name c h = rw (h, is_name_char) refl

IsName-IsWord : (name : String) → IsName name → IsWord name
IsName-IsWord [] w = absurd w
IsName-IsWord (c ∷ s) (h, w) = (start_in_name (code c) h, w)

-- what the pattern does behind the opening brace
abbrev reading : String → Option Match
reading t =
    let parts = span_name t in if starts_name t then match_end parts.front parts.back else none

opened :
    (found : Option String) (t : String)
    → found ≡ some t
    → elim found [ none ↦ none | some t' ↦ reading t' ] ≡ reading t
opened found t e = rw e refl

match_at-opened : (t : String) → match_at (String.◌++◌ "${" t) ≡ reading t
unfolding match_at
match_at-opened t = opened (strip_prefix "${" (String.◌++◌ "${" t)) t (strip_prefix-append "${" t)

after_open :
    (name : String) (c : Char) (x : String) (m : Match)
    → IsName name
    → is_name_char (code c) ≡ false
    → match_end name (c ∷ x) ≡ some m
    → match_at (String.◌++◌ "${" (String.◌++◌ name (c ∷ x))) ≡ some m
after_open name c x m w n e =
    rw
      (
        match_at-opened,
        name_starts name (c ∷ x) w,
        span_name-stops name c x (IsName-IsWord name w) n,
      )
      e

same_match :
    (m : Match) (name text : String)
    → m.name ≡ name
    → m.text ≡ text
    → some (record { name = name; text = text; rest = m.rest }) ≡ some m
same_match m name text e e' =
    let whole : ◌≡◌ {A = Match} (record { name = m.name; text = m.text; rest = m.rest })
        (record { name = name; text = text; rest = m.rest }) =
      rw (e, e') refl in
    cc whole

pub IsVariable-match_at : (s : String) (m : Match) → IsVariable s m → match_at s ≡ some m
unfolding match_end
IsVariable-match_at s m (name, tail, w, e, (n, inl (closed, t))) =
    rw (e, closed) (after_open name closing m.rest m w refl (same_match m name _ n t))
IsVariable-match_at s m (name, tail, w, e, (n, inr (d, clean, closed, t))) =
    rw (e, closed)
      (after_open name colon _ m w refl
        (rw (cut_close-stops d m.rest clean) (same_match m name _ n t)))
