-- ===== src/Secrets/Spans.antt =====
-- The repetitions in the regular expression of internal/controller/secret_substitution.go.
use Prim.Native.String
use Prim.Native.String.{[], ◌∷◌}
use Prim.Native.Char.{Char, char, code}
use text.Mathlib.TextLemmas.{nil-append, cons-append}
use text.Mathlib.TextEquality.{Char-path}
use rpc_operator.Prelude.{
  ◌≡◌, refl, inl, inr, String, true, false, Option, none, some, nat_eq, Bool-cases, arith,
}
use rpc_operator.Secrets.{is_name_char, Split, span_name, cut_close}

-- '}'
abbrev pub closing : Char
closing = char b'}' tt

-- ':'
abbrev pub colon : Char
colon = char b':' tt

abbrev pub IsWord : String → Type 0
IsWord [] = Unit
IsWord (c ∷ s) = (is_name_char (code c) ≡ true) × IsWord s

abbrev pub HasNoBrace : String → Type 0
HasNoBrace [] = Unit
HasNoBrace (c ∷ s) = (nat_eq (code c) b'}' ≡ false) × HasNoBrace s

pub joined : (c : Char) (s t : String) → s ≡ t → c ∷ s ≡ c ∷ t
joined c s t e = rw e refl

pub span_name-splits : (s : String) → s ≡ String.◌++◌ (span_name s).front (span_name s).back
unfolding span_name
span_name-splits [] = rw nil-append refl
span_name-splits (c ∷ s) = elim (Bool-cases (is_name_char (code c))) [
  | inl y ↦ rw (y, cons-append) (joined c s _ (span_name-splits s))
  | inr n ↦ rw (n, nil-append) refl
]

pub span_name-IsWord : (s : String) → IsWord (span_name s).front
unfolding span_name
span_name-IsWord [] = tt
span_name-IsWord (c ∷ s) = elim (Bool-cases (is_name_char (code c))) [
  | inl y ↦ rw y (y, span_name-IsWord s)
  | inr n ↦ rw n tt
]

pub span_name-stops :
    (f : String) (c : Char) (x : String)
    → IsWord f
    → is_name_char (code c) ≡ false
    → span_name (String.◌++◌ f (c ∷ x)) ≡ record { front = f; back = c ∷ x }
unfolding span_name
span_name-stops [] c x w n = rw (nil-append, span_name, n) refl
span_name-stops (d ∷ f) c x (h, w) n =
    rw (cons-append, span_name, h, span_name-stops f c x w n) refl

pub cut_close-stops :
    (d r : String)
    → HasNoBrace d
    → cut_close (String.◌++◌ d (closing ∷ r)) ≡ some (record { front = d; back = r })
unfolding cut_close
cut_close-stops [] r n = rw nil-append refl
cut_close-stops (c ∷ d) r (h, n) = rw (cons-append, cut_close, h, cut_close-stops d r n) refl

pub cut_close-splits :
    (s : String) (r : Split)
    → cut_close s ≡ some r
    → (s ≡ String.◌++◌ r.front (closing ∷ r.back)) × HasNoBrace r.front
unfolding cut_close
cut_close-splits [] r e = absurd (cc e)
cut_close-splits (c ∷ s) r e = elim (Bool-cases (nat_eq (code c) b'}')) [
  | inl y ↦ at_brace (Char-path c closing (ground arith)) (grind (arith, e, y))
  | inr n ↦
      behind (cut_close s) (λ r' found. cut_close-splits s r' found) n (rw (n, cut_close) at e)
]
  where
    at_brace :
        c ≡ closing
        → some (record { front = []; back = s }) ≡ some r
        → (c ∷ s ≡ String.◌++◌ r.front (closing ∷ r.back)) × HasNoBrace r.front
    at_brace same e' =
        let found : r ≡ record { front = []; back = s } = cc e' in
        rw (same, found, nil-append) (refl, tt)

    behind :
        (later : Option Split)
        → ((r' : Split)
            → later ≡ some r'
            → (s ≡ String.◌++◌ r'.front (closing ∷ r'.back)) × HasNoBrace r'.front)
        → nat_eq (code c) b'}' ≡ false
        → elim later [
          | none ↦ none
          | some r' ↦ some (record { front = c ∷ r'.front; back = r'.back })
        ]
          ≡ some r
        → (c ∷ s ≡ String.◌++◌ r.front (closing ∷ r.back)) × HasNoBrace r.front
    behind none rest n e' = absurd (cc e')
    behind (some r') rest n e' =
        let same : r ≡ record { front = c ∷ r'.front; back = r'.back } = cc e' in
        let (split, clean) = rest r' refl in rw (same, cons-append) (joined c s _ split, (n, clean))
