-- ===== src/Secrets.antt =====
-- Secret values in rendered configurations (internal/controller/secret_substitution.go). The regular
-- expression `\$\{([A-Za-z_][A-Za-z0-9_]*)(?::[^}]*)?\}` is written out as a matcher: at a position
-- it has one way to match at most.
mod Rounds
mod Spans
mod Reading
mod Laws
mod Tests
use Prim.Native.String
use Prim.Native.String.{[], ◌∷◌}
use Prim.Native.Char.{Char, code}
use rpc_operator.Prelude.{
  ℕ, zero, suc, String, Bool, true, false, ◌&&◌, ◌||◌, Option, none, some, List, [], ◌∷◌, ltb, leb,
  nat_eq, ◌==◌, if◌then◌else◌, is_empty,
}
use rpc_operator.Prelude.Texts.{strip_prefix}
use rpc_operator.Api.{SecretRef}

-- [A-Za-z_]
abbrev pub is_name_start : ℕ → Bool
is_name_start c = (leb b'A' c && leb c b'Z') || (leb b'a' c && leb c b'z') || nat_eq c b'_'

-- [A-Za-z0-9_]
abbrev pub is_name_char : ℕ → Bool
is_name_char c = is_name_start c || (leb b'0' c && leb c b'9')

-- A text in two parts.
pub record Split : Type 0 where
  pub front : String
  pub back : String

-- the longest beginning of name characters, and what follows
unfoldable pub span_name : String → Split
span_name [] = record { front = []; back = [] }
span_name (c ∷ s) =
    let rest = span_name s in
    if is_name_char (code c)
    then record { front = c ∷ rest.front; back = rest.back }
    else record { front = []; back = c ∷ s }

-- what stands before and behind the first closing brace
unfoldable pub cut_close : String → Option Split
cut_close [] = none
cut_close (c ∷ s) =
    let rest = cut_close s in
    if nat_eq (code c) b'}'
    then some (record { front = []; back = s })
    else elim rest [ none ↦ none | some r ↦ some (record { front = c ∷ r.front; back = r.back }) ]

-- One match: the variable's name, the whole matched text, and the text behind it.
pub record Match : Type 0 where
  pub name : String
  pub text : String
  pub rest : String

abbrev pub with_default : String → Option Split → Option Match
with_default name none = none
with_default name (some r) = some (record {
  name = name;
  text = String.◌++◌ "${" (String.◌++◌ name (String.◌++◌ ":" (String.◌++◌ r.front "}")));
  rest = r.back;
})

-- behind the name stands a brace, or a colon with a default and then a brace
unfoldable pub match_end : String → String → Option Match
unfolding cut_close
match_end name [] = none
match_end name (c ∷ s) =
    if nat_eq (code c) b'}'
    then some (record { name = name; text = String.◌++◌ "${" (String.◌++◌ name "}"); rest = s })
    else if nat_eq (code c) b':'
    then with_default name (cut_close s)
    else none

abbrev pub starts_name : String → Bool
starts_name [] = false
starts_name (c ∷ s) = is_name_start (code c)

-- the match at the beginning of the text
unfoldable pub match_at : String → Option Match
unfolding span_name match_end strip_prefix
match_at s = elim (strip_prefix "${" s) [
  | none ↦ none
  | some t ↦
      let parts = span_name t in if starts_name t then match_end parts.front parts.back else none
]

-- `values`, the latest assignment first
abbrev pub Values : Type 0
Values = List (String × String)

unfoldable pub value_of : String → Values → Option String
value_of name [] = none
value_of name ((k, v) ∷ values) = if k == name then some v else value_of name values

-- the function given to `ReplaceAllStringFunc`
unfoldable pub replacement : Values → Match → String
unfolding value_of
replacement values m = elim (value_of m.name values) [
  | none ↦ m.text
  | some v ↦ String.◌++◌ "${" (String.◌++◌ m.name (String.◌++◌ ":" (String.◌++◌ v "}")))
]

-- `ReplaceAllStringFunc`, from left to right; each round takes one character of the text or more,
-- so that its length is fuel enough
unfoldable pub replace_all : Values → ℕ → String → String
unfolding match_at replacement
replace_all values zero s = s
replace_all values (suc fuel) [] = []
replace_all values (suc fuel) (c ∷ s) = elim (match_at (c ∷ s)) [
  | none ↦ c ∷ replace_all values fuel s
  | some m ↦ String.◌++◌ (replacement values m) (replace_all values fuel m.rest)
]

unfoldable pub substitute_secrets : String → List SecretRef → Values → String
unfolding replace_all
substitute_secrets yaml_text [] values = yaml_text
substitute_secrets yaml_text (r ∷ refs) [] = yaml_text
substitute_secrets yaml_text (r ∷ refs) (v ∷ values) =
    replace_all (v ∷ values) (String.count yaml_text) yaml_text
