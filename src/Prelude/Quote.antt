-- ===== src/Prelude/Quote.antt =====
-- Go's `%q` (`strconv.Quote`), for texts whose characters outside ASCII are printable.
use Prim.Native.String.{String, [], ◌∷◌}
use Prim.Native.Char.{Char, code}
use Prim.Native.Nat.{ℕ, ◌/◌, ◌%◌}
use mathlib.Core.Bool.{◌||◌}
use rpc_operator.Prelude.Tests.{ltb, nat_eq, if◌then◌else◌}
use rpc_operator.Prelude.Decimal.{digit}

unfoldable pub hex_digit : ℕ → Char
unfolding digit
hex_digit d =
    if ltb d 10
    then digit d
    else if nat_eq d 10
    then "a"
    else if nat_eq d 11
    then "b"
    else if nat_eq d 12
    then "c"
    else if nat_eq d 13
    then "d"
    else if nat_eq d 14
    then "e"
    else "f"

-- one character between the quotes, in front of the rest
unfoldable pub quote_char : Char → String → String
unfolding hex_digit
quote_char c s =
    let n = code c in
    if nat_eq n b'"'
    then "\\" ∷ "\"" ∷ s
    else if nat_eq n b'\\'
    then "\\" ∷ "\\" ∷ s
    else if nat_eq n 7
    then "\\" ∷ "a" ∷ s
    else if nat_eq n 8
    then "\\" ∷ "b" ∷ s
    else if nat_eq n 9
    then "\\" ∷ "t" ∷ s
    else if nat_eq n 10
    then "\\" ∷ "n" ∷ s
    else if nat_eq n 11
    then "\\" ∷ "v" ∷ s
    else if nat_eq n 12
    then "\\" ∷ "f" ∷ s
    else if nat_eq n 13
    then "\\" ∷ "r" ∷ s
    else if ltb n 32 || nat_eq n 127
    then "\\" ∷ "x" ∷ hex_digit (n / 16) ∷ hex_digit (n % 16) ∷ s
    else c ∷ s

unfoldable pub quote_rest : String → String
unfolding quote_char
quote_rest [] = "\"" ∷ []
quote_rest (c ∷ s) = quote_char c (quote_rest s)

unfoldable pub quote : String → String
unfolding quote_rest
quote s = "\"" ∷ quote_rest s
