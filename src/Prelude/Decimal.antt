-- ===== src/Prelude/Decimal.antt =====
-- Go's `%d` and `strconv.Atoi`, and that the one reads what the other prints.
use Prim.Native.Char.{Char, code}
use Prim.Native.String
use Prim.Native.String.{String, [], ◌∷◌}
use Prim.Native.Nat.{ℕ, zero, suc, ◌+◌, ◌-◌, ◌*◌, ◌/◌, ◌%◌, ◌^◌, ◌≤◌, ◌<◌}
use mathlib.Core.Path.{◌≡◌, refl}
use mathlib.Core.Logic.{inl, inr}
use mathlib.Core.Bool.{true, false, ◌&&◌}
use mathlib.Core.Option.{Option, none, some}
use native.Mathlib.Omega.{arith}
use rpc_operator.Prelude.Tests.{ltb, leb, nat_eq, if◌then◌else◌, Bool-cases}
use rpc_operator.Prelude.Int.{ℤ, pos, negsuc}

unfoldable pub digit : ℕ → Char
digit d =
    if nat_eq d 0
    then "0"
    else if nat_eq d 1
    then "1"
    else if nat_eq d 2
    then "2"
    else if nat_eq d 3
    then "3"
    else if nat_eq d 4
    then "4"
    else if nat_eq d 5
    then "5"
    else if nat_eq d 6
    then "6"
    else if nat_eq d 7
    then "7"
    else if nat_eq d 8
    then "8"
    else "9"

pub code-digit : (d : ℕ) → d < 10 → code (digit d) ≡ 48 + d
unfolding digit
code-digit zero h = refl
code-digit (suc zero) h = refl
code-digit (suc (suc zero)) h = refl
code-digit (suc (suc (suc zero))) h = refl
code-digit (suc (suc (suc (suc zero)))) h = refl
code-digit (suc (suc (suc (suc (suc zero))))) h = refl
code-digit (suc (suc (suc (suc (suc (suc zero)))))) h = refl
code-digit (suc (suc (suc (suc (suc (suc (suc zero))))))) h = refl
code-digit (suc (suc (suc (suc (suc (suc (suc (suc zero)))))))) h = refl
code-digit (suc (suc (suc (suc (suc (suc (suc (suc (suc zero))))))))) h = refl
code-digit (suc (suc (suc (suc (suc (suc (suc (suc (suc (suc n)))))))))) h = absurd (omega arith)

-- The digits of `n` in front of `out`; a number has no more digits than the fuel it starts with.
unfoldable pub emit : ℕ → ℕ → String → String
unfolding digit
emit zero n out = out
emit (suc fuel) n out =
    let c = digit (n % 10) in
    elim (ltb n 10) [ true ↦ c ∷ out | false ↦ emit fuel (n / 10) (c ∷ out) ]

unfoldable pub itoa : ℕ → String
unfolding emit
itoa n = emit (suc n) n ""

-- `%d` of a signed number
unfoldable pub itoa_int : ℤ → String
itoa_int (pos n) = itoa n
itoa_int (negsuc n) = String.◌++◌ "-" (itoa (suc n))

-- The value that digits spell behind `n`.
unfoldable pub scan_digits : String → ℕ → Option ℕ
scan_digits [] n = some n
scan_digits (c ∷ s) n =
    let rest = scan_digits s (n * 10 + (code c - 48)) in
    if leb 48 (code c) && leb (code c) 57 then rest else none

-- one or more digits
unfoldable pub unsigned : String → Option ℕ
unfolding scan_digits
unsigned [] = none
unsigned (c ∷ s) = scan_digits (c ∷ s) 0

abbrev in_range : (ℕ → ℤ) → ℕ → Option ℕ → Option ℤ
in_range sign bound none = none
in_range sign bound (some n) = if leb n bound then some (sign n) else none

abbrev negate : ℕ → ℤ
negate zero = pos 0
negate (suc n) = negsuc n

-- `strconv.Atoi` with a 64-bit int: an optional sign, then digits; `none` is the error.
unfoldable pub atoi : String → Option ℤ
unfolding unsigned
atoi [] = none
atoi (c ∷ s) =
    if nat_eq (code c) b'-'
    then in_range negate (2 ^ 63) (unsigned s)
    else if nat_eq (code c) b'+'
    then in_range pos (2 ^ 63 - 1) (unsigned s)
    else in_range pos (2 ^ 63 - 1) (unsigned (c ∷ s))

scan_digits-emit :
    (fuel n : ℕ) (out : String) → n < fuel → scan_digits (emit fuel n out) 0 ≡ scan_digits out n
unfolding emit scan_digits
scan_digits-emit zero n out h = elim h [ ]
scan_digits-emit (suc fuel) n out h =
    ground (arith, code-digit (n % 10), scan_digits-emit fuel (n / 10) (digit (n % 10) ∷ out))

-- The print begins with a digit.
record BeginsWithDigit (s : String) : Type 0 where
  first : Char
  rest : String
  shape : s ≡ first ∷ rest
  low : 48 ≤ code first
  high : code first ≤ 57

emit-BeginsWithDigit : (fuel n : ℕ) (out : String) → n < fuel → BeginsWithDigit (emit fuel n out)
unfolding emit
emit-BeginsWithDigit zero n out h = elim h [ ]
emit-BeginsWithDigit (suc fuel) n out h = elim (Bool-cases (ltb n 10)) [
  | inl e ↦
      rw (e, emit)
        (record {
          first = digit (n % 10);
          rest = out;
          shape = refl;
          low = omega (arith, code-digit (n % 10) (omega arith));
          high = omega (arith, code-digit (n % 10) (omega arith));
        })
  | inr e ↦ rw (e, emit) (emit-BeginsWithDigit fuel (n / 10) (digit (n % 10) ∷ out) (ground arith))
]

atoi_digits :
    (s : String) (n : ℕ)
    → BeginsWithDigit s
    → scan_digits s 0 ≡ some n
    → n < 2 ^ 63
    → atoi s ≡ some (pos n)
unfolding atoi
atoi_digits [] n b h fits = cc b.shape
atoi_digits (c ∷ s) n b h fits = ground (arith, b.shape, b.low, b.high)

-- `Atoi` reads back the decimal print of every number that an int holds.
pub atoi-itoa : (n : ℕ) → n < 2 ^ 63 → atoi (itoa n) ≡ some (pos n)
unfolding itoa
atoi-itoa n fits =
    atoi_digits (emit (suc n) n "") n (emit-BeginsWithDigit (suc n) n "" (omega arith))
      (unfold scan_digits in scan_digits-emit (suc n) n "" (omega arith)) fits

in_range-fits : (r : Option ℕ) (n : ℕ) → in_range pos (2 ^ 63 - 1) r ≡ some (pos n) → n < 2 ^ 63
in_range-fits none n e = ground arith
in_range-fits (some m) n e = ground arith

in_range-negate : (r : Option ℕ) (n : ℕ) → in_range negate (2 ^ 63) r ≡ some (pos n) → n < 2 ^ 63
in_range-negate none n e = ground arith
in_range-negate (some zero) n e = ground arith
in_range-negate (some (suc m)) n e = ground arith

-- What `Atoi` reads without a minus sign fits in an int.
pub atoi-fits : (s : String) (n : ℕ) → atoi s ≡ some (pos n) → n < 2 ^ 63
unfolding atoi
atoi-fits [] n e = ground arith
atoi-fits (c ∷ s) n e = elim (Bool-cases (nat_eq (code c) b'-')) [
  | inl m ↦ in_range-negate (unsigned s) n (rw m at e)
  | inr m ↦ elim (Bool-cases (nat_eq (code c) b'+')) [
    | inl p ↦ in_range-fits (unsigned s) n (rw (m, p) at e)
    | inr p ↦ in_range-fits (unsigned (c ∷ s)) n (rw (m, p) at e)
  ]
]
