-- ===== src/Prelude/Int.antt =====
-- Signed integers, and the conversion of a 64-bit `int` to `int32`.
use rpc_operator.Prelude.Tests.{leb, nat_eq, ltb, if◌then◌else◌}
use Prim.Native.Nat.{ℕ, ◌-◌, ◌%◌, ◌^◌, ◌<◌}
use mathlib.Core.Path.{◌≡◌}
use mathlib.Core.Logic.{◌↔◌}
use mathlib.Core.Bool.{Bool, true, false}
use native.Mathlib.Omega.{arith}

-- `negsuc n` is -(n + 1).
pub data ℤ : Type 0 where
  pos : ℕ → ℤ
  negsuc : ℕ → ℤ

abbrev pub int_eq : ℤ → ℤ → Bool
int_eq (pos a) (pos b) = nat_eq a b
int_eq (negsuc a) (negsuc b) = nat_eq a b
int_eq _ _ = false

abbrev pub int_le : ℤ → ℤ → Bool
int_le (pos a) (pos b) = leb a b
int_le (pos a) (negsuc b) = false
int_le (negsuc a) (pos b) = true
int_le (negsuc a) (negsuc b) = leb b a

-- `int32(n)` for an `int` that is not negative: the low 32 bits, as a signed number.
unfoldable pub to_int32 : ℕ → ℤ
to_int32 n = let low = n % 2 ^ 32 in if ltb low (2 ^ 31) then pos low else negsuc (2 ^ 32 - low - 1)

pub int_eq_iff : (a b : ℤ) → (int_eq a b ≡ true) ↔ (a ≡ b)
int_eq_iff (pos a) (pos b) = (λ h. ground arith, λ h. ground arith)
int_eq_iff (negsuc a) (negsuc b) = (λ h. ground arith, λ h. ground arith)
int_eq_iff (pos a) (negsuc b) = (λ h. ground arith, λ h. ground arith)
int_eq_iff (negsuc a) (pos b) = (λ h. ground arith, λ h. ground arith)

pub to_int32_small : (n : ℕ) → n < 2 ^ 31 → to_int32 n ≡ pos n
unfolding to_int32
to_int32_small n h = ground arith
