-- ===== src/Scheduler/Bounds.antt =====
-- The range of the ordinals that are read from instance names (ordinalFromPodName of
-- internal/controller/cluster_scheduler.go).
use Prim.Native.String
use Prim.Native.String.{◌∷◌, []}
use rpc_operator.Prelude.{
  ℕ, suc, ◌-◌, ◌%◌, ◌^◌, ◌<◌, String, ◌≡◌, refl, ◌↔◌, inl, inr, some, arith, ltb, Bool-cases,
  Option-cases,
}
use rpc_operator.Prelude.Int.{ℤ, pos, negsuc, to_int32, to_int32_small}
use rpc_operator.Prelude.Decimal.{atoi, atoi-fits}
use rpc_operator.Prelude.Texts.{strip_prefix, strip_prefix-some}
use rpc_operator.Scheduler.{ordinal_of, ordinal_from_pod_name}

-- the numbers of an int32
abbrev pub IsInt32 : ℤ → Type 0
IsInt32 (pos n) = n < 2 ^ 31
IsInt32 (negsuc n) = n < 2 ^ 31

-- the 32 bits of such a number, read without a sign
abbrev pub bits : ℤ → ℕ
bits (pos n) = n
bits (negsuc n) = 2 ^ 32 - suc n

-- How an ordinal is read from an instance name.
pub record ReadFrom (name cluster : String) (o : ℤ) : Type 0 where
  pub suffix : String
  pub number : ℕ
  pub spelled : name ≡ String.◌++◌ (String.◌++◌ cluster "-") suffix
  pub parsed : atoi suffix ≡ some (pos number)
  pub fits : number < 2 ^ 63
  pub in_int32 : IsInt32 o
  pub low_bits : bits o ≡ number % 2 ^ 32
  pub exact : (o ≡ pos number) ↔ (number < 2 ^ 31)

to_int32-IsInt32 : (n : ℕ) → IsInt32 (to_int32 n)
unfolding to_int32
to_int32-IsInt32 n = elim (Bool-cases (ltb (n % 2 ^ 32) (2 ^ 31))) [
  | inl low ↦ rw low (ground arith)
  | inr high ↦ rw high (ground arith)
]

bits-to_int32 : (n : ℕ) → bits (to_int32 n) ≡ n % 2 ^ 32
unfolding to_int32
bits-to_int32 n = elim (Bool-cases (ltb (n % 2 ^ 32) (2 ^ 31))) [
  | inl low ↦ rw low refl
  | inr high ↦ rw high (ground arith)
]

to_int32-exact : (n : ℕ) → (to_int32 n ≡ pos n) ↔ (n < 2 ^ 31)
unfolding to_int32
to_int32-exact n = (λ e. ground arith, λ h. to_int32_small n h)

-- An ordinal that is read from an instance name is an int32. The name is the cluster's, a dash and a
-- text that Atoi reads as a number below 2 ^ 63, of which the ordinal has the low 32 bits; it is this
-- number exactly where the number is below 2 ^ 31.
pub ordinal_from_pod_name-ReadFrom :
    (name cluster : String) (o : ℤ)
    → ordinal_from_pod_name name cluster ≡ some o
    → ReadFrom name cluster o
unfolding ordinal_from_pod_name ordinal_of
ordinal_from_pod_name-ReadFrom name cluster o e =
    elim (Option-cases (strip_prefix (String.◌++◌ cluster "-") name)) [
      | inl cut ↦ ground (arith, e, cut)
      | inr (rest, cut) ↦ elim (Option-cases (atoi rest)) [
        | inl bad ↦ ground (arith, e, cut, bad)
        | inr (negsuc k, read) ↦ ground (arith, e, cut, read)
        | inr (pos k, read) ↦
            let is : to_int32 k ≡ o = ground (arith, e, cut, read) in
            rw (← is) record {
              suffix = rest;
              number = k;
              spelled = strip_prefix-some (String.◌++◌ cluster "-") name rest cut;
              parsed = read;
              fits = atoi-fits rest k read;
              in_int32 = to_int32-IsInt32 k;
              low_bits = bits-to_int32 k;
              exact = to_int32-exact k;
            }
      ]
    ]
