-- ===== src/Prelude/Lists.antt =====
-- Lists under native lengths, membership, and the predicates by recursion that proofs use.
use Prim.Native.Nat.{ℕ, zero, suc, ◌+◌}
use mathlib.Core.Path.{◌≡◌, refl, subst, sym}
use mathlib.Core.Logic.{◌⊎◌, inl, inr}
use mathlib.Core.Bool.{Bool, true, false, ◌&&◌, ◌||◌}
use mathlib.Core.Option.{Option, none, some}
use mathlib.Core.List.{List, [], ◌∷◌, ◌++◌, Memᴰ}
use mathlib.Core.List.Memᴰ
use native.Mathlib.Omega.{arith}
use rpc_operator.Prelude.Tests.{Bool-cases}

module _ {ℓ} {A : Type ℓ} where
  abbrev pub length : List A → ℕ
  length [] = 0
  length (x ∷ xs) = suc (length xs)

  abbrev pub get_elem? : List A → ℕ → Option A
  get_elem? [] i = none
  get_elem? (x ∷ xs) zero = some x
  get_elem? (x ∷ xs) (suc i) = get_elem? xs i

  abbrev pub is_empty : List A → Bool
  is_empty [] = true
  is_empty (x ∷ xs) = false

  abbrev pub any : (A → Bool) → List A → Bool
  any p [] = false
  any p (x ∷ xs) = p x || any p xs

  abbrev pub all : (A → Bool) → List A → Bool
  all p [] = true
  all p (x ∷ xs) = p x && all p xs

  -- the elements that pass the test, in their order
  abbrev pub keep : (A → Bool) → List A → List A
  keep p [] = []
  keep p (x ∷ xs) = elim (p x) [ true ↦ x ∷ keep p xs | false ↦ keep p xs ]

  pub any-Memᴰ : (p : A → Bool) (l : List A) → any p l ≡ true → (x : A) × Memᴰ x l × (p x ≡ true)
  any-Memᴰ p [] e = cc e
  any-Memᴰ p (x ∷ l) e = elim (Bool-cases (p x)) [
    | inl hit ↦ (x, Memᴰ.head refl, hit)
    | inr miss ↦ let (y, m, hit) = any-Memᴰ p l (rw miss at e) in (y, Memᴰ.tail m, hit)
  ]

  pub Memᴰ-any : (p : A → Bool) (l : List A) (x : A) → Memᴰ x l → p x ≡ true → any p l ≡ true
  Memᴰ-any p [] x m e = elim m [ ]
  Memᴰ-any p (y ∷ l) x (Memᴰ.head same) e = rw (← same, e) refl
  Memᴰ-any p (y ∷ l) x (Memᴰ.tail m) e = rw (Memᴰ-any p l x m e) (ground arith)

  pub length-append : (xs ys : List A) → length (xs ++ ys) ≡ length xs + length ys
  length-append [] ys = omega arith
  length-append (x ∷ xs) ys = omega (arith, length-append xs ys)

  pub Memᴰ-append : {a : A} (xs : List A) {ys : List A} → Memᴰ a xs ⊎ Memᴰ a ys → Memᴰ a (xs ++ ys)
  Memᴰ-append xs (inl m) = Memᴰ.append_left _ m
  Memᴰ-append xs (inr m) = Memᴰ.append_right xs m

module _ {ℓ κ} {A : Type ℓ} (P : A → Type κ) where
  abbrev pub All : List A → Type κ
  All [] = Unit
  All (x ∷ xs) = P x × All xs

  pub All-append : (xs ys : List A) → All xs → All ys → All (xs ++ ys)
  All-append [] ys _ k = k
  All-append (x ∷ xs) ys (p, h) k = (p, All-append xs ys h k)

pub All-Memᴰ {ℓ κ} : {A : Type ℓ} (P : A → Type κ) (l : List A) → All P l → {a : A} → Memᴰ a l → P a
All-Memᴰ P [] h m = elim m [ ]
All-Memᴰ P (x ∷ l) (p, h) (Memᴰ.head e) = subst P (sym e) p
All-Memᴰ P (x ∷ l) (p, h) (Memᴰ.tail m) = All-Memᴰ P l h m

pub All-of_Memᴰ {ℓ κ} :
    {A : Type ℓ} {P : A → Type κ} (l : List A) → ((a : A) → Memᴰ a l → P a) → All P l
All-of_Memᴰ [] h = tt
All-of_Memᴰ (x ∷ l) h = (h x (Memᴰ.head refl), All-of_Memᴰ l (λ a m. h a (Memᴰ.tail m)))
