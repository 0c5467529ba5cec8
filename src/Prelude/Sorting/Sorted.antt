-- ===== src/Prelude/Sorting/Sorted.antt =====
-- `sort` sorts, by any test that is a total preorder.
use mathlib.Core.Path.{◌≡◌}
use mathlib.Core.Logic.{◌⊎◌, inl, inr}
use mathlib.Core.Bool.{Bool, true, false}
use mathlib.Core.List.{List, [], ◌∷◌, Memᴰ}
use rpc_operator.Prelude.Tests.{Bool-cases}
use rpc_operator.Prelude.Lists.{All, All-Memᴰ, All-of_Memᴰ}
use rpc_operator.Prelude.Sorting.{insert_sorted, insert_sorted-Memᴰ_cases, sort}

pub record IsPreorder {ℓ} {A : Type ℓ} (le : A → A → Bool) : Type ℓ where
  pub total : (a b : A) → le a b ≡ false → le b a ≡ true
  pub trans : (a b c : A) → le a b ≡ true → le b c ≡ true → le a c ≡ true

module _ {ℓ} {A : Type ℓ} (le : A → A → Bool) where
  -- Each element is at most those behind it.
  abbrev pub IsSorted : List A → Type 0
  IsSorted [] = Unit
  IsSorted (x ∷ l) = All (λ y. le x y ≡ true) l × IsSorted l

module _ {ℓ} {A : Type ℓ} (le : A → A → Bool) (order : IsPreorder le) where
  All-le_trans :
      (a b : A) (l : List A)
      → le a b ≡ true
      → All (λ y. le b y ≡ true) l
      → All (λ y. le a y ≡ true) l
  All-le_trans a b [] h k = tt
  All-le_trans a b (c ∷ l) h (k, ks) = (order.trans a b c h k, All-le_trans a b l h ks)

  insert_sorted-IsSorted : (a : A) (l : List A) → IsSorted le l → IsSorted le (insert_sorted le a l)
  unfolding insert_sorted
  insert_sorted-IsSorted a [] h = (tt, tt)
  insert_sorted-IsSorted a (b ∷ l) (h, hs) = elim (Bool-cases (le a b)) [
    | inl e ↦ rw e ((e, All-le_trans a b l e h), (h, hs))
    | inr e ↦ rw e (
      All-of_Memᴰ {P = λ y. le b y ≡ true} _ (λ x m. below e x (insert_sorted-Memᴰ_cases le a l m)),
      insert_sorted-IsSorted a l hs,
    )
  ]
    where
      below : le a b ≡ false → (x : A) → (x ≡ a) ⊎ Memᴰ x l → le b x ≡ true
      below e x (inl same) = rw same (order.total a b e)
      below e x (inr m) = All-Memᴰ (λ y. le b y ≡ true) l h m

  pub sort-IsSorted : (l : List A) → IsSorted le (sort le l)
  unfolding sort
  sort-IsSorted [] = tt
  sort-IsSorted (a ∷ l) = insert_sorted-IsSorted a (sort le l) (sort-IsSorted l)
