-- ===== src/Prelude/Sorting.antt =====
-- Go's `sort.Strings`, `slices.Sort` and `sort.SliceStable`, as a stable insertion sort.
pub mod Sorted
use mathlib.Core.Path.{◌≡◌, refl}
use mathlib.Core.Logic.{◌⊎◌, inl, inr, ◌↔◌}
use mathlib.Core.Bool.{Bool, true, false}
use mathlib.Core.List.{List, [], ◌∷◌, Memᴰ, Perm}
use mathlib.Core.List.Memᴰ
use mathlib.Core.List.Perm
use Prim.Native.String.{String, compare}
use text.Mathlib.Text.{is_le}
use native.Mathlib.Omega.{arith}
use rpc_operator.Prelude.Tests.{if◌then◌else◌, Bool-cases}

module _ {ℓ} {A : Type ℓ} (le : A → A → Bool) where
  -- An element goes before the first one that is not smaller, so that equals keep their order.
  pub insert_sorted : A → List A → List A
  insert_sorted a [] = a ∷ []
  insert_sorted a (b ∷ l) = if le a b then a ∷ b ∷ l else b ∷ insert_sorted a l

  unfoldable pub sort : List A → List A
  unfolding insert_sorted
  sort [] = []
  sort (a ∷ l) = insert_sorted a (sort l)

  insert_sorted-perm : (a : A) (l : List A) → Perm (insert_sorted a l) (a ∷ l)
  unfolding insert_sorted
  insert_sorted-perm a [] = Perm.refl (a ∷ [])
  insert_sorted-perm a (b ∷ l) =
      elim (le a b) as (λ t. Perm (if t then a ∷ b ∷ l else b ∷ insert_sorted a l) (a ∷ b ∷ l)) [
        | true ↦ Perm.refl (a ∷ b ∷ l)
        | false ↦ Perm.trans (Perm.cons b (insert_sorted-perm a l)) (Perm.swap a b l)
      ]

  pub sort-perm : (l : List A) → Perm (sort l) l
  unfolding sort
  sort-perm [] = Perm.refl []
  sort-perm (a ∷ l) = Perm.trans (insert_sorted-perm a (sort l)) (Perm.cons a (sort-perm l))

  insert_sorted-Memᴰ :
      (a : A) (l : List A) {x : A} → ((x ≡ a) ⊎ Memᴰ x l) → Memᴰ x (insert_sorted a l)
  unfolding insert_sorted
  insert_sorted-Memᴰ a [] (inl e) = Memᴰ.head e
  insert_sorted-Memᴰ a [] (inr m) = Memᴰ.tail m
  insert_sorted-Memᴰ a (b ∷ l) {x} m =
      elim (le a b) as (λ t. Memᴰ x (if t then a ∷ b ∷ l else b ∷ insert_sorted a l)) [
        | true ↦ here m
        | false ↦ below m (λ k. insert_sorted-Memᴰ a l k)
      ]
    where
      here : (x ≡ a) ⊎ Memᴰ x (b ∷ l) → Memᴰ x (a ∷ b ∷ l)
      here (inl e) = Memᴰ.head e
      here (inr k) = Memᴰ.tail k

      below :
          (x ≡ a) ⊎ Memᴰ x (b ∷ l)
          → ((x ≡ a) ⊎ Memᴰ x l → Memᴰ x (insert_sorted a l))
          → Memᴰ x (b ∷ insert_sorted a l)
      below (inl e) rec = Memᴰ.tail (rec (inl e))
      below (inr (Memᴰ.head e)) rec = Memᴰ.head e
      below (inr (Memᴰ.tail k)) rec = Memᴰ.tail (rec (inr k))

  insert_sorted-Memᴰ_cases :
      (a : A) (l : List A) {x : A} → Memᴰ x (insert_sorted a l) → ((x ≡ a) ⊎ Memᴰ x l)
  unfolding insert_sorted
  insert_sorted-Memᴰ_cases a [] m = Memᴰ.cases_cons m
  insert_sorted-Memᴰ_cases a (b ∷ l) {x} m₀ =
      (elim (le a b)
          as (λ t.
            Memᴰ x (if t then a ∷ b ∷ l else b ∷ insert_sorted a l) → ((x ≡ a) ⊎ Memᴰ x (b ∷ l))) [
              | true ↦ λ m. Memᴰ.cases_cons m
              | false ↦ λ m. below (Memᴰ.cases_cons m) (λ k. insert_sorted-Memᴰ_cases a l k)
            ])
        m₀
    where
      below :
          (x ≡ b) ⊎ Memᴰ x (insert_sorted a l)
          → (Memᴰ x (insert_sorted a l) → (x ≡ a) ⊎ Memᴰ x l)
          → (x ≡ a) ⊎ Memᴰ x (b ∷ l)
      below (inl e) rec = inr (Memᴰ.head e)
      below (inr k) rec = elim (rec k) [ inl e ↦ inl e | inr m ↦ inr (Memᴰ.tail m) ]

  pub sort-Memᴰ : (l : List A) {x : A} → Memᴰ x (sort l) ↔ Memᴰ x l
  unfolding sort
  sort-Memᴰ [] = (λ m. m, λ m. m)
  sort-Memᴰ (a ∷ l) {x} = (
    λ m. to (insert_sorted-Memᴰ_cases a (sort l) m) (sort-Memᴰ l),
    λ m. insert_sorted-Memᴰ a (sort l) (from (Memᴰ.cases_cons m) (sort-Memᴰ l)),
  )
    where
      to : (x ≡ a) ⊎ Memᴰ x (sort l) → (Memᴰ x (sort l) ↔ Memᴰ x l) → Memᴰ x (a ∷ l)
      to (inl e) ih = Memᴰ.head e
      to (inr k) ih = Memᴰ.tail (ih.0 k)

      from : (x ≡ a) ⊎ Memᴰ x l → (Memᴰ x (sort l) ↔ Memᴰ x l) → (x ≡ a) ⊎ Memᴰ x (sort l)
      from (inl e) ih = inl e
      from (inr k) ih = inr (ih.1 k)

-- The order of Go's strings.
abbrev pub text_le : String → String → Bool
text_le s t = is_le (compare s t)
