-- ===== src/Scheduler/Laws.antt =====
-- The scheduler's choice is a ready instance: the current one if that is ready, and else one that
-- no other ready instance beats.
use mathlib.Core.List.Memᴰ
use rpc_operator.Prelude.{
  ℕ, ◌<◌, ◌≤◌, String, ◌≡◌, refl, ◌↔◌, ◌⊎◌, inl, inr, true, false, Option, none, some, List, [],
  ◌∷◌, Memᴰ, ltb, Bool-cases, Option-cases, ◌≢◌, arith, sym,
}
use rpc_operator.Prelude.Int.{ℤ, pos, negsuc, int_eq, int_le, int_eq_iff}
use rpc_operator.Prelude.Sorting.{sort, sort-Memᴰ}
use rpc_operator.Prelude.Sorting.Sorted.{IsPreorder, IsSorted, sort-IsSorted}
use rpc_operator.Scheduler.{
  contains, best_of, choose, least_loaded_instance, pick_instance, ordinal_from_pod_name,
}

int_le-IsPreorder : IsPreorder int_le
int_le-IsPreorder = record { total = int_le_total; trans = int_le_trans }
  where
    int_le_total : (a b : ℤ) → int_le a b ≡ false → int_le b a ≡ true
    int_le_total (pos a) (pos b) h = ground arith
    int_le_total (negsuc a) (negsuc b) h = ground arith
    int_le_total (pos a) (negsuc b) h = refl
    int_le_total (negsuc a) (pos b) h = cc

    int_le_trans : (a b c : ℤ) → int_le a b ≡ true → int_le b c ≡ true → int_le a c ≡ true
    int_le_trans (pos a) (pos b) (pos c) h k = ground arith
    int_le_trans (pos a) (pos b) (negsuc c) h k = cc
    int_le_trans (pos a) (negsuc b) c h k = cc
    int_le_trans (negsuc a) (pos b) (pos c) h k = refl
    int_le_trans (negsuc a) (pos b) (negsuc c) h k = cc
    int_le_trans (negsuc a) (negsuc b) (pos c) h k = refl
    int_le_trans (negsuc a) (negsuc b) (negsuc c) h k = ground arith

contains_iff : (l : List ℤ) (o : ℤ) → (contains l o ≡ true) ↔ Memᴰ o l
contains_iff l o = (to l, from l)
  where
    to : (l : List ℤ) → contains l o ≡ true → Memᴰ o l
    to [] h = cc
    to (x ∷ l) h = elim (Bool-cases (int_eq x o)) [
      | inl e ↦ Memᴰ.head (sym ((int_eq_iff x o).0 e))
      | inr e ↦ Memᴰ.tail (to l (rw e at h))
    ]

    from : (l : List ℤ) → Memᴰ o l → contains l o ≡ true
    from [] m = elim m [ ]
    from (x ∷ l) (Memᴰ.head e) = rw ((int_eq_iff x o).1 (sym e)) refl
    from (x ∷ l) (Memᴰ.tail m) = rw (from l m) (ground arith)

module _ (load : ℤ → ℕ) where
  -- `o` has the smaller load, or the same load and not the larger ordinal.
  abbrev pub Beats : ℤ → ℤ → Type 0
  Beats o r = (load o < load r) ⊎ ((load o ≡ load r) × (int_le o r ≡ true))

  Beats-refl : (o : ℤ) → Beats o o
  Beats-refl (pos n) = inr (refl, ground arith)
  Beats-refl (negsuc n) = inr (refl, ground arith)

  Beats-trans : (a b c : ℤ) → Beats a b → Beats b c → Beats a c
  Beats-trans a b c (inl h) (inl k) = inl (omega arith)
  Beats-trans a b c (inl h) (inr k) = inl (omega (arith, k.0))
  Beats-trans a b c (inr h) (inl k) = inl (omega (arith, h.0))
  Beats-trans a b c (inr h) (inr k) =
      inr (omega (arith, h.0, k.0), int_le-IsPreorder.trans a b c h.1 k.1)

  best_of_lem :
      (best : ℤ) (rest : List ℤ)
      → IsSorted int_le (best ∷ rest)
      → Memᴰ (best_of load best rest) (best ∷ rest)
        × ((r : ℤ) → Memᴰ r (best ∷ rest) → Beats (best_of load best rest) r)
  unfolding best_of
  best_of_lem best [] h = (Memᴰ.head refl, λ r m. rw (Memᴰ.eq_of_singleton m) (Beats-refl best))
  best_of_lem best (o ∷ rest) ((le, les), (sorted, more)) =
      elim (Bool-cases (ltb (load o) (load best))) [
        | inl e ↦ rw e (
          Memᴰ.tail (best_of_lem o rest (sorted, more)).0,
          λ r m.
              from_smaller (best_of load o rest) (ground arith)
                (best_of_lem o rest (sorted, more)).1 r m,
        )
        | inr e ↦ rw e (
          skip (best_of_lem best rest (les, more)).0,
          λ r m.
              from_kept (best_of load best rest) (ground arith)
                (best_of_lem best rest (les, more)).1 r m,
        )
      ]
    where
      skip : {x : ℤ} → Memᴰ x (best ∷ rest) → Memᴰ x (best ∷ o ∷ rest)
      skip (Memᴰ.head e) = Memᴰ.head e
      skip (Memᴰ.tail m) = Memᴰ.tail (Memᴰ.tail m)

      from_smaller :
          (b : ℤ)
          → load o < load best
          → ((r : ℤ) → Memᴰ r (o ∷ rest) → Beats b r)
          → (r : ℤ) → Memᴰ r (best ∷ o ∷ rest)
          → Beats b r
      from_smaller b lt beats r (Memᴰ.head e) =
          rw e (Beats-trans b o best (beats o (Memᴰ.head refl)) (inl lt))
      from_smaller b lt beats r (Memᴰ.tail m) = beats r m

      beats_next : load best ≤ load o → Beats best o
      beats_next h = elim (Bool-cases (ltb (load best) (load o))) [
        | inl e ↦ inl (ground arith)
        | inr e ↦ inr (ground arith, le)
      ]

      from_kept :
          (b : ℤ)
          → load best ≤ load o
          → ((r : ℤ) → Memᴰ r (best ∷ rest) → Beats b r)
          → (r : ℤ) → Memᴰ r (best ∷ o ∷ rest)
          → Beats b r
      from_kept b h beats r (Memᴰ.head e) = rw e (beats best (Memᴰ.head refl))
      from_kept b h beats r (Memᴰ.tail (Memᴰ.head e)) =
          rw e (Beats-trans b best o (beats best (Memᴰ.head refl)) (beats_next h))
      from_kept b h beats r (Memᴰ.tail (Memᴰ.tail m)) = beats r (Memᴰ.tail m)

  choose_lem :
      (l : List ℤ) {o : ℤ}
      → IsSorted int_le l
      → choose load l ≡ some o
      → Memᴰ o l × ((r : ℤ) → Memᴰ r l → Beats o r)
  choose_lem [] h e = cc
  choose_lem (x ∷ l) {o} h e =
      let same : best_of load x l ≡ o = cc e in rw (← same) (best_of_lem x l h)

  -- `leastLoadedInstance` returns a ready ordinal that beats every ready one.
  pub least_loaded_instance-Beats :
      (ready : List ℤ) (o : ℤ)
      → least_loaded_instance ready load ≡ some o
      → Memᴰ o ready × ((r : ℤ) → Memᴰ r ready → Beats o r)
  unfolding least_loaded_instance
  least_loaded_instance-Beats ready o e =
      let (m, beats) =
        choose_lem (sort int_le ready) (sort-IsSorted int_le int_le-IsPreorder ready) e in
      ((sort-Memᴰ int_le ready).0 m, λ r k. beats r ((sort-Memᴰ int_le ready).1 k))

  least_loaded-none : (ready : List ℤ) → least_loaded_instance ready load ≡ none → ready ≡ []
  unfolding least_loaded_instance
  least_loaded-none [] e = refl
  least_loaded-none (x ∷ l) e =
      no_choice (sort int_le (x ∷ l)) e ((sort-Memᴰ int_le (x ∷ l)).1 (Memᴰ.head refl))
    where
      no_choice : (s : List ℤ) → choose load s ≡ none → Memᴰ x s → x ∷ l ≡ []
      no_choice [] e m = elim m [ ]
      no_choice (y ∷ s) e m = cc

-- What `pickInstance` promises of its choice.
pub record IsPlacement (current cluster : String) (ready : List ℤ) (load : ℤ → ℕ) (o : ℤ)
    : Type 0 where
  pub is_ready : Memᴰ o ready
  pub sticky : (c : ℤ) → ordinal_from_pod_name current cluster ≡ some c → Memᴰ c ready → o ≡ c
  pub least :
      (ordinal_from_pod_name current cluster ≢ some o) → (r : ℤ) → Memᴰ r ready → Beats load o r

abbrev pub Picks : String → String → List ℤ → (ℤ → ℕ) → Option ℤ → Type 0
Picks current cluster ready load none = ready ≡ []
Picks current cluster ready load (some o) = IsPlacement current cluster ready load o

module _ (current cluster : String) (ready : List ℤ) (load : ℤ → ℕ) where
  fresh :
      ((c : ℤ) → ordinal_from_pod_name current cluster ≡ some c → ¬ Memᴰ c ready)
      → (o : Option ℤ) → least_loaded_instance ready load ≡ o
      → Picks current cluster ready load o
  fresh gone none e = least_loaded-none load ready e
  fresh gone (some o) e =
      let (m, beats) = least_loaded_instance-Beats load ready o e in
      record { is_ready = m; sticky = λ c h k. absurd (gone c h k); least = λ _. beats }

  kept :
      (c : ℤ)
      → ordinal_from_pod_name current cluster ≡ some c
      → Memᴰ c ready
      → IsPlacement current cluster ready load c
  kept c e m = record {
    is_ready = m;
    sticky = λ d h _. cc (e, h);
    least = λ other. absurd (other e);
  }

  -- `pickInstance` chooses a ready instance whenever there is one; it keeps the current instance
  -- while that is ready, and otherwise takes one with the least load, the lowest ordinal among those.
  pub pick_instance-Picks :
      Picks current cluster ready load (pick_instance current cluster ready load)
  unfolding pick_instance
  pick_instance-Picks = elim (Option-cases (ordinal_from_pod_name current cluster)) [
    | inl e ↦ rw (e, pick_instance) (fresh (λ c h. cc (e, h)) _ refl)
    | inr (c, e) ↦ elim (Bool-cases (contains ready c)) [
      | inl k ↦ rw (e, pick_instance, k) (kept c e ((contains_iff ready c).0 k))
      | inr k ↦
          rw (e, pick_instance, k)
            (fresh
              (λ d h m.
                let same : c ≡ d = cc (e, h) in cc (k, (contains_iff ready c).1 (rw same m)))
              _ refl)
    ]
  ]
