-- ===== src/Project/Cycle/Paths.antt =====
-- What the search relies on about its path, its walks and the number of white nodes.
use rpc_operator.Prelude.{
  ℕ, suc, ◌+◌, ◌≤◌, String, false, ◌≡◌, refl, inl, inr, List, [], ◌∷◌, ◌++◌, Memᴰ, some, ◌==◌,
  Text-cases, eq_refl, arith, length, ap, subst,
}
use rpc_operator.Project.Types.{ProjectRoute}
use rpc_operator.Project.Cycle.Graph.{Edge, IsWalk}
use rpc_operator.Project.Cycle.Search.{Color, white, gray, black, paint, drop_last, suffix_from}

pub drop_last-snoc : (l : List String) (x : String) → drop_last (l ++ x ∷ []) ≡ l
unfolding drop_last
drop_last-snoc [] x = refl
drop_last-snoc (y ∷ []) x = refl
drop_last-snoc (y ∷ z ∷ l) x = ap (λ t. y ∷ t) (drop_last-snoc (z ∷ l) x)

pub suffix_from-snoc_self :
    (m : String) (l : List String) → (s : List String) × (suffix_from m (l ++ m ∷ []) ≡ some s)
unfolding suffix_from
suffix_from-snoc_self m [] = (m ∷ [], rw (eq_refl m))
suffix_from-snoc_self m (x ∷ l) = elim (Text-cases x m) [
  | inl same ↦ (x ∷ (l ++ m ∷ []), rw (same, eq_refl m))
  | inr other ↦ let (s, h) = suffix_from-snoc_self m l in (s, rw other h)
]

pub suffix_from-snoc :
    (m x : String) (l : List String) {s : List String}
    → suffix_from m l ≡ some s
    → (s' : List String) × (suffix_from m (l ++ x ∷ []) ≡ some s')
unfolding suffix_from
suffix_from-snoc m x [] h = cc
suffix_from-snoc m x (y ∷ l) h = elim (Text-cases y m) [
  | inl same ↦ (y ∷ (l ++ x ∷ []), rw (same, eq_refl m))
  | inr other ↦
      let (s', k) = suffix_from-snoc m x l (rw (other, suffix_from) at h) in (s', rw other k)
]

pub suffix_from-snoc_ne :
    (m x : String) (l : List String) {s : List String}
    → (x == m) ≡ false
    → suffix_from m (l ++ x ∷ []) ≡ some s
    → (s' : List String) × (suffix_from m l ≡ some s')
unfolding suffix_from
suffix_from-snoc_ne m x [] ne h = cc (ne, h)
suffix_from-snoc_ne m x (y ∷ l) ne h = elim (Text-cases y m) [
  | inl same ↦ (y ∷ l, rw (same, eq_refl m))
  | inr other ↦
      let (s', k) = suffix_from-snoc_ne m x l ne (rw (other, suffix_from) at h) in (s', rw other k)
]

module _ (routes : List ProjectRoute) where
  IsWalk-tail : (x : String) (l : List String) → IsWalk routes (x ∷ l) → IsWalk routes l
  IsWalk-tail x [] h = tt
  IsWalk-tail x (y ∷ l) h = h.1

  pub IsWalk-snoc :
      (l : List String) {n m : String}
      → IsWalk routes (l ++ n ∷ [])
      → Edge routes n m
      → IsWalk routes ((l ++ n ∷ []) ++ m ∷ [])
  IsWalk-snoc [] h e = (e, tt)
  IsWalk-snoc (x ∷ []) h e = (h.0, (e, tt))
  IsWalk-snoc (x ∷ y ∷ l) h e = (h.0, IsWalk-snoc (y ∷ l) h.1 e)

  -- what is cut off the path begins with the node and is a walk, whatever follows it
  pub suffix_from-IsWalk :
      (m : String) (l after : List String) {s : List String}
      → suffix_from m l ≡ some s
      → IsWalk routes (l ++ after)
      → (rest : List String) × (s ≡ m ∷ rest) × IsWalk routes (s ++ after)
  unfolding suffix_from
  suffix_from-IsWalk m [] after h w = cc
  suffix_from-IsWalk m (y ∷ l) after {s} h w = elim (Text-cases y m) [
    | inl same ↦
        let e : some (m ∷ l) ≡ some s = rw (same, eq_refl m) at h in
        let cut : s ≡ m ∷ l = cc e in
        (l, cut, rw cut (subst (λ z. IsWalk routes (z ∷ (l ++ after))) same w))
    | inr other ↦
        suffix_from-IsWalk m l after (rw (other, suffix_from) at h) (IsWalk-tail y (l ++ after) w)
  ]

-- How many of the nodes are white.
abbrev is_white : Color → ℕ
is_white white = 1
is_white _ = 0

pub whites : (String → Color) → List String → ℕ
whites color [] = 0
whites color (n ∷ ns) = is_white (color n) + whites color ns

whites-le_one : (c d : Color) → (d ≡ white → c ≡ white) → is_white d ≤ is_white c
whites-le_one c white h = rw (h refl) (omega arith)
whites-le_one c gray h = omega arith
whites-le_one c black h = omega arith

pub whites-le :
    (c d : String → Color) (ns : List String)
    → ((m : String) → d m ≡ white → c m ≡ white)
    → whites d ns ≤ whites c ns
unfolding whites
whites-le c d [] h = omega arith
whites-le c d (n ∷ ns) h = omega (arith, whites-le_one (c n) (d n) (h n), whites-le c d ns h)

pub whites-pos :
    (c : String → Color) (ns : List String) {n : String} → Memᴰ n ns → c n ≡ white → 1 ≤ whites c ns
unfolding whites
whites-pos c [] m h = elim m [ ]
whites-pos c (n' ∷ ns) (Memᴰ.head e) h = rw (← e, h) (omega arith)
whites-pos c (n' ∷ ns) (Memᴰ.tail m) h = omega (arith, whites-pos c ns m h)

paint-white :
    (n : String) (c : String → Color) (m : String) → paint n gray c m ≡ white → c m ≡ white
paint-white n c m h = ground arith

-- to paint a white node gray takes one off the count
pub whites-paint :
    (c : String → Color) (ns : List String) {n : String}
    → Memᴰ n ns
    → c n ≡ white
    → suc (whites (paint n gray c) ns) ≤ whites c ns
unfolding whites
whites-paint c [] m h = elim m [ ]
whites-paint c (n' ∷ ns) {n} (Memᴰ.head e) h =
    rw (← e, h, eq_refl n) (omega (arith, whites-le c (paint n gray c) ns (λ m. paint-white n c m)))
whites-paint c (n' ∷ ns) {n} (Memᴰ.tail m) h =
    omega
      (arith, whites-le_one (c n') (paint n gray c n') (paint-white n c n'), whites-paint c ns m h)

pub whites-le-length : (c : String → Color) (ns : List String) → whites c ns ≤ length ns
unfolding whites
whites-le-length c [] = omega arith
whites-le-length c (n ∷ ns) = ground (arith, whites-le-length c ns)
