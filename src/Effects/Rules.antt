-- ===== src/Effects/Rules.antt =====
-- The rules for sequencing, consequence and branching.
use rpc_operator.Prelude.{◌≡◌, refl, Bool, true, false, if◌then◌else◌, List, ◌∷◌}
use rpc_operator.Effects.{Prog, ret, ask, ◌>>=◌, Event, Every}

module _ {C : Type 0} {R : C → Type 0} {A : Type 0} (P : List (Event C R) → C → Type 0) where
  -- What holds of a program's result is what the rest of it may use.
  pub Every-bind :
      {B : Type 0} (Q : List (Event C R) → A → Type 0) (Q' : List (Event C R) → B → Type 0)
      (f : A → Prog C R B) (h : List (Event C R)) (m : Prog C R A)
      → Every P Q h m
      → ((h' : List (Event C R)) (a : A) → Q h' a → Every P Q' h' (f a))
      → Every P Q' h (m >>= f)
  Every-bind Q Q' f h (ret a) e k = k h a e
  Every-bind Q Q' f h (ask c next) (p, e) k =
      (p, λ r. Every-bind Q Q' f (record { call = c; reply = r } ∷ h) (next r) (e r) k)

  pub Every-if :
      (Q : List (Event C R) → A → Type 0) (h : List (Event C R)) (b : Bool) (m n : Prog C R A)
      → (b ≡ true → Every P Q h m)
      → (b ≡ false → Every P Q h n)
      → Every P Q h (if b then m else n)
  Every-if Q h true m n km kn = km refl
  Every-if Q h false m n km kn = kn refl

  -- Weaker promises on the results.
  pub Every-map :
      (Q Q' : List (Event C R) → A → Type 0)
      → ((h' : List (Event C R)) (a : A) → Q h' a → Q' h' a)
      → (h : List (Event C R)) (m : Prog C R A) → Every P Q h m
      → Every P Q' h m
  Every-map Q Q' weaker h (ret a) e = weaker h a e
  Every-map Q Q' weaker h (ask c next) (p, e) =
      (p, λ r. Every-map Q Q' weaker (record { call = c; reply = r } ∷ h) (next r) (e r))

-- A stricter policy allows what it allows.
pub Every-policy :
    {C : Type 0} {R : C → Type 0} {A : Type 0} (P P' : List (Event C R) → C → Type 0)
    (Q : List (Event C R) → A → Type 0)
    → ((h' : List (Event C R)) (c : C) → P h' c → P' h' c)
    → (h : List (Event C R)) (m : Prog C R A) → Every P Q h m
    → Every P' Q h m
Every-policy P P' Q weaker h (ret a) e = e
Every-policy P P' Q weaker h (ask c next) (p, e) = (
  weaker h c p,
  λ r. Every-policy P P' Q weaker (record { call = c; reply = r } ∷ h) (next r) (e r),
)
