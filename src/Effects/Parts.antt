-- ===== src/Effects/Parts.antt =====
-- A program as a part of a larger one keeps what was shown of it.
use rpc_operator.Prelude.{List, ◌∷◌}
use rpc_operator.Effects.{Prog, ret, ask, translate, Event, Every}

module _ {C C' : Type 0} {R : C → Type 0} {R' : C' → Type 0} {A : Type 0} (f : C → C')
    (g : (c : C) → R' (f c) → R c) (Rel : List (Event C R) → List (Event C' R') → Type 0)
    (P : List (Event C R) → C → Type 0) (P' : List (Event C' R') → C' → Type 0)
    (Q : List (Event C R) → A → Type 0) (Q' : List (Event C' R') → A → Type 0) where
  -- `Rel` relates the history of the part to that of the whole.
  pub Every-translate :
      ((h : List (Event C R)) (h' : List (Event C' R')) (c : C) (r : R' (f c))
        → Rel h h'
        → Rel (record { call = c; reply = g c r } ∷ h) (record { call = f c; reply = r } ∷ h'))
      → ((h : List (Event C R)) (h' : List (Event C' R')) (c : C) → Rel h h' → P h c → P' h' (f c))
      → ((h : List (Event C R)) (h' : List (Event C' R')) (a : A) → Rel h h' → Q h a → Q' h' a)
      → (h : List (Event C R)) (h' : List (Event C' R')) (m : Prog C R A) → Rel h h'
      → Every P Q h m
      → Every P' Q' h' (translate f g m)
  Every-translate grow policy result h h' (ret a) rel e = result h h' a rel e
  Every-translate grow policy result h h' (ask c k) rel (p, e) = (
    policy h h' c rel p,
    λ r.
        Every-translate grow policy result (record { call = c; reply = g c r } ∷ h)
          (record { call = f c; reply = r } ∷ h') (k (g c r)) (grow h h' c r rel) (e (g c r)),
  )
