-- ===== src/Controller/Steps.antt =====
-- Steps of a reconcile that end it where they fail, for every set of calls.
use rpc_operator.Effects.{Prog, ret, ◌>>=◌, Event, Every}
use rpc_operator.Effects.Rules.{Every-bind}
use rpc_operator.Prelude.{◌≡◌, refl, List}
use rpc_operator.Controller.Calls.{Answer, ok, err, Error, on_answer, Outcome, failed}

module _ {C : Type 0} {R : C → Type 0} where
  -- `if err != nil { return ctrl.Result{}, err }`
  abbrev pub require :
      {A : Type 0} → Prog C R (Answer A) → (A → Prog C R Outcome) → Prog C R Outcome
  require m k = m >>= λ r. on_answer r k (λ e. ret (failed e))

  -- what a program without an error leaves behind
  abbrev pub Leaves :
      {A : Type 0} → (List (Event C R) → A → Type 0) → List (Event C R) → Answer A → Type 0
  Leaves K h (ok a) = K h a
  Leaves K h (err e) = Unit

  pub Leaves-of_ok :
      {A : Type 0} (K : List (Event C R) → A → Type 0) (h : List (Event C R)) (r : Answer A)
      → ((a : A) → r ≡ ok a → K h a)
      → Leaves K h r
  Leaves-of_ok K h (ok a) k = k a refl
  Leaves-of_ok K h (err e) k = tt

  pub require-Every :
      {A : Type 0} (P : List (Event C R) → C → Type 0) (K : List (Event C R) → A → Type 0)
      (Q : List (Event C R) → Outcome → Type 0) (k : A → Prog C R Outcome) (h : List (Event C R))
      (m : Prog C R (Answer A))
      → ((h' : List (Event C R)) (e : Error) → Q h' (failed e))
      → Every P (Leaves K) h m
      → ((h' : List (Event C R)) (a : A) → K h' a → Every P Q h' (k a))
      → Every P Q h (require m k)
  require-Every {A} P K Q k h m broken e next =
      Every-bind P (Leaves K) Q (λ r. on_answer r k (λ e'. ret (failed e'))) h m e by_reply
    where
      by_reply :
          (h' : List (Event C R)) (r : Answer A)
          → Leaves K h' r
          → Every P Q h' (on_answer r k (λ e'. ret (failed e')))
      by_reply h' (ok a) f = next h' a f
      by_reply h' (err e') f = broken h' e'
