-- ===== src/Controller/Rules.antt =====
-- Rules for the controller's programs, and the streams that their histories confirm.
use rpc_operator.Prelude.{String, ◌≡◌, refl, ◌⊎◌, inl, inr, none, some, ◌∷◌, Memᴰ, Option-cases}
use rpc_operator.Prelude.Int.{ℤ}
use rpc_operator.Effects.{ret, ask, Event, Every}
use rpc_operator.Effects.Rules.{Every-bind}
use rpc_operator.Scheduler.{ordinal_from_pod_name, cluster_pod_url}
use rpc_operator.Controller.Calls.{
  Pipeline, Call, Reply, Act, Answer, ok, err, History, Outcome, failed, attempt, attempt_answer,
  on_answer, delete_stream,
}
use rpc_operator.Controller.Placement.{delete_on}

abbrev pub Policy : Type 1
Policy = History → Call → Type 0

-- any result will do
abbrev pub Anything : {A : Type 0} → History → A → Type 0
Anything h a = Unit

-- what holds if the program returned no error
abbrev pub IfOk : {A : Type 0} → (History → Type 0) → History → Answer A → Type 0
IfOk K h (ok a) = K h
IfOk K h (err e) = Unit

abbrev pub event : (c : Call) → Reply c → Event Call Reply
event c r = record { call = c; reply = r }

module _ (P : Policy) where
  pub attempt-Every :
      {A : Type 0} (K : History → Type 0) (k : A → Act Outcome) (h : History) (m : Act (Answer A))
      → Every P (IfOk K) h m
      → ((h' : History) (a : A) → K h' → Every P Anything h' (k a))
      → Every P Anything h (attempt m k)
  attempt-Every {A} K k h m e next =
      Every-bind P (IfOk K) Anything (λ r. on_answer r k (λ e'. ret (failed e'))) h m e by_reply
    where
      by_reply :
          (h' : History) (r : Answer A)
          → IfOk K h' r
          → Every P Anything h' (on_answer r k (λ e'. ret (failed e')))
      by_reply h' (ok a) f = next h' a f
      by_reply h' (err e') f = tt

  pub attempt_answer-Every :
      {A B : Type 0} (K K' : History → Type 0) (k : A → Act (Answer B)) (h : History)
      (m : Act (Answer A))
      → Every P (IfOk K) h m
      → ((h' : History) (a : A) → K h' → Every P (IfOk K') h' (k a))
      → Every P (IfOk K') h (attempt_answer m k)
  attempt_answer-Every {A} {B} K K' k h m e next =
      Every-bind P (IfOk K) (IfOk K') (λ r. on_answer r k (λ e'. ret (err e'))) h m e by_reply
    where
      by_reply :
          (h' : History) (r : Answer A)
          → IfOk K h' r
          → Every P (IfOk K') h' (on_answer r k (λ e'. ret (err e')))
      by_reply h' (ok a) f = next h' a f
      by_reply h' (err e') f = tt

  -- the same where the first program is one call, and `g` what is made of its reply
  pub attempt_call-Every :
      {A : Type 0} (K : History → Type 0) (c : Call) (g : Reply c → Answer A) (k : A → Act Outcome)
      (h : History)
      → P h c
      → ((r : Reply c) → IfOk K (event c r ∷ h) (g r))
      → ((h' : History) (a : A) → K h' → Every P Anything h' (k a))
      → Every P Anything h (attempt (ask c (λ r. ret (g r))) k)
  attempt_call-Every K c g k h p e next = attempt-Every K k h (ask c (λ r. ret (g r))) (p, e) next

  pub attempt_answer_call-Every :
      {A B : Type 0} (K K' : History → Type 0) (c : Call) (g : Reply c → Answer A)
      (k : A → Act (Answer B)) (h : History)
      → P h c
      → ((r : Reply c) → IfOk K (event c r ∷ h) (g r))
      → ((h' : History) (a : A) → K h' → Every P (IfOk K') h' (k a))
      → Every P (IfOk K') h (attempt_answer (ask c (λ r. ret (g r))) k)
  attempt_answer_call-Every K K' c g k h p e next =
      attempt_answer-Every K K' k h (ask c (λ r. ret (g r))) (p, e) next

-- no promise
abbrev pub Nothing : History → Type 0
Nothing h = Unit

pub IfOk-Nothing : {A : Type 0} (h : History) (r : Answer A) → IfOk Nothing h r
IfOk-Nothing h (ok a) = tt
IfOk-Nothing h (err e) = tt

pub IfOk-always :
    {A : Type 0} (K : History → Type 0) (h : History) (r : Answer A) → K h → IfOk K h r
IfOk-always K h (ok a) k = k
IfOk-always K h (err e) k = tt

-- The API confirmed the deletion of the stream.
abbrev pub Deleted : String → String → History → Type 0
Deleted url id h = Memᴰ (event (delete_stream url id) (ok tt)) h

-- The pipeline has no stream on an instance of the cluster: no placement, or one whose name is not
-- of that cluster; or its stream was deleted.
abbrev pub Released : Pipeline → String → History → Type 0
Released pipe cluster h =
    (ordinal_from_pod_name pipe.status.assigned_instance cluster ≡ none)
    ⊎ ((ord : ℤ) × (ordinal_from_pod_name pipe.status.assigned_instance cluster ≡ some ord)
        × Deleted (cluster_pod_url cluster pipe.namespace ord) pipe.name h)

pub Released-later :
    (pipe : Pipeline) (cluster : String) (h : History) (e : Event Call Reply)
    → Released pipe cluster h
    → Released pipe cluster (e ∷ h)
Released-later pipe cluster h e (inl r) = inl r
Released-later pipe cluster h e (inr (ord, o, m)) = inr (ord, o, Memᴰ.tail m)

-- a policy that lets the pipeline's own streams be deleted
abbrev pub AllowsDeletes : Policy → Pipeline → Type 0
AllowsDeletes P pipe = (h : History) (url : String) → P h (delete_stream url pipe.name)

pub delete_on-Released :
    (P : Policy) (pipe : Pipeline) (allowed : AllowsDeletes P pipe) (cluster : String) (h : History)
    → Every P (IfOk (Released pipe cluster)) h (delete_on pipe cluster)
delete_on-Released P pipe allowed cluster h =
    elim (Option-cases (ordinal_from_pod_name pipe.status.assigned_instance cluster)) [
      | inl e ↦ rw (e, Every, delete_on) (inl e)
      | inr (ord, e) ↦ rw (e, Every, delete_on) (allowed h _, λ r. by_reply ord e r)
    ]
  where
    by_reply :
        (ord : ℤ)
        → ordinal_from_pod_name pipe.status.assigned_instance cluster ≡ some ord
        → (r : Answer (Unit {0}))
        → IfOk
            (Released pipe cluster)
            (event (delete_stream (cluster_pod_url cluster pipe.namespace ord) pipe.name) r ∷ h)
            r
    by_reply ord e (ok u) = inr (ord, e, Memᴰ.head refl)
    by_reply ord e (err x) = tt

pub IfOk-map :
    {A : Type 0} (K K' : History → Type 0)
    → ((h : History) → K h → K' h)
    → (h : History) (r : Answer A) → IfOk K h r
    → IfOk K' h r
IfOk-map K K' weaker h (ok a) k = weaker h k
IfOk-map K K' weaker h (err e) k = tt
