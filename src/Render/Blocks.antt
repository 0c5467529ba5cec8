-- ===== src/Render/Blocks.antt =====
-- The blocks that a project pipeline's document gets, described by their entries
-- (internal/render/project_rewrite.go).
use Prim.Native.String
use rpc_operator.Prelude.{
  String, ◌≡◌, ◌≢◌, refl, ◌⊎◌, inl, inr, true, false, Option, none, some, List, [], ◌∷◌, All, ◌==◌,
  Bool-cases, arith, eq_iff, nat_eq,
}
use rpc_operator.Prelude.Quote.{quote}
use rpc_operator.Render.Value.{Value, arr, obj, str, Items, nil, cons, Fields, end, field, get}
use rpc_operator.Render.ProjectRewrite.{
  IncomingRoute, nats_output, nats_outputs, build_output, nats_input, nats_inputs, build_input,
  filter_mapping, count_when, switch_case, switch_cases, build_predicate_processor, predicate_of,
}

abbrev just : Value → Value
just v = arr (cons v nil)

-- The block publishes on the subject at the server, with all metadata.
abbrev pub Sends : String → String → Value → Type 0
Sends url subject v =
    (js : Fields) × (v ≡ obj (field "nats_jetstream" (obj js) end))
    × (get "urls" js ≡ some (just (str url)))
    × (get "subject" js ≡ some (str subject))
    × (get "metadata" js ≡ some (obj (field "include_patterns" (just (str ".*")) end)))

abbrev pub SendAll : String → List String → Items → Type 0
SendAll url [] vs = vs ≡ nil
SendAll url (s ∷ ss) nil = ⊥
SendAll url (s ∷ ss) (cons v vs) = Sends url s v × SendAll url ss vs

-- The output for one subject, or a broker that fans out to all.
abbrev pub IsOutput : String → List String → Value → Type 0
IsOutput url (s ∷ []) v = Sends url s v
IsOutput url subjects v =
    (broker : Fields) × (vs : Items) × (v ≡ obj (field "broker" (obj broker) end))
    × (get "pattern" broker ≡ some (str "fan_out"))
    × (get "outputs" broker ≡ some (arr vs))
    × SendAll url subjects vs

-- The block consumes the route's subject at the server by its durable consumer, in no queue group.
abbrev pub Receives : String → IncomingRoute → Value → Type 0
Receives url i v =
    (js : Fields) × (v ≡ obj (field "nats_jetstream" (obj js) end))
    × (get "urls" js ≡ some (just (str url)))
    × (get "subject" js ≡ some (str i.subject))
    × (get "durable" js ≡ some (str i.durable))
    × (get "queue" js ≡ some (str ""))

abbrev pub ReceiveAll : String → List IncomingRoute → Items → Type 0
ReceiveAll url [] vs = vs ≡ nil
ReceiveAll url (i ∷ is) nil = ⊥
ReceiveAll url (i ∷ is) (cons v vs) = Receives url i v × ReceiveAll url is vs

-- The input of one route, or a broker of those of all.
abbrev pub IsInput : String → List IncomingRoute → Value → Type 0
IsInput url (i ∷ []) v = Receives url i v
IsInput url incoming v =
    (vs : Items) × (v ≡ obj (field "broker" (obj (field "inputs" (arr vs) end)) end))
    × ReceiveAll url incoming vs

-- The processor keeps the messages for which the predicate holds, and deletes the others.
abbrev pub Filters : String → Value → Type 0
Filters when v =
    v
    ≡ obj (
        field "mapping"
          (str (String.◌++◌ "root = if !(" (String.◌++◌ when ") { deleted() } else { this }"))) end)

-- One case for each route with a predicate, in order: it is that of the route's subject, and filters.
abbrev pub Cases : List IncomingRoute → Items → Type 0
Cases [] vs = vs ≡ nil
Cases (i ∷ is) vs =
    ((i.when ≡ "") × Cases is vs)
    ⊎ ((i.when ≢ "")
        × (c : Fields) × (filter : Value) × (rest : Items) × (vs ≡ cons (obj c) rest)
        × (get "check" c ≡ some (str (String.◌++◌ "@nats_subject == " (quote i.subject))))
        × (get "processors" c ≡ some (just filter))
        × Filters i.when filter
        × Cases is rest)

-- No processor where no route has a predicate; for one route its filter; else a switch.
abbrev pub IsPredicate : List IncomingRoute → Option Value → Type 0
IsPredicate incoming none = All (λ i. i.when ≡ "") incoming
IsPredicate (i ∷ []) (some v) = (i.when ≢ "") × Filters i.when v
IsPredicate incoming (some v) =
    (vs : Items) × (v ≡ obj (field "switch" (arr vs) end)) × Cases incoming vs

nats_output-Sends : (url subject : String) → Sends url subject (nats_output url subject)
unfolding nats_output get
nats_output-Sends url subject = (_, refl, refl, refl, refl)

nats_outputs-SendAll : (url : String) (ss : List String) → SendAll url ss (nats_outputs url ss)
unfolding nats_outputs
nats_outputs-SendAll url [] = refl
nats_outputs-SendAll url (s ∷ ss) = (nats_output-Sends url s, nats_outputs-SendAll url ss)

pub build_output-IsOutput :
    (url : String) (subjects : List String) → IsOutput url subjects (build_output url subjects)
unfolding build_output get
build_output-IsOutput url [] =
    (_, nats_outputs url [], refl, refl, refl, nats_outputs-SendAll url [])
build_output-IsOutput url (s ∷ []) = nats_output-Sends url s
build_output-IsOutput url (s ∷ t ∷ ss) =
    (_, nats_outputs url (s ∷ t ∷ ss), refl, refl, refl, nats_outputs-SendAll url (s ∷ t ∷ ss))

nats_input-Receives : (url : String) (i : IncomingRoute) → Receives url i (nats_input url i)
unfolding nats_input get
nats_input-Receives url i = (_, refl, refl, refl, refl, refl)

nats_inputs-ReceiveAll :
    (url : String) (is : List IncomingRoute) → ReceiveAll url is (nats_inputs url is)
unfolding nats_inputs
nats_inputs-ReceiveAll url [] = refl
nats_inputs-ReceiveAll url (i ∷ is) = (nats_input-Receives url i, nats_inputs-ReceiveAll url is)

pub build_input-IsInput :
    (url : String) (incoming : List IncomingRoute) → IsInput url incoming (build_input url incoming)
unfolding build_input
build_input-IsInput url [] = (nats_inputs url [], refl, nats_inputs-ReceiveAll url [])
build_input-IsInput url (i ∷ []) = nats_input-Receives url i
build_input-IsInput url (i ∷ j ∷ is) =
    (nats_inputs url (i ∷ j ∷ is), refl, nats_inputs-ReceiveAll url (i ∷ j ∷ is))

switch_cases-Cases : (is : List IncomingRoute) → Cases is (switch_cases is)
unfolding switch_cases switch_case filter_mapping get
switch_cases-Cases [] = refl
switch_cases-Cases (i ∷ is) = elim (Bool-cases (i.when == "")) [
  | inl e ↦ rw (e, switch_cases) (inl ((eq_iff i.when "").0 e, switch_cases-Cases is))
  | inr e ↦
      rw (e, switch_cases)
        (inr (
          λ same. ground (arith, eq_iff i.when "", e, same),
          _,
          _,
          switch_cases is,
          refl,
          refl,
          refl,
          refl,
          switch_cases-Cases is,
        ))
]

count_when-zero :
    (is : List IncomingRoute) → nat_eq (count_when is) 0 ≡ true → All (λ i. i.when ≡ "") is
unfolding count_when
count_when-zero [] e = tt
count_when-zero (i ∷ is) e = elim (Bool-cases (i.when == "")) [
  | inl n ↦ ((eq_iff i.when "").0 n, count_when-zero is (rw (n, count_when) at e))
  | inr n ↦ ground (arith, n, e)
]

pub build_predicate_processor-IsPredicate :
    (incoming : List IncomingRoute) → IsPredicate incoming (build_predicate_processor incoming)
unfolding build_predicate_processor filter_mapping count_when
build_predicate_processor-IsPredicate incoming =
    elim (Bool-cases (nat_eq (count_when incoming) 0)) [
      | inl e ↦ rw (build_predicate_processor, e) (count_when-zero incoming e)
      | inr e ↦ rw (build_predicate_processor, e) (some_of incoming e)
    ]
  where
    some_of :
        (is : List IncomingRoute)
        → nat_eq (count_when is) 0 ≡ false
        → IsPredicate is (some (predicate_of is))
    some_of [] e = cc
    some_of (i ∷ []) e = (λ same. ground (arith, (eq_iff i.when "").1 same, e), refl)
    some_of (i ∷ j ∷ is) e = (switch_cases (i ∷ j ∷ is), refl, switch_cases-Cases (i ∷ j ∷ is))
