-- ===== src/Web/Sessions/Laws.antt =====
-- The store as a map of live sessions (sessionStore of internal/api/oidc.go).
use rpc_operator.Prelude.{
  ℕ, ◌-◌, String, ◌≡◌, refl, Bool, true, false, Option, none, some, [], ◌∷◌, ◌==◌, if◌then◌else◌,
  ltb, eq_iff, arith, Bool-cases, Option-cases, Text-cases, inl, inr,
}
use rpc_operator.Web.Sessions.{Session, Sessions, find, put, delete, is_expired, get, gc}

pub find-put :
    (id j : String) (sess : Session) (store : Sessions)
    → find j (put id sess store) ≡ (if id == j then some sess else find j store)
unfolding find put
find-put id j sess [] = refl
find-put id j sess ((k, s) ∷ store) =
    ground (arith, eq_iff k id, eq_iff k j, eq_iff id j, find-put id j sess store)

find-delete :
    (id j : String) (store : Sessions)
    → find j (delete id store) ≡ (if id == j then none else find j store)
unfolding find delete
find-delete id j [] = ground arith
find-delete id j ((k, s) ∷ store) =
    ground (arith, eq_iff k id, eq_iff k j, eq_iff id j, find-delete id j store)

-- every key stands once
abbrev pub HasKeysOnce : Sessions → Type 0
HasKeysOnce [] = Unit
HasKeysOnce ((k, s) ∷ store) = (find k store ≡ none) × HasKeysOnce store

module _ (ttl : ℕ) where
  -- the session that is live now
  abbrev pub live : ℕ → Option Session → Option Session
  live now none = none
  live now (some sess) = if is_expired ttl now sess then none else some sess

  -- The abstract view: the live sessions by their identifiers.
  abbrev pub view : ℕ → Sessions → String → Option Session
  view now store id = live now (find id store)

  live-if :
      (now : ℕ) (b : Bool) (x y : Option Session)
      → live now (if b then x else y) ≡ (if b then live now x else live now y)
  live-if now true x y = refl
  live-if now false x y = refl

  find-gc :
      (now : ℕ) (j : String) (store : Sessions)
      → HasKeysOnce store
      → find j (gc ttl now store) ≡ live now (find j store)
  unfolding find gc
  find-gc now j [] once = refl
  find-gc now j ((k, s) ∷ store) (fresh, once) =
      ground (arith, eq_iff k j, find-gc now j store once)

  HasKeysOnce-gc : (now : ℕ) (store : Sessions) → HasKeysOnce store → HasKeysOnce (gc ttl now store)
  unfolding find gc
  HasKeysOnce-gc now [] once = tt
  HasKeysOnce-gc now ((k, s) ∷ store) (fresh, once) =
      elim (Bool-cases (ltb s.created_at (now - ttl))) [
        | inl old ↦ rw (old, gc) (HasKeysOnce-gc now store once)
        | inr new ↦
            rw (new, gc) (rw (find-gc now k store once, fresh) refl, HasKeysOnce-gc now store once)
      ]

HasKeysOnce-put :
    (id : String) (sess : Session) (store : Sessions)
    → HasKeysOnce store
    → HasKeysOnce (put id sess store)
unfolding find put
HasKeysOnce-put id sess [] once = (refl, tt)
HasKeysOnce-put id sess ((k, s) ∷ store) (fresh, once) = elim (Text-cases k id) [
  | inl same ↦ rw ((eq_iff k id).1 same, put) (rw (← same) fresh, once)
  | inr other ↦
      rw (other, put)
        (
          ground (arith, eq_iff k id, eq_iff id k, find-put id k sess store, fresh),
          HasKeysOnce-put id sess store once,
        )
]

HasKeysOnce-delete :
    (id : String) (store : Sessions) → HasKeysOnce store → HasKeysOnce (delete id store)
unfolding find delete
HasKeysOnce-delete id [] once = tt
HasKeysOnce-delete id ((k, s) ∷ store) (fresh, once) = elim (Bool-cases (k == id)) [
  | inl same ↦ rw (same, delete) (HasKeysOnce-delete id store once)
  | inr other ↦
      rw (other, delete)
        (ground (arith, find-delete id k store, fresh), HasKeysOnce-delete id store once)
]

module _ (ttl now : ℕ) where
  -- What the store promises: each operation acts on the live sessions as on a map, a reading changes
  -- none of them, and the sweep keeps just them.
  pub record IsTtlMap (store : Sessions) : Type 0 where
    pub after_put :
        (id j : String) (sess : Session)
        → view ttl now (put id sess store) j
          ≡ (if id == j then live ttl now (some sess) else view ttl now store j)
    pub after_delete :
        (id j : String)
        → view ttl now (delete id store) j ≡ (if id == j then none else view ttl now store j)
    pub got : (id : String) → (get ttl now id store).0 ≡ view ttl now store id
    pub after_get : (id j : String) → view ttl now (get ttl now id store).1 j ≡ view ttl now store j
    pub after_gc : (j : String) → find j (gc ttl now store) ≡ view ttl now store j

  got_lem : (id : String) (store : Sessions) → (get ttl now id store).0 ≡ view ttl now store id
  unfolding get
  got_lem id store = elim (Option-cases (find id store)) [
    | inl e ↦ rw (e, get) refl
    | inr (sess, e) ↦ rw (e, get) (ground arith)
  ]

  after_get_lem :
      (id j : String) (store : Sessions)
      → view ttl now (get ttl now id store).1 j ≡ view ttl now store j
  unfolding get
  after_get_lem id j store = elim (Option-cases (find id store)) [
    | inl e ↦ rw (e, get) refl
    | inr (sess, e) ↦ elim (Bool-cases (is_expired ttl now sess)) [
      | inl old ↦ rw (e, get, old) (ground (arith, eq_iff id j, find-delete id j store, e, old))
      | inr new ↦ rw (e, get, new) refl
    ]
  ]

  HasKeysOnce-get :
      (id : String) (store : Sessions) → HasKeysOnce store → HasKeysOnce (get ttl now id store).1
  unfolding get
  HasKeysOnce-get id store once = elim (Option-cases (find id store)) [
    | inl e ↦ rw (e, get) once
    | inr (sess, e) ↦ elim (Bool-cases (is_expired ttl now sess)) [
      | inl old ↦ rw (e, get, old) (HasKeysOnce-delete id store once)
      | inr new ↦ rw (e, get, new) once
    ]
  ]

  -- A store in which every identifier stands once, which every operation keeps, acts as a map from
  -- identifiers to the sessions that are not expired.
  pub HasKeysOnce-IsTtlMap :
      (store : Sessions)
      → HasKeysOnce store
      → IsTtlMap store
        × ((id : String) (sess : Session) → HasKeysOnce (put id sess store))
        × ((id : String) → HasKeysOnce (delete id store))
        × ((id : String) → HasKeysOnce (get ttl now id store).1)
        × HasKeysOnce (gc ttl now store)
  HasKeysOnce-IsTtlMap store once = (
    record {
      after_put = λ id j sess.
          rw (find-put id j sess store) (live-if ttl now (id == j) (some sess) (find j store));
      after_delete =
          λ id j. rw (find-delete id j store) (live-if ttl now (id == j) none (find j store));
      got = λ id. got_lem id store;
      after_get = λ id j. after_get_lem id j store;
      after_gc = λ j. find-gc ttl now j store once;
    },
    λ id sess. HasKeysOnce-put id sess store once,
    λ id. HasKeysOnce-delete id store once,
    λ id. HasKeysOnce-get id store once,
    HasKeysOnce-gc ttl now store once,
  )
