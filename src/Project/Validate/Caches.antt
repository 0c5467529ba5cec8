-- ===== src/Project/Validate/Caches.antt =====
-- Where the check of the cache resources in `ValidateProject` finds no violation.
use rpc_operator.Prelude.{
  String, ◌≡◌, ◌≢◌, ◌↔◌, ◌⊎◌, inl, inr, refl, Bool, true, false, Option, none, some, List, [], ◌∷◌,
  All, Option-cases, Text-cases, eq_iff, arith,
}
use rpc_operator.Project.Types.{CacheResource, Project, KvCache}
use rpc_operator.Project.Validate.{
  Pipelines, cache_error, both_or_neither, has_kv, has_config, cache_errors,
}
use rpc_operator.Project.Validate.Valid.{IsCache}
use rpc_operator.Project.Validate.Errors.{both-nil, gate-nil}

module _ (parse : String → Option String) (project : Project) (pipelines : Pipelines) where
  config_cases :
      (cr : CacheResource)
      → (((cr.config ≡ "") ⊎ (cr.config ≡ "null"))
          × (has_config parse project pipelines cr ≡ false))
        ⊎ ((cr.config ≢ "") × (cr.config ≢ "null") × (has_config parse project pipelines cr ≡ true))
  config_cases cr = elim (Text-cases cr.config "") [
    | inl e ↦ inl (inl e, ground (arith, eq_iff cr.config ""))
    | inr e ↦ elim (Text-cases cr.config "null") [
      | inl n ↦ inl (inr n, ground (arith, eq_iff cr.config "null"))
      | inr n ↦ inr (
        λ k. ground (arith, eq_iff cr.config ""),
        λ k. ground (arith, eq_iff cr.config "null"),
        ground arith,
      )
    ]
  ]

  exactly_one :
      (a b : Bool)
      → (both_or_neither parse project pipelines a b ≡ false)
        ↔ (((a ≡ true) × (b ≡ false)) ⊎ ((a ≡ false) × (b ≡ true)))
  exactly_one a b = (λ e. ground arith, λ e. ground arith)

  kv_cases :
      (cr : CacheResource)
      → (((kv : KvCache) × (cr.nats_kv ≡ some kv)) × (has_kv parse project pipelines cr ≡ true))
        ⊎ ((cr.nats_kv ≡ none) × (has_kv parse project pipelines cr ≡ false))
  kv_cases cr = elim (Option-cases cr.nats_kv) [
    | inl n ↦ inr (n, rw n refl)
    | inr (kv, s) ↦ inl ((kv, s), rw s refl)
  ]

  -- the two tests of the code are the two clauses of the specification
  tests-IsCache :
      (cr : CacheResource)
      → ((((has_kv parse project pipelines cr ≡ true)
              × (has_config parse project pipelines cr ≡ false))
            ⊎ ((has_kv parse project pipelines cr ≡ false)
                × (has_config parse project pipelines cr ≡ true)))
          ↔ IsCache parse project pipelines cr)
  tests-IsCache cr = (
    λ t. forward (kv_cases cr) (config_cases cr) t,
    λ k. backward (kv_cases cr) (config_cases cr) k,
  )
    where
      forward :
          (((kv : KvCache) × (cr.nats_kv ≡ some kv)) × (has_kv parse project pipelines cr ≡ true))
            ⊎ ((cr.nats_kv ≡ none) × (has_kv parse project pipelines cr ≡ false))
          → (((cr.config ≡ "") ⊎ (cr.config ≡ "null"))
              × (has_config parse project pipelines cr ≡ false))
            ⊎ ((cr.config ≢ "")
                × (cr.config ≢ "null")
                × (has_config parse project pipelines cr ≡ true))
          → ((has_kv parse project pipelines cr ≡ true)
              × (has_config parse project pipelines cr ≡ false))
            ⊎ ((has_kv parse project pipelines cr ≡ false)
                × (has_config parse project pipelines cr ≡ true))
          → IsCache parse project pipelines cr
      forward (inl (kv, t)) (inl (c, f)) k = inl (kv, c)
      forward (inr (n, t)) (inr (a, b, f)) k = inr (n, a, b)
      forward (inl (kv, t)) (inr (a, b, f)) (inl (u, v)) = cc (f, v)
      forward (inl (kv, t)) (inr (a, b, f)) (inr (u, v)) = cc (t, u)
      forward (inr (n, t)) (inl (c, f)) (inl (u, v)) = cc (t, u)
      forward (inr (n, t)) (inl (c, f)) (inr (u, v)) = cc (f, v)

      backward :
          (((kv : KvCache) × (cr.nats_kv ≡ some kv)) × (has_kv parse project pipelines cr ≡ true))
            ⊎ ((cr.nats_kv ≡ none) × (has_kv parse project pipelines cr ≡ false))
          → (((cr.config ≡ "") ⊎ (cr.config ≡ "null"))
              × (has_config parse project pipelines cr ≡ false))
            ⊎ ((cr.config ≢ "")
                × (cr.config ≢ "null")
                × (has_config parse project pipelines cr ≡ true))
          → IsCache parse project pipelines cr
          → ((has_kv parse project pipelines cr ≡ true)
              × (has_config parse project pipelines cr ≡ false))
            ⊎ ((has_kv parse project pipelines cr ≡ false)
                × (has_config parse project pipelines cr ≡ true))
      backward (inl (kv, t)) (inl (c, f)) k = inl (t, f)
      backward (inr (n, t)) (inr (a, b, f)) k = inr (t, f)
      backward (inl (kv, t)) (inr (a, b, f)) (inl (l, inl d)) = absurd (a d)
      backward (inl (kv, t)) (inr (a, b, f)) (inl (l, inr d)) = absurd (b d)
      backward (inl ((kv, s), t)) (inr (a, b, f)) (inr (n, d, d')) = cc (n, s)
      backward (inr (n, t)) (inl (c, f)) (inl ((kv, s), d)) = cc (n, s)
      backward (inr (n, t)) (inl (inl c, f)) (inr (m, a, b)) = absurd (a c)
      backward (inr (n, t)) (inl (inr c, f)) (inr (m, a, b)) = absurd (b c)

  cache_error-nil :
      (cr : CacheResource)
      → (cache_error parse project pipelines cr ≡ []) ↔ IsCache parse project pipelines cr
  unfolding cache_error
  cache_error-nil cr =
      let tests =
        exactly_one (has_kv parse project pipelines cr) (has_config parse project pipelines cr) in
      gate-nil _
        (both_or_neither parse project pipelines (has_kv parse project pipelines cr)
          (has_config parse project pipelines cr))
        (λ e. (tests-IsCache cr).0 (tests.0 e), λ k. tests.1 ((tests-IsCache cr).1 k))

  pub cache_errors-nil :
      (crs : List CacheResource)
      → (cache_errors parse project pipelines crs ≡ []) ↔ All (IsCache parse project pipelines) crs
  unfolding cache_errors
  cache_errors-nil [] = (λ e. tt, λ a. refl)
  cache_errors-nil (cr ∷ crs) = both-nil (cache_error-nil cr) (cache_errors-nil crs)
