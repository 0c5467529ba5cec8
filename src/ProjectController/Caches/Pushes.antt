-- ===== src/ProjectController/Caches/Pushes.antt =====
-- The loop over the cache resources of internal/controller/pipelineproject_caches.go.
use rpc_operator.Prelude.{
  String, ◌≡◌, refl, inl, inr, Option, none, some, List, [], ◌∷◌, Memᴰ, All, Bool-cases,
}
use rpc_operator.Fallible.{Fallible}
use rpc_operator.Effects
use rpc_operator.Effects.{ret, ask, Event, Every}
use rpc_operator.Effects.Rules.{Every-bind, Every-map}
use rpc_operator.Controller.Calls.{Answer, ok, err, on_answer, is_rejected}
use rpc_operator.Project.Types.{KvCache, CacheResource, Project}
use rpc_operator.Project.Naming.{cache_bucket}
use rpc_operator.Render.Document.{Codec}
use rpc_operator.ProjectController.Caches.{
  CacheCall, ensure_kv, push_cache, CacheReply, CacheStatus, CacheOutcome, failed_cache_status,
  kv_config, build_cache_resource_config, push_to, nats, pushed, render_and_push, fresh_status,
  ensure_kind, ensure_cache, ensure_caches,
}
use rpc_operator.ProjectController.Caches.Promises.{
  CacheHistory, Stable, Both, HasBucket, Took, Tends, Backs, Covers, HasBucket-later, Backs-later,
}

module _ (codec : Codec) (project : Project) (urls : List String) (olds : List CacheStatus) where
  module _ (cr : CacheResource) (listed : Memᴰ cr project.spec.cache_resources) where
    push_to-Took :
        (body : String) (rest : List String) (K : CacheHistory → Type 0) (stable : Stable K)
        → ((h : CacheHistory) → K h → HasBucket codec project urls olds h cr)
        → ((u : String) → Memᴰ u rest → Memᴰ u urls)
        → (h : CacheHistory) → K h
        → Every
            (Tends codec project urls olds)
            (Both K (λ h' _. All (Took codec project urls olds h' cr body) rest))
            h
            (push_to rest cr.name body)
    unfolding push_to
    push_to-Took body [] K stable bucketed known h k = (k, tt)
    push_to-Took body (u ∷ us) K stable bucketed known h k = (
      (known u (Memᴰ.head refl), cr, listed, refl, bucketed h k),
      by_reply (λ r k'.
          push_to-Took body us (Kept r) (Kept-stable r) (λ h' p. bucketed h' p.0)
            (λ u' m. known u' (Memᴰ.tail m)) (after r ∷ h) k'),
    )
      where
        after : Answer (Unit {0}) → Event CacheCall CacheReply
        after r = record { call = push_cache u cr.name body; reply = r }

        Kept : Answer (Unit {0}) → CacheHistory → Type 0
        Kept r h' = K h' × Memᴰ (after r) h'

        Kept-stable : (r : Answer (Unit {0})) → Stable (Kept r)
        Kept-stable r h' e (k', m) = (stable h' e k', Memᴰ.tail m)

        regroup :
            (r : Answer (Unit {0})) (h' : CacheHistory)
            → Both (Kept (ok tt)) (λ h'' _. All (Took codec project urls olds h'' cr body) us) h' r
            → Both K (λ h'' _. All (Took codec project urls olds h'' cr body) (u ∷ us)) h' r
        regroup (ok a) h' p = (p.0.0, (p.0.1, p.1))
        regroup (err e) h' p = (p.0.0, tt)

        by_reply :
            ((r : Answer (Unit {0}))
              → Kept r (after r ∷ h)
              → Every
                  (Tends codec project urls olds)
                  (Both (Kept r) (λ h' _. All (Took codec project urls olds h' cr body) us))
                  (after r ∷ h)
                  (push_to us cr.name body))
            → (r : Answer (Unit {0}))
            → Every
                (Tends codec project urls olds)
                (Both K (λ h' _. All (Took codec project urls olds h' cr body) (u ∷ us)))
                (after r ∷ h)
                (on_answer r (λ _. push_to us cr.name body) (λ e. ret (err e)))
        by_reply go (ok a) =
            Every-map (Tends codec project urls olds)
              (Both (Kept (ok tt)) (λ h' _. All (Took codec project urls olds h' cr body) us))
              (Both K (λ h' _. All (Took codec project urls olds h' cr body) (u ∷ us)))
              (λ h' r. regroup r h') _ (push_to us cr.name body)
              (go (ok tt) (stable h _ k, Memᴰ.head refl))
        by_reply go (err e) = (stable h _ k, tt)

    -- the status behind the push
    pushed-Backs :
        (st : CacheStatus) (body : String) (K : CacheHistory → Type 0) (h : CacheHistory)
        (r : Answer (Unit {0}))
        → (st.name ≡ cr.name)
        → Both
            (λ h'. K h' × HasBucket codec project urls olds h' cr)
            (λ h' _. All (Took codec project urls olds h' cr body) urls)
            h
            r
        → Both K
            (λ h' st'. Backs codec project urls olds h' cr st')
            h
            (pushed codec project urls st cr r)
    unfolding failed_cache_status
    pushed-Backs st body K h (ok a) named ((k, b), took) = (k, (named, inr (b, (body, took))))
    pushed-Backs st body K h (err e) named ((k, b), p) = elim (Bool-cases (is_rejected e)) [
      | inl y ↦ rw (y, pushed) (k, (named, inl refl))
      | inr n ↦ rw (n, pushed) (k, tt)
    ]

    render_and_push-Backs :
        (st : CacheStatus) (K : CacheHistory → Type 0) (stable : Stable K) (h : CacheHistory)
        → (st.name ≡ cr.name)
        → K h
        → HasBucket codec project urls olds h cr
        → Every
            (Tends codec project urls olds)
            (Both K (λ h' st'. Backs codec project urls olds h' cr st'))
            h
            (render_and_push codec project urls st cr)
    unfolding render_and_push failed_cache_status
    render_and_push-Backs st K stable h named k b =
        elim (build_cache_resource_config codec cr (nats codec project urls) st.bucket)
          as (λ rendered.
            Every (Tends codec project urls olds)
              (Both K (λ h' st'. Backs codec project urls olds h' cr st')) h
              (elim rendered [
                | Fallible.ok body ↦
                    Effects.◌>>=◌ (push_to urls cr.name body)
                      (λ r. ret (pushed codec project urls st cr r))
                | Fallible.err e ↦ ret (ok (failed_cache_status st "RenderFailed" e))
              ])) [
                | Fallible.ok body ↦
                    Every-bind (Tends codec project urls olds)
                      (Both (λ h'. K h' × HasBucket codec project urls olds h' cr)
                        (λ h' _. All (Took codec project urls olds h' cr body) urls))
                      (Both K (λ h' st'. Backs codec project urls olds h' cr st')) _ h
                      (push_to urls cr.name body)
                      (push_to-Took body urls (λ h'. K h' × HasBucket codec project urls olds h' cr)
                        (λ h' e p.
                          (stable h' e p.0, HasBucket-later codec project urls olds cr h' e p.1))
                        (λ h' p. p.1) (λ u m. m) h (k, b))
                      (λ h' r p. pushed-Backs st body K h' r named p)
                | Fallible.err e ↦ (k, (named, inl refl))
              ]

    ensure_kind-Backs :
        (kind : Option KvCache) (same : cr.nats_kv ≡ kind) (K : CacheHistory → Type 0)
        (stable : Stable K) (h : CacheHistory)
        → K h
        → Every
            (Tends codec project urls olds)
            (Both K (λ h' st'. Backs codec project urls olds h' cr st'))
            h
            (ensure_kind codec project urls cr kind)
    unfolding ensure_kind failed_cache_status
    ensure_kind-Backs none same K stable h k =
        render_and_push-Backs (fresh_status codec project urls cr "") K stable h refl k (inl same)
    ensure_kind-Backs (some kv) same K stable h k = ((refl, cr, listed, refl), by_reply)
      where
        st : CacheStatus
        st = fresh_status codec project urls cr (cache_bucket project.name cr.name)

        by_reply :
            (r : Answer (Unit {0}))
            → Every
                (Tends codec project urls olds)
                (Both K (λ h' st'. Backs codec project urls olds h' cr st'))
                (record {
                  call =
                      ensure_kv
                        (nats codec project urls)
                        (cache_bucket project.name cr.name)
                        (kv_config kv);
                  reply = r;
                }
                  ∷ h)
                (on_answer r
                  (λ _. render_and_push codec project urls st cr)
                  (λ e. ret (ok (failed_cache_status st "BucketFailed" e.text))))
        by_reply (ok a) =
            render_and_push-Backs st K stable _ refl (stable h _ k) (inr (kv, same, Memᴰ.head refl))
        by_reply (err e) = (stable h _ k, (refl, inl refl))

    ensure_cache-Backs :
        (K : CacheHistory → Type 0) (stable : Stable K) (h : CacheHistory)
        → K h
        → Every
            (Tends codec project urls olds)
            (Both K (λ h' st'. Backs codec project urls olds h' cr st'))
            h
            (ensure_cache codec project urls cr)
    unfolding ensure_cache
    ensure_cache-Backs = ensure_kind-Backs cr.nats_kv refl

  abbrev pub CoversAnd :
      (CacheHistory → Type 0) → List CacheResource → CacheHistory → CacheOutcome → Type 0
  CoversAnd K crs h out = K h × Covers codec project urls olds crs out.statuses out.failure h

  pub ensure_caches-Covers :
      (crs : List CacheResource) (K : CacheHistory → Type 0) (stable : Stable K) (h : CacheHistory)
      → ((cr : CacheResource) → Memᴰ cr crs → Memᴰ cr project.spec.cache_resources)
      → K h
      → Every
          (Tends codec project urls olds)
          (CoversAnd K crs)
          h
          (ensure_caches codec project urls crs)
  unfolding ensure_caches
  ensure_caches-Covers [] K stable h known k = (k, tt)
  ensure_caches-Covers (cr ∷ crs) K stable h known k =
      Every-bind (Tends codec project urls olds)
        (Both K (λ h' st. Backs codec project urls olds h' cr st)) (CoversAnd K (cr ∷ crs)) _ h
        (ensure_cache codec project urls cr)
        (ensure_cache-Backs cr (known cr (Memᴰ.head refl)) K stable h k)
        (λ h' r p.
          by_answer
            (λ st h'' k'.
              ensure_caches-Covers crs (Kept st) (Kept-stable st) h'' (λ c m. known c (Memᴰ.tail m))
                k')
            h' r p)
    where
      Kept : CacheStatus → CacheHistory → Type 0
      Kept st h' = K h' × Backs codec project urls olds h' cr st

      Kept-stable : (st : CacheStatus) → Stable (Kept st)
      Kept-stable st h' e p = (stable h' e p.0, Backs-later codec project urls olds cr st h' e p.1)

      by_answer :
          ((st : CacheStatus) (h'' : CacheHistory)
            → Kept st h''
            → Every
                (Tends codec project urls olds)
                (CoversAnd (Kept st) crs)
                h''
                (ensure_caches codec project urls crs))
          → (h' : CacheHistory) (r : Answer CacheStatus)
          → Both K (λ h'' st. Backs codec project urls olds h'' cr st) h' r
          → Every (Tends codec project urls olds) (CoversAnd K (cr ∷ crs)) h' (
              on_answer r
                (λ st.
                  Effects.◌>>=◌ (ensure_caches codec project urls crs) (λ rest.
                    ret (record { statuses = st ∷ rest.statuses; failure = rest.failure })))
                (λ e. ret (record { statuses = []; failure = some e })))
      by_answer go h' (ok st) p =
          Every-bind (Tends codec project urls olds) (CoversAnd (Kept st) crs)
            (CoversAnd K (cr ∷ crs)) _ h' (ensure_caches codec project urls crs) (go st h' p)
            (λ h'' out q. (q.0.0, (q.0.1, q.1)))
      by_answer go h' (err e) p = (p.0, λ x. cc x)
