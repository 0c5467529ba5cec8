-- ===== src/ProjectController/Caches/Removals.antt =====
-- The teardown in internal/controller/pipelineproject_caches.go.
use Prim.Native.String
use rpc_operator.Prelude.{
  String, ◌≡◌, ◌≢◌, refl, inl, inr, true, false, some, List, [], ◌∷◌, Memᴰ, any, Memᴰ-any, ◌==◌,
  Text-cases, eq_iff, arith,
}
use rpc_operator.Effects
use rpc_operator.Effects.{ret, ask, Event, Every}
use rpc_operator.Effects.Rules.{Every-bind, Every-if}
use rpc_operator.Controller.Calls.{Answer, ok, err, on_answer}
use rpc_operator.Project.Types.{CacheResource, Project}
use rpc_operator.Render.Document.{Codec}
use rpc_operator.ProjectController.Caches.{
  delete_kv, drop_cache, CacheStatus, nats, prefixed, drop_from, drop_bucket, is_wanted, tear_down,
}
use rpc_operator.ProjectController.Caches.Promises.{CacheHistory, Stable, IsRemoved, Tends}

module _ (codec : Codec) (project : Project) (urls : List String) (olds : List CacheStatus) where
  -- The removals keep what further events keep.
  module _ (K : CacheHistory → Type 0) (stable : Stable K) where
    drop_from-keeps :
        (old : CacheStatus) (removed : IsRemoved codec project urls olds old) (rest : List String)
        (h : CacheHistory)
        → ((u : String) → Memᴰ u rest → Memᴰ u urls)
        → K h
        → Every
            (Tends codec project urls olds)
            (λ h' _. K h')
            h
            (drop_from codec project urls rest old.name)
    unfolding drop_from
    drop_from-keeps old removed [] h within k = k
    drop_from-keeps old removed (u ∷ us) h within k = (
      (within u (Memᴰ.head refl), old, removed, refl),
      by_reply (λ h' k'. drop_from-keeps old removed us h' (λ v m. within v (Memᴰ.tail m)) k'),
    )
      where
        by_reply :
            ((h' : CacheHistory)
              → K h'
              → Every
                  (Tends codec project urls olds)
                  (λ h'' _. K h'')
                  h'
                  (drop_from codec project urls us old.name))
            → (r : Answer (Unit {0}))
            → Every
                (Tends codec project urls olds)
                (λ h' _. K h')
                (record { call = drop_cache u old.name; reply = r } ∷ h)
                (on_answer r
                  (λ _. drop_from codec project urls us old.name)
                  (λ e. ret (
                    err (
                      prefixed
                        (String.◌++◌ "delete cache resource "
                          (String.◌++◌ old.name (String.◌++◌ " from " u)))
                        e))))
        by_reply go (ok a) = go _ (stable h _ k)
        by_reply go (err e) = stable h _ k

    drop_bucket-keeps :
        (old : CacheStatus) (removed : IsRemoved codec project urls olds old) (h : CacheHistory)
        → K h
        → Every
            (Tends codec project urls olds)
            (λ h' _. K h')
            h
            (drop_bucket codec project urls old)
    unfolding drop_bucket
    drop_bucket-keeps old removed h k = elim (Text-cases old.bucket "") [
      | inl e ↦ rw ((eq_iff old.bucket "").1 e, drop_bucket, Every) k
      | inr e ↦
          rw (e, drop_bucket, Every)
            ((refl, old, removed, refl, λ n. ground (arith, eq_iff old.bucket "")), by_reply)
    ]
      where
        by_reply :
            (r : Answer (Unit {0}))
            → Every
                (Tends codec project urls olds)
                (λ h' _. K h')
                (record { call = delete_kv (nats codec project urls) old.bucket; reply = r } ∷ h)
                (on_answer r
                  (λ _. ret (ok tt))
                  (λ e. ret (err (prefixed (String.◌++◌ "delete kv bucket " old.bucket) e))))
        by_reply (ok a) = stable h _ k
        by_reply (err e) = stable h _ k

    is_wanted-false :
        (name : String)
        → is_wanted codec project urls name ≡ false
        → (cr : CacheResource) → Memᴰ cr project.spec.cache_resources
        → cr.name ≢ name
    unfolding is_wanted
    is_wanted-false name e cr m same =
        let hit : any (λ c. c.name == name) project.spec.cache_resources ≡ true =
          Memᴰ-any (λ c. c.name == name) project.spec.cache_resources cr m
            ((eq_iff cr.name name).1 same) in
        cc (hit, e)

    pub tear_down-keeps :
        (rest : List CacheStatus) (h : CacheHistory)
        → ((old : CacheStatus) → Memᴰ old rest → Memᴰ old olds)
        → K h
        → Every (Tends codec project urls olds) (λ h' _. K h') h (tear_down codec project urls rest)
    unfolding tear_down
    tear_down-keeps [] h known k = k
    tear_down-keeps (old ∷ rest) h known k =
        Every-if (Tends codec project urls olds) (λ h' _. K h') h
          (is_wanted codec project urls old.name) _ _
          (λ _. tear_down-keeps rest h (λ o m. known o (Memᴰ.tail m)) k)
          (λ gone.
            let removed : IsRemoved codec project urls olds old =
              (known old (Memᴰ.head refl), is_wanted-false old.name gone) in
            Every-bind (Tends codec project urls olds) (λ h' _. K h') (λ h' _. K h') _ h
              (drop_from codec project urls urls old.name)
              (drop_from-keeps old removed urls h (λ u m. m) k)
              (λ h₁ r k₁.
                by_drop (λ h' k'. drop_bucket-keeps old removed h' k')
                  (λ h' k'. tear_down-keeps rest h' (λ o m. known o (Memᴰ.tail m)) k') h₁ r k₁))
      where
        by_bucket :
            ((h' : CacheHistory)
              → K h'
              → Every
                  (Tends codec project urls olds)
                  (λ h'' _. K h'')
                  h'
                  (tear_down codec project urls rest))
            → (h' : CacheHistory) (r : Answer (Unit {0})) → K h'
            → Every
                (Tends codec project urls olds)
                (λ h'' _. K h'')
                h'
                (on_answer r (λ _. tear_down codec project urls rest) (λ e. ret (some e)))
        by_bucket go h' (ok a) k' = go h' k'
        by_bucket go h' (err e) k' = k'

        by_drop :
            ((h' : CacheHistory)
              → K h'
              → Every
                  (Tends codec project urls olds)
                  (λ h'' _. K h'')
                  h'
                  (drop_bucket codec project urls old))
            → ((h' : CacheHistory)
                → K h'
                → Every
                    (Tends codec project urls olds)
                    (λ h'' _. K h'')
                    h'
                    (tear_down codec project urls rest))
            → (h' : CacheHistory) (r : Answer (Unit {0})) → K h'
            → Every
                (Tends codec project urls olds)
                (λ h'' _. K h'')
                h'
                (on_answer r
                  (λ _. Effects.◌>>=◌ (drop_bucket codec project urls old) (λ r'.
                    on_answer r' (λ _. tear_down codec project urls rest) (λ e. ret (some e))))
                  (λ e. ret (some e)))
        by_drop bucket go h' (ok a) k' =
            Every-bind (Tends codec project urls olds) (λ h'' _. K h'') (λ h'' _. K h'') _ h'
              (drop_bucket codec project urls old) (bucket h' k')
              (λ h'' r' k''. by_bucket go h'' r' k'')
        by_drop bucket go h' (err e) k' = k'
