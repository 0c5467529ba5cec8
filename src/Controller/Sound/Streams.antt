-- ===== src/Controller/Sound/Streams.antt =====
-- Streams of Placement.antt under the policy.
use rpc_operator.Prelude.{
  String, ◌≡◌, refl, ◌⊎◌, inl, inr, Bool, true, ◌||◌, List, [], ◌∷◌, Memᴰ, ◌==◌, arith, eq_iff,
  Option-cases,
}
use rpc_operator.Effects.{ret, ask, Every, Event}
use rpc_operator.Effects.Rules.{Every-if, Every-map}
use rpc_operator.Api.{SecretRef}
use rpc_operator.Secrets.{Values}
use rpc_operator.Controller.Calls.{
  Pipeline, Call, Reply, Answer, ok, err, History, Deps, ensure_stream, get_stream_status,
  delete_pod, delete_config_map, delete_pod_monitor, get_secret, attempt_answer, ignore_not_found,
  ignore_no_match, on_answer,
}
use rpc_operator.Controller.Placement.{
  delete_assigned_stream, migrate_from_old_cluster, ensure_stream_present, is_missing, delete_on,
  delete_pod_mode_children, fetch_secrets, fetch_secret_values, Fetched, secret_of, collect_values,
  missing_secret, recreate,
}
use rpc_operator.Controller.Rules.{
  IfOk, IfOk-map, Nothing, IfOk-always, IfOk-Nothing, attempt_answer-Every,
  attempt_answer_call-Every, event, Released, delete_on-Released,
}
use rpc_operator.Controller.Sound.{Gone, Settled, Settled-later, IsNeeded-later, Confirmed, Sound}

-- which of two tests on texts holds
either_text : (s t u v : String) → (s == t || u == v) ≡ true → (s ≡ t) ⊎ (u ≡ v)
either_text s t u v both = ground (arith, eq_iff s t, eq_iff u v)

either_text_of_three :
    (s t u v w x : String) → (s == t || u == v || w == x) ≡ true → (s ≡ t) ⊎ (u ≡ v) ⊎ (w ≡ x)
either_text_of_three s t u v w x any = ground (arith, eq_iff s t, eq_iff u v, eq_iff w x)

module _ (deps : Deps) (pipe : Pipeline) where
  pub delete_assigned_stream-Gone :
      (h : History) → Every (Sound deps pipe) (IfOk (Gone pipe)) h (delete_assigned_stream pipe)
  unfolding delete_assigned_stream
  delete_assigned_stream-Gone h =
      Every-if (Sound deps pipe) (IfOk (Gone pipe)) h
        (pipe.status.assigned_cluster == "" || pipe.status.assigned_instance == "") _ _
        (λ e.
          nothing_there
            (either_text pipe.status.assigned_cluster "" pipe.status.assigned_instance "" e))
        (λ _.
          Every-map (Sound deps pipe) (IfOk (Released pipe pipe.status.assigned_cluster))
            (IfOk (Gone pipe))
            (IfOk-map (Released pipe pipe.status.assigned_cluster) (Gone pipe)
              (λ h' r. inr (inr r)))
            h (delete_on pipe pipe.status.assigned_cluster)
            (delete_on-Released (Sound deps pipe) pipe (λ h' url. refl) pipe.status.assigned_cluster
              h))
    where
      nothing_there :
          (pipe.status.assigned_cluster ≡ "") ⊎ (pipe.status.assigned_instance ≡ "")
          → IfOk (Gone pipe) h (ok tt)
      nothing_there (inl c) = inl c
      nothing_there (inr i) = inr (inl i)

  pub migrate_from_old_cluster-Settled :
      (cluster : String) (h : History)
      → Every
          (Sound deps pipe)
          (IfOk (Settled pipe cluster))
          h
          (migrate_from_old_cluster pipe cluster)
  unfolding migrate_from_old_cluster
  migrate_from_old_cluster-Settled cluster h =
      Every-if (Sound deps pipe) (IfOk (Settled pipe cluster)) h
        (pipe.status.assigned_cluster == ""
          || pipe.status.assigned_cluster == cluster
          || pipe.status.assigned_instance == "")
        _ _
        (λ e. stays (
          either_text_of_three pipe.status.assigned_cluster "" pipe.status.assigned_cluster cluster
            pipe.status.assigned_instance "" e))
        (λ _.
          Every-map (Sound deps pipe) (IfOk (Released pipe pipe.status.assigned_cluster))
            (IfOk (Settled pipe cluster))
            (IfOk-map (Released pipe pipe.status.assigned_cluster) (Settled pipe cluster)
              (λ h' r. inr (inr (inr r))))
            h (delete_on pipe pipe.status.assigned_cluster)
            (delete_on-Released (Sound deps pipe) pipe (λ h' url. refl) pipe.status.assigned_cluster
              h))
    where
      stays :
          (pipe.status.assigned_cluster ≡ "")
            ⊎ (pipe.status.assigned_cluster ≡ cluster)
            ⊎ (pipe.status.assigned_instance ≡ "")
          → IfOk (Settled pipe cluster) h (ok tt)
      stays (inl none_assigned) = inr (inl none_assigned)
      stays (inr (inl same)) = inl same
      stays (inr (inr i)) = inr (inr (inl i))

  pub delete_pod_mode_children-Sound :
      (h : History) → Every (Sound deps pipe) (IfOk Nothing) h delete_pod_mode_children
  unfolding delete_pod_mode_children
  delete_pod_mode_children-Sound h =
      attempt_answer_call-Every (Sound deps pipe) {A = Unit {0}} {B = Unit {0}} Nothing Nothing
        delete_pod ignore_not_found
        (λ _.
          attempt_answer (ask delete_config_map (λ r. ret (ignore_not_found r)))
            λ _. ask delete_pod_monitor (λ r. ret (ignore_no_match (ignore_not_found r))))
        h tt (λ r. IfOk-Nothing h (ignore_not_found r))
        (λ h' a k.
          attempt_answer_call-Every (Sound deps pipe) {A = Unit {0}} {B = Unit {0}} Nothing Nothing
            delete_config_map ignore_not_found
            (λ _. ask delete_pod_monitor (λ r. ret (ignore_no_match (ignore_not_found r)))) h' tt
            (λ r. IfOk-Nothing h (ignore_not_found r))
            (λ h'' a' k'. (tt, λ r. IfOk-Nothing h (ignore_no_match (ignore_not_found r)))))

  -- The fetch of the secrets keeps what further events keep.
  module _ (K : History → Type 0)
      (later : (h : History) (e : Event Call Reply) → K h → K (e ∷ h)) where
    fetch_secrets-Sound :
        (h : History) (refs : List SecretRef) (fetched : Fetched)
        → K h
        → Every (Sound deps pipe) (IfOk K) h (fetch_secrets refs fetched)
    unfolding fetch_secrets
    fetch_secrets-Sound h [] fetched k = k
    fetch_secrets-Sound h (ref ∷ refs) fetched k =
        elim (Option-cases (secret_of ref.secret_name fetched)) [
          | inl e ↦
              rw (e, fetch_secrets, Every)
                (tt, λ r. by_reply (λ h' f k'. fetch_secrets-Sound h' refs f k') r)
          | inr (v, e) ↦ rw (e, fetch_secrets) (fetch_secrets-Sound h refs fetched k)
        ]
      where
        by_reply :
            ((h' : History) (f : Fetched)
              → K h'
              → Every (Sound deps pipe) (IfOk K) h' (fetch_secrets refs f))
            → (r : Answer Values)
            → Every (Sound deps pipe) (IfOk K) (event (get_secret ref.secret_name) r ∷ h) (
                on_answer r
                  (λ entries. fetch_secrets refs ((ref.secret_name, entries) ∷ fetched))
                  (λ e. ret (err (missing_secret ref.secret_name e))))
        by_reply rest (ok entries) =
            rest (event (get_secret ref.secret_name) (ok entries) ∷ h) _ (later h _ k)
        by_reply rest (err e) = tt

    pub fetch_secret_values-Sound :
        (h : History) (refs : List SecretRef)
        → K h
        → Every (Sound deps pipe) (IfOk K) h (fetch_secret_values refs)
    unfolding fetch_secret_values
    fetch_secret_values-Sound h refs k =
        attempt_answer-Every (Sound deps pipe) K K _ h _ (fetch_secrets-Sound h refs [] k)
          (λ h' fetched k'. IfOk-always K h' (collect_values fetched refs []) k')

  ensure_stream-later :
      (url body : String) (h : History) (e : Event Call Reply)
      → Sound deps pipe h (ensure_stream url pipe.name body)
      → Sound deps pipe (e ∷ h) (ensure_stream url pipe.name body)
  ensure_stream-later url body h e (live, kept, runs, same, cluster, ord, u, s, n) = (
    live,
    kept,
    runs,
    same,
    cluster,
    ord,
    u,
    Settled-later pipe cluster h e s,
    IsNeeded-later deps pipe cluster ord body h e n,
  )

  -- the instance took the configuration, and may be given it again
  abbrev Placed : String → String → History → Type 0
  Placed url body h =
      Confirmed url pipe.name body h × Sound deps pipe h (ensure_stream url pipe.name body)

  -- where the configuration may be written, the instance took it when there is no error
  pub ensure_stream_present-Confirmed :
      (url body : String)
      → (h : History) → Sound deps pipe h (ensure_stream url pipe.name body)
      → Every
          (Sound deps pipe)
          (IfOk (Confirmed url pipe.name body))
          h
          (ensure_stream_present url pipe.name body)
  unfolding ensure_stream_present
  ensure_stream_present-Confirmed url body h allowed =
      attempt_answer_call-Every (Sound deps pipe) {A = Unit {0}} {B = Unit {0}} (Placed url body)
        (Confirmed url pipe.name body) (ensure_stream url pipe.name body) (λ r. r)
        (λ _. ask (get_stream_status url pipe.name) (recreate url pipe.name body)) h allowed first
        (λ h' a k. (tt, λ st. by_status h' k.0 k.1 st))
    where
      first :
          (r : Answer (Unit {0}))
          → IfOk (Placed url body) (event (ensure_stream url pipe.name body) r ∷ h) r
      first (ok u) = (Memᴰ.head refl, ensure_stream-later url body h _ allowed)
      first (err e) = tt

      again :
          (h' : History) (r : Answer (Unit {0}))
          → IfOk (Confirmed url pipe.name body) (event (ensure_stream url pipe.name body) r ∷ h') r
      again h' (ok u) = Memᴰ.head refl
      again h' (err e) = tt

      by_status :
          (h' : History)
          → Confirmed url pipe.name body h'
          → Sound deps pipe h' (ensure_stream url pipe.name body)
          → (st : Answer Bool)
          → Every
              (Sound deps pipe)
              (IfOk (Confirmed url pipe.name body))
              (event (get_stream_status url pipe.name) st ∷ h')
              (recreate url pipe.name body st)
      by_status h' c s st =
          Every-if (Sound deps pipe) (IfOk (Confirmed url pipe.name body)) _ (is_missing st) _ _
            (λ _. (
              refl,
              λ r. (
                ensure_stream-later url body _ _ (ensure_stream-later url body _ _ s),
                λ r'. again _ r',
              ),
            ))
            (λ _. Memᴰ.tail c)
