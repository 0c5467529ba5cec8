-- ===== src/Controller/Sound/Assigned.antt =====
-- The cluster and project modes of ClusterMode.antt under the policy.
use Prim.Native.String
use rpc_operator.Prelude.{
  ◌≢◌, ◌==◌, arith, String, ◌≡◌, refl, sym, ◌⊎◌, inl, inr, Bool, true, false, Option, List, Memᴰ,
  ◌∷◌, Option-cases, Text-cases, if◌then◌else◌, is_empty, eq_iff,
}
use rpc_operator.Prelude.Int.{ℤ}
use rpc_operator.Prelude.Quote.{quote}
use rpc_operator.Effects.{ret, ask, Every}
use rpc_operator.Effects.Rules.{Every-if, Every-bind}
use rpc_operator.Fallible.{Fallible}
use rpc_operator.Render.Document.{render_stream_config}
use rpc_operator.Render.ProjectRewrite.{ProjectIoPlan}
use rpc_operator.Scheduler
use rpc_operator.Scheduler.{
  Pod, cluster_pod_url, instance_name, pick_instance, ready_cluster_ordinals, load_by_ordinal,
}
use rpc_operator.Secrets.{Values, substitute_secrets}
use rpc_operator.Controller.Calls
use rpc_operator.Controller.Calls.{
  Pipeline, Call, Reply, Act, Answer, ok, err, Error, History, Outcome, Deps, on_answer,
  is_not_found, is_rejected, no_requeue, after_resync, update_status, ensure_stream,
  get_stream_status, get_cluster, get_project, list_pods, list_pipelines,
}
use rpc_operator.Controller.Status.{written_status, mark_cluster_failed}
use rpc_operator.Controller.Placement.{ensure_stream_present, fetch_secret_values}
use rpc_operator.Controller.ClusterMode.{
  stream_config_hash, finish_placement, deploy, deploy_if_needed, needs_repair, with_secrets,
  rewritten, render_and_deploy, schedule, current_instance,
}
use rpc_operator.Controller.Errors.{is_stream_not_found-kind, is_stream_not_found-true}
use rpc_operator.Controller.Rules.{Anything, IfOk, event}
use rpc_operator.Controller.Sound.{
  Settled, Settled-later, Confirmed, SeenUnharmed, ReportsNoHarm, ReportsHarm, IsNeeded, Sound,
}
use rpc_operator.Controller.Sound.Writes.{
  write_cluster_status-Sound, mark_cluster_failed-Sound, mark_cluster_pending-Sound,
}
use rpc_operator.Controller.Sound.Streams.{
  ensure_stream_present-Confirmed, fetch_secret_values-Sound,
}

module _ (deps : Deps) (pipe : Pipeline) (live : pipe.deleting ≡ false)
    (kept : pipe.has_finalizer ≡ true) (runs : pipe.spec.stopped ≡ false) where
  -- why the stream is there: the instance took the body, or the hash and the status are as before
  abbrev Evidence : String → String → String → String → History → Type 0
  Evidence url hash inst body h =
      (hash ≡ stream_config_hash deps inst body)
      × (Confirmed url pipe.name body h
          ⊎ ((hash ≡ pipe.status.stream_config_hash) × SeenUnharmed url pipe.name h))

  Evidence-later :
      (url hash inst body : String) (h : History) (c : Call) (r : Reply c)
      → Evidence url hash inst body h
      → Evidence url hash inst body (event c r ∷ h)
  Evidence-later url hash inst body h c r (b, inl m) = (b, inl (Memᴰ.tail m))
  Evidence-later url hash inst body h c r (b, inr (same, (st, m, fine))) =
      (b, inr (same, (st, Memᴰ.tail m, fine)))

  finish_placement-Sound :
      (cluster : String) (ord : ℤ) (body hash : String) (h : History)
      → Evidence
          (cluster_pod_url cluster pipe.namespace ord)
          hash
          (instance_name cluster ord)
          body
          h
      → Every (Sound deps pipe) Anything h (finish_placement deps pipe cluster ord hash)
  unfolding finish_placement written_status
  finish_placement-Sound cluster ord body hash h e = (
    tt,
    λ st.
        write_cluster_status-Sound deps pipe _ _ _
          (live, inr (ord, refl, refl, body, e.0, (later st).1), λ s. cc),
  )
    where
      later :
          (st : Answer Bool)
          → Evidence
              (cluster_pod_url cluster pipe.namespace ord)
              hash
              (instance_name cluster ord)
              body
              (event (get_stream_status (cluster_pod_url cluster pipe.namespace ord) pipe.name) st
                ∷ h)
      later st =
          Evidence-later (cluster_pod_url cluster pipe.namespace ord) hash
            (instance_name cluster ord) body h
            (get_stream_status (cluster_pod_url cluster pipe.namespace ord) pipe.name) st e

  deploy-Sound :
      (cluster : String) (ord : ℤ) (body : String) (h : History)
      → Settled pipe cluster h
      → IsNeeded deps pipe cluster ord body h
      → Every (Sound deps pipe) Anything h (
          deploy deps pipe cluster ord body
            (stream_config_hash deps (instance_name cluster ord) body))
  unfolding deploy
  deploy-Sound cluster ord body h s needed =
      Every-bind (Sound deps pipe) (IfOk (Confirmed url pipe.name body)) Anything _ h
        (ensure_stream_present url pipe.name body)
        (ensure_stream_present-Confirmed deps pipe url body h
          (live, kept, runs, refl, cluster, ord, refl, s, needed))
        by_reply
    where
      url : String
      url = cluster_pod_url cluster pipe.namespace ord

      hash : String
      hash = stream_config_hash deps (instance_name cluster ord) body

      by_reply :
          (h' : History) (r : Answer (Unit {0}))
          → IfOk (Confirmed (cluster_pod_url cluster pipe.namespace ord) pipe.name body) h' r
          → Every (Sound deps pipe) Anything h' (
              on_answer r
                (λ _.
                  finish_placement deps pipe cluster ord
                    (stream_config_hash deps (instance_name cluster ord) body))
                (λ e.
                  if is_rejected e
                  then mark_cluster_failed deps pipe "StreamConfigInvalid" e.text no_requeue
                  else ret (Calls.failed e)))
      by_reply h' (ok u) m = finish_placement-Sound cluster ord body _ h' (refl, inl m)
      by_reply h' (err e) m =
          Every-if (Sound deps pipe) Anything h' (is_rejected e) _ _
            (λ _.
              mark_cluster_failed-Sound deps pipe live runs "StreamConfigInvalid" e.text no_requeue
                h')
            (λ _. tt)

  deploy_if_needed-Sound :
      (cluster : String) (ord : ℤ) (body : String) (h : History)
      → Settled pipe cluster h
      → Every (Sound deps pipe) Anything h (deploy_if_needed deps pipe cluster ord body)
  unfolding deploy_if_needed
  deploy_if_needed-Sound cluster ord body h s =
      elim (Text-cases pipe.status.stream_config_hash
        (stream_config_hash deps (instance_name cluster ord) body)) [
          | inl same ↦
              rw
                (
                  (eq_iff pipe.status.stream_config_hash
                        (stream_config_hash deps (instance_name cluster ord) body)).1
                      same,
                  deploy_if_needed,
                )
                (by_status same)
          | inr other ↦
              rw (other, deploy_if_needed) (deploy-Sound cluster ord body h s (inl (differs other)))
        ]
    where
      differs :
          (pipe.status.stream_config_hash
              == stream_config_hash deps (instance_name cluster ord) body)
            ≡ false
          → pipe.status.stream_config_hash
            ≢ stream_config_hash deps (instance_name cluster ord) body
      differs other same = cc (
        (eq_iff pipe.status.stream_config_hash
              (stream_config_hash deps (instance_name cluster ord) body)).1
            same,
        other,
      )

      harmed : (st : Answer Bool) → needs_repair st ≡ true → ReportsHarm st
      harmed (ok active) broken = ground arith
      harmed (err e) broken = is_stream_not_found-true e broken

      unharmed : (st : Answer Bool) → needs_repair st ≡ false → ReportsNoHarm st
      unharmed (ok active) fine = ground arith
      unharmed (err e) fine = is_stream_not_found-kind e fine

      by_status :
          pipe.status.stream_config_hash ≡ stream_config_hash deps (instance_name cluster ord) body
          → Every (Sound deps pipe) Anything h (
              ask (get_stream_status (cluster_pod_url cluster pipe.namespace ord) pipe.name) (λ st.
                if needs_repair st
                then deploy deps pipe cluster ord body
                    (stream_config_hash deps (instance_name cluster ord) body)
                else finish_placement deps pipe cluster ord
                    (stream_config_hash deps (instance_name cluster ord) body)))
      by_status same = (
        tt,
        λ st.
            Every-if (Sound deps pipe) Anything _ (needs_repair st) _ _
              (λ broken.
                deploy-Sound cluster ord body _ (Settled-later pipe cluster h _ s)
                  (inr (st, Memᴰ.head refl, harmed st broken)))
              (λ fine.
                finish_placement-Sound cluster ord body _ _
                  (refl, inr (sym same, (st, Memᴰ.head refl, unharmed st fine)))),
      )

  with_secrets-Sound :
      (cluster : String) (ord : ℤ) (body : String) (h : History)
      → Settled pipe cluster h
      → Every (Sound deps pipe) Anything h (with_secrets deps pipe cluster ord body)
  unfolding with_secrets
  with_secrets-Sound cluster ord body h s =
      Every-if (Sound deps pipe) Anything h (is_empty pipe.spec.secret_refs) _ _
        (λ _. deploy_if_needed-Sound cluster ord body h s)
        (λ _.
          Every-bind (Sound deps pipe) (IfOk (Settled pipe cluster)) Anything _ h
            (fetch_secret_values pipe.spec.secret_refs)
            (fetch_secret_values-Sound deps pipe (Settled pipe cluster) (Settled-later pipe cluster)
              h pipe.spec.secret_refs s)
            by_reply)
    where
      by_reply :
          (h' : History) (r : Answer Values)
          → IfOk (Settled pipe cluster) h' r
          → Every (Sound deps pipe) Anything h' (
              on_answer r
                (λ values.
                  deploy_if_needed deps pipe cluster ord
                    (substitute_secrets body pipe.spec.secret_refs values))
                (λ e. mark_cluster_failed deps pipe "SecretNotFound" e.text no_requeue))
      by_reply h' (ok values) s' = deploy_if_needed-Sound cluster ord _ h' s'
      by_reply h' (err e) s' =
          mark_cluster_failed-Sound deps pipe live runs "SecretNotFound" e.text no_requeue h'

  render_and_deploy-Sound :
      (cluster : String) (io_plan : Option ProjectIoPlan) (ord : ℤ) (h : History)
      → Settled pipe cluster h
      → Every (Sound deps pipe) Anything h (render_and_deploy deps pipe cluster io_plan ord)
  unfolding render_and_deploy
  render_and_deploy-Sound cluster io_plan ord h s =
      elim (render_stream_config deps.codec pipe.spec)
        as (λ rendered. Every (Sound deps pipe) Anything h (elim rendered [
          | Fallible.err e ↦ mark_cluster_failed deps pipe "RenderError" e no_requeue
          | Fallible.ok body ↦ elim (rewritten deps io_plan body) [
            | Fallible.err e ↦ mark_cluster_failed deps pipe "RewriteError" e no_requeue
            | Fallible.ok body' ↦ with_secrets deps pipe cluster ord body'
          ]
        ])) [
          | Fallible.err e ↦
              mark_cluster_failed-Sound deps pipe live runs "RenderError" e no_requeue h
          | Fallible.ok body ↦
              elim (rewritten deps io_plan body)
                as (λ r. Every (Sound deps pipe) Anything h (elim r [
                  | Fallible.err e ↦ mark_cluster_failed deps pipe "RewriteError" e no_requeue
                  | Fallible.ok body' ↦ with_secrets deps pipe cluster ord body'
                ])) [
                  | Fallible.err e ↦
                      mark_cluster_failed-Sound deps pipe live runs "RewriteError" e no_requeue h
                  | Fallible.ok body' ↦ with_secrets-Sound cluster ord body' h s
                ]
        ]

  pub schedule-Sound :
      (cluster : String) (io_plan : Option ProjectIoPlan) (pods : List Pod)
      (pipelines : List Scheduler.Placement) (h : History)
      → Settled pipe cluster h
      → Every (Sound deps pipe) Anything h (schedule deps pipe cluster io_plan pods pipelines)
  unfolding schedule
  schedule-Sound cluster io_plan pods pipelines h s =
      elim (Option-cases (
        pick_instance (current_instance pipe cluster) cluster (ready_cluster_ordinals cluster pods)
          (load_by_ordinal cluster pipe.name pipelines))) [
            | inl e ↦
                rw (e, schedule)
                  (mark_cluster_pending-Sound deps pipe live runs "ClusterNotReady"
                    (String.◌++◌ "cluster " (String.◌++◌ (quote cluster) " has no ready instances"))
                    h)
            | inr (ord, e) ↦ rw (e, schedule) (render_and_deploy-Sound cluster io_plan ord h s)
          ]
