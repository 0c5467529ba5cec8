-- ===== src/Controller/Sound/Promises.antt =====
-- What `Reconcile` of internal/controller/pipeline_controller.go promises of the finalizer, of the
-- statuses that it writes and of the streams, whatever the services reply.
use rpc_operator.Prelude.{String, ◌≡◌, ◌⊎◌, true, false, []}
use rpc_operator.Prelude.Int.{ℤ}
use rpc_operator.Effects.{Every}
use rpc_operator.Effects.Rules.{Every-policy}
use rpc_operator.Scheduler.{cluster_pod_url}
use rpc_operator.Controller.Calls.{
  Pipeline, Call, History, Deps, remove_finalizer, update_status, ensure_stream, delete_stream,
  apply_pod,
}
use rpc_operator.Controller.Reconcile.{reconcile_pipeline}
use rpc_operator.Controller.Rules.{Policy, Anything}
use rpc_operator.Controller.Sound.{Gone, Settled, Sound, Backed, IsNeeded}
use rpc_operator.Controller.Sound.Whole.{reconcile_pipeline-Sound}

-- The finalizer of a pipeline is released only in a deletion, behind the deletion of its stream.
abbrev pub ReleasesFinalizer : Pipeline → Policy
ReleasesFinalizer pipe h remove_finalizer = (pipe.deleting ≡ true) × Gone pipe h
ReleasesFinalizer pipe h _ = Unit

-- A status names an instance only where the stream stands behind it.
abbrev pub WritesBacked : Deps → Pipeline → Policy
WritesBacked deps pipe h (update_status s) = (s.assigned_instance ≡ "") ⊎ Backed deps pipe h s
WritesBacked deps pipe h _ = Unit

-- A stream is written only for a pipeline with a finalizer, on an instance of a cluster, and with no
-- stream left on another cluster; no other pipeline's stream is deleted.
abbrev pub PlacesOnce : Pipeline → Policy
PlacesOnce pipe h (ensure_stream url id body) =
    (pipe.has_finalizer ≡ true)
    × (id ≡ pipe.name)
    × (cluster : String) × (ord : ℤ) × (url ≡ cluster_pod_url cluster pipe.namespace ord)
    × Settled pipe cluster h
PlacesOnce pipe h (delete_stream url id) = id ≡ pipe.name
PlacesOnce pipe h _ = Unit

-- A stopped pipeline gets neither a pod nor a stream, and its status is written behind the deletion.
abbrev pub StaysStopped : Pipeline → Policy
StaysStopped pipe h (ensure_stream url id body) = pipe.spec.stopped ≡ false
StaysStopped pipe h (apply_pod _) = (pipe.spec.stopped ≡ false) × Gone pipe h
StaysStopped pipe h (update_status s) = pipe.spec.stopped ≡ true → Gone pipe h
StaysStopped pipe h _ = Unit

-- A stream is written only where its configuration differs from the recorded one, or where the instance
-- reported it as missing or as inactive.
abbrev pub SparesHealthy : Deps → Pipeline → Policy
SparesHealthy deps pipe h (ensure_stream url id body) =
    (cluster : String) × (ord : ℤ) × (url ≡ cluster_pod_url cluster pipe.namespace ord)
    × IsNeeded deps pipe cluster ord body h
SparesHealthy deps pipe h _ = Unit

module _ (deps : Deps) (pipe : Pipeline) where
  -- Whatever the services reply, a reconcile removes the finalizer only from a pipeline that is being
  -- deleted, and only where its status records no stream of the cluster or the API server of the
  -- instance has confirmed the deletion of that stream earlier in the same reconcile.
  pub reconcile_pipeline-ReleasesFinalizer :
      Every (ReleasesFinalizer pipe) Anything [] (reconcile_pipeline deps pipe)
  reconcile_pipeline-ReleasesFinalizer =
      Every-policy (Sound deps pipe) (ReleasesFinalizer pipe) Anything weaker [] _
        (reconcile_pipeline-Sound deps pipe [])
    where
      weaker : (h : History) (c : Call) → Sound deps pipe h c → ReleasesFinalizer pipe h c
      weaker h remove_finalizer s = s
      weaker h _ s = tt

  -- Whatever the services reply, every status that a reconcile writes either names no instance, or names one
  -- of its cluster together with the hash of a configuration, and then that instance took the configuration
  -- in this reconcile, or the hash is the recorded one and the instance was asked for the
  -- stream and did not report it as missing or as inactive.
  pub reconcile_pipeline-WritesBacked :
      Every (WritesBacked deps pipe) Anything [] (reconcile_pipeline deps pipe)
  reconcile_pipeline-WritesBacked =
      Every-policy (Sound deps pipe) (WritesBacked deps pipe) Anything weaker [] _
        (reconcile_pipeline-Sound deps pipe [])
    where
      weaker : (h : History) (c : Call) → Sound deps pipe h c → WritesBacked deps pipe h c
      weaker h (update_status s) (l, b, g) = b
      weaker h _ s = tt

  -- Whatever the services reply, a reconcile writes a stream only under the name of its pipeline, which has
  -- the finalizer, to an instance of a cluster, and only where the status names that cluster, or names none,
  -- or the stream on the old cluster is confirmed as deleted; and it deletes only streams of that name.
  pub reconcile_pipeline-PlacesOnce :
      Every (PlacesOnce pipe) Anything [] (reconcile_pipeline deps pipe)
  reconcile_pipeline-PlacesOnce =
      Every-policy (Sound deps pipe) (PlacesOnce pipe) Anything weaker [] _
        (reconcile_pipeline-Sound deps pipe [])
    where
      weaker : (h : History) (c : Call) → Sound deps pipe h c → PlacesOnce pipe h c
      weaker h (ensure_stream url id body) (l, kept, runs, same, cluster, ord, u, settled, n) =
          (kept, same, cluster, ord, u, settled)
      weaker h (delete_stream url id) s = s
      weaker h _ s = tt

  -- Whatever the services reply, a reconcile of a stopped pipeline writes no stream and no pod, and writes
  -- its status only where it has no recorded stream or that stream is confirmed as deleted; a pod is never
  -- applied while a recorded stream may still run.
  pub reconcile_pipeline-StaysStopped :
      Every (StaysStopped pipe) Anything [] (reconcile_pipeline deps pipe)
  reconcile_pipeline-StaysStopped =
      Every-policy (Sound deps pipe) (StaysStopped pipe) Anything weaker [] _
        (reconcile_pipeline-Sound deps pipe [])
    where
      weaker : (h : History) (c : Call) → Sound deps pipe h c → StaysStopped pipe h c
      weaker h (ensure_stream url id body) (l, kept, runs, p, cluster, ord, u, settled, n) = runs
      weaker h (apply_pod t) s = s
      weaker h (update_status st) (l, b, g) = g
      weaker h _ s = tt

  -- Whatever the services reply, a reconcile writes a stream to an instance only where the hash of the
  -- configuration for this instance is not the recorded one, or where the instance reported the stream as
  -- missing or as inactive earlier in the same reconcile: a stream that is active, or of which nothing
  -- could be learnt, is not deployed again under the recorded hash.
  pub reconcile_pipeline-SparesHealthy :
      Every (SparesHealthy deps pipe) Anything [] (reconcile_pipeline deps pipe)
  reconcile_pipeline-SparesHealthy =
      Every-policy (Sound deps pipe) (SparesHealthy deps pipe) Anything weaker [] _
        (reconcile_pipeline-Sound deps pipe [])
    where
      weaker : (h : History) (c : Call) → Sound deps pipe h c → SparesHealthy deps pipe h c
      weaker h (ensure_stream url id body) (l, kept, runs, same, cluster, ord, u, settled, needed) =
          (cluster, ord, u, needed)
      weaker h _ s = tt
