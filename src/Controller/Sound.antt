-- ===== src/Controller/Sound.antt =====
-- What the calls of a reconcile of a pipeline may do, by what the replies before them confirmed. The
-- submodules show it of the handlers of internal/controller.
mod Writes
mod Streams
mod Assigned
mod Handlers
mod Pods
mod Whole
pub mod Promises
use rpc_operator.Prelude.{String, ◌≡◌, ◌≢◌, ◌⊎◌, inl, inr, Bool, true, false, ◌∷◌, Memᴰ}
use rpc_operator.Prelude.Int.{ℤ}
use rpc_operator.Effects.{Event}
use rpc_operator.Api.{PipelineStatus}
use rpc_operator.Scheduler.{instance_name, cluster_pod_url}
use rpc_operator.Controller.Calls.{
  Pipeline, Call, Reply, Answer, ok, err, History, Deps, remove_finalizer, update_status, apply_pod,
  stream_not_found, ensure_stream, delete_stream, get_stream_status,
}
use rpc_operator.Controller.ClusterMode.{stream_config_hash}
use rpc_operator.Controller.Rules.{Policy, event, Released, Released-later}

-- No stream of the recorded placement is left: there is none, or its deletion is confirmed.
abbrev pub Gone : Pipeline → History → Type 0
Gone pipe h =
    (pipe.status.assigned_cluster ≡ "")
    ⊎ (pipe.status.assigned_instance ≡ "")
    ⊎ Released pipe pipe.status.assigned_cluster h

pub Gone-later :
    (pipe : Pipeline) (h : History) (e : Event Call Reply) → Gone pipe h → Gone pipe (e ∷ h)
Gone-later pipe h e (inl c) = inl c
Gone-later pipe h e (inr (inl i)) = inr (inl i)
Gone-later pipe h e (inr (inr r)) =
    inr (inr (Released-later pipe pipe.status.assigned_cluster h e r))

-- The pipeline is placed on this cluster already, or has no stream elsewhere.
abbrev pub Settled : Pipeline → String → History → Type 0
Settled pipe cluster h = (pipe.status.assigned_cluster ≡ cluster) ⊎ Gone pipe h

pub Settled-later :
    (pipe : Pipeline) (cluster : String) (h : History) (e : Event Call Reply)
    → Settled pipe cluster h
    → Settled pipe cluster (e ∷ h)
Settled-later pipe cluster h e (inl c) = inl c
Settled-later pipe cluster h e (inr g) = inr (Gone-later pipe h e g)

-- The reply to a question for a stream's status reports no stream to repair: the stream is active, or
-- the question failed otherwise than with a missing stream.
abbrev pub ReportsNoHarm : Answer Bool → Type 0
ReportsNoHarm (ok active) = active ≡ true
ReportsNoHarm (err e) = e.kind ≢ stream_not_found

-- The instance was asked for the stream's status, and no stream to repair was reported.
abbrev pub SeenUnharmed : String → String → History → Type 0
SeenUnharmed url id h =
    (st : Answer Bool) × Memᴰ (event (get_stream_status url id) st) h × ReportsNoHarm st

-- The reply reports a stream to repair: it is missing, or it is there and not active.
abbrev pub ReportsHarm : Answer Bool → Type 0
ReportsHarm (ok active) = active ≡ false
ReportsHarm (err e) = e.kind ≡ stream_not_found

abbrev pub SeenHarmed : String → String → History → Type 0
SeenHarmed url id h =
    (st : Answer Bool) × Memᴰ (event (get_stream_status url id) st) h × ReportsHarm st

-- The instance took the stream with this configuration.
abbrev pub Confirmed : String → String → String → History → Type 0
Confirmed url id body h = Memᴰ (event (ensure_stream url id body) (ok tt)) h

module _ (deps : Deps) (pipe : Pipeline) where
  -- The placement that a status records is that of a stream that runs: the instance is one of the
  -- cluster, the hash is that of a configuration, and the instance took the configuration in this
  -- reconcile, or the hash is as recorded before and the stream was asked for without a report of a
  -- missing or inactive one.
  abbrev pub Backed : History → PipelineStatus → Type 0
  Backed h s =
      (ord : ℤ) × (s.assigned_instance ≡ instance_name s.assigned_cluster ord)
      × (s.stream_id ≡ pipe.name)
      × (body : String) × (s.stream_config_hash ≡ stream_config_hash deps s.assigned_instance body)
      × (Confirmed (cluster_pod_url s.assigned_cluster pipe.namespace ord) pipe.name body h
          ⊎ ((s.stream_config_hash ≡ pipe.status.stream_config_hash)
              × SeenUnharmed (cluster_pod_url s.assigned_cluster pipe.namespace ord) pipe.name h))

  -- The configuration is to be written to the instance: its hash is not the recorded one, or the stream
  -- was reported as missing or as inactive.
  abbrev pub IsNeeded : String → ℤ → String → History → Type 0
  IsNeeded cluster ord body h =
      (pipe.status.stream_config_hash ≢ stream_config_hash deps (instance_name cluster ord) body)
      ⊎ SeenHarmed (cluster_pod_url cluster pipe.namespace ord) pipe.name h

  pub IsNeeded-later :
      (cluster : String) (ord : ℤ) (body : String) (h : History) (e : Event Call Reply)
      → IsNeeded cluster ord body h
      → IsNeeded cluster ord body (e ∷ h)
  IsNeeded-later cluster ord body h e (inl other) = inl other
  IsNeeded-later cluster ord body h e (inr (st, m, harmed)) = inr (st, Memᴰ.tail m, harmed)

  -- Everything that this development shows of the calls of a reconcile.
  abbrev pub Sound : Policy
  Sound h remove_finalizer = (pipe.deleting ≡ true) × Gone pipe h
  Sound h (update_status s) =
      (pipe.deleting ≡ false)
      × ((s.assigned_instance ≡ "") ⊎ Backed h s)
      × (pipe.spec.stopped ≡ true → Gone pipe h)
  Sound h (apply_pod _) = (pipe.spec.stopped ≡ false) × Gone pipe h
  Sound h (ensure_stream url id body) =
      (pipe.deleting ≡ false)
      × (pipe.has_finalizer ≡ true)
      × (pipe.spec.stopped ≡ false)
      × (id ≡ pipe.name)
      × (cluster : String) × (ord : ℤ) × (url ≡ cluster_pod_url cluster pipe.namespace ord)
      × Settled pipe cluster h
      × IsNeeded cluster ord body h
  Sound h (delete_stream url id) = id ≡ pipe.name
  Sound h _ = Unit
