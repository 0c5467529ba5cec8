-- ===== src/ProjectController/Routes.antt =====
-- `reconcileRouteStreams` of internal/controller/pipelineproject_routes.go, and `RouteStatuses` of
-- internal/projectroute/projectroute.go. The statuses of the last reconcile are an argument.
use Prim.Native.String
use rpc_operator.Prelude.{
  String, Bool, not, ◌&&◌, Option, none, some, List, [], ◌∷◌, ◌==◌, if◌then◌else◌, any,
}
use rpc_operator.Effects.{ret, ask, ◌>>=◌}
use rpc_operator.Controller.Calls.{Answer, ok, err, Error, on_answer}
use rpc_operator.Project.Types.{ProjectRoute, Project}
use rpc_operator.Project.Naming.{stream_name, subject, nats_url}
use rpc_operator.ProjectController.Calls.{
  ensure_nats_stream, delete_nats_stream, Nats, RouteStatus, RouteOutcome,
}
use rpc_operator.ProjectController.Retention.{route_retention}

-- RouteStatuses, with the phase left empty
unfoldable pub route_statuses : String → List ProjectRoute → List RouteStatus
route_statuses project [] = []
route_statuses project (r ∷ rs) =
    record {
      name = r.name;
      subject = subject project r.name;
      stream = stream_name project r.name;
      phase = "";
      conditions = [];
    }
    ∷ route_statuses project rs

-- `st` behind the reply
abbrev pub ready_status : String → ProjectRoute → RouteStatus
ready_status project r = record {
  name = r.name;
  subject = subject project r.name;
  stream = stream_name project r.name;
  phase = "Ready";
  conditions = [];
}

unfoldable pub status_of : String → ProjectRoute → Answer (Unit {0}) → RouteStatus
status_of project r (ok _) = ready_status project r
status_of project r (err e) =
    let st = ready_status project r in
    record st {
      phase = "Failed";
      conditions =
          record { type = "Ready"; status = "False"; reason = "StreamError"; message = e.text }
          ∷ [];
    }

-- `desired[stream]`
unfoldable pub is_desired : String → List ProjectRoute → String → Bool
is_desired project routes stream = any (λ r. stream_name project r.name == stream) routes

module _ (project : Project) where
  abbrev pub url : String
  url = nats_url project.name project.namespace

  -- the loop over the routes
  unfoldable pub ensure_streams : List ProjectRoute → Nats (List RouteStatus)
  ensure_streams [] = ret []
  ensure_streams (r ∷ rs) =
      ask
        (ensure_nats_stream url (stream_name project.name r.name) (subject project.name r.name)
          (route_retention project r))
        λ reply. ensure_streams rs >>= λ rest. ret (status_of project.name r reply ∷ rest)

  abbrev pub stale_error : String → Error → Error
  stale_error stream e = record e {
    text = String.◌++◌ "delete stale stream " (String.◌++◌ stream (String.◌++◌ ": " e.text));
  }

  -- the loop over the statuses of the last reconcile
  unfoldable pub delete_stale : List RouteStatus → Nats (Option Error)
  delete_stale [] = ret none
  delete_stale (old ∷ olds) =
      if not (is_desired project.name project.spec.routes old.stream) && not (old.stream == "")
      then ask (delete_nats_stream url old.stream) (λ reply.
        on_answer reply (λ _. delete_stale olds) (λ e. ret (some (stale_error old.stream e))))
      else delete_stale olds

  -- `wired` is whether there is a stream manager
  unfoldable pub reconcile_route_streams : Bool → List RouteStatus → Nats RouteOutcome
  reconcile_route_streams wired olds =
      if wired
      then (ensure_streams project.spec.routes >>= λ statuses.
          delete_stale olds >>= λ failure. ret (record { statuses = statuses; failure = failure }))
      else ret
          (record { statuses = route_statuses project.name project.spec.routes; failure = none })
