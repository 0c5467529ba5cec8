-- ===== src/ProjectController/Calls.antt =====
-- What the PipelineProject controller asks of the project's NATS server (the interface StreamManager of
-- internal/nats/manager.go), and the statuses of the routes.
use rpc_operator.Prelude.{ℕ, String, List, Option}
use rpc_operator.Effects.{Prog, Event}
use rpc_operator.Api.Conditions.{Condition}
use rpc_operator.Controller.Calls.{Answer, Error}

-- nats.Retention; durations are in nanoseconds
pub record Retention : Type 0 where
  pub max_age : ℕ
  pub max_bytes : ℕ
  pub max_msgs : ℕ

-- `ensure_nats_stream url stream subject retention` and `delete_nats_stream url stream`
pub data NatsCall : Type 0 where
  ensure_nats_stream : String → String → String → Retention → NatsCall
  delete_nats_stream : String → String → NatsCall

abbrev pub NatsReply : NatsCall → Type 0
NatsReply _ = Answer (Unit {0})

abbrev pub Nats : Type 0 → Type 0
Nats A = Prog NatsCall NatsReply A

abbrev pub NatsHistory : Type 0
NatsHistory = List (Event NatsCall NatsReply)

-- ProjectRouteStatus
pub record RouteStatus : Type 0 where
  pub name : String
  pub subject : String
  pub stream : String
  pub phase : String
  pub conditions : List Condition

-- the statuses and the error that `reconcileRouteStreams` returns
pub record RouteOutcome : Type 0 where
  pub statuses : List RouteStatus
  pub failure : Option Error
