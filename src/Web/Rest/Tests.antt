-- ===== src/Web/Rest/Tests.antt =====
-- The theorem on valid projects, at a project with a route from a pipeline that is not there.
use rpc_operator.Prelude.{true, false, ◌≡◌, ◌≢◌, none, List, [], ◌∷◌, map}
use rpc_operator.Fallible.{ok, err}
use rpc_operator.Controller.Calls.{Pipeline}
use rpc_operator.Project.Types.{Project}
use rpc_operator.ProjectController.Views.{route_error_of}
use rpc_operator.Render.Value.{str}
use rpc_operator.Render.Document.{Codec}
use rpc_operator.Effects.{ret}
use rpc_operator.Web.Access.{Server}
use rpc_operator.Web.Validate.{ValidationError}
use rpc_operator.Web.Rest.Calls.{RestAct, RestResponse, invalid, deleted}
use rpc_operator.Web.Rest.Shared.{RestDeps, Body}
use rpc_operator.Web.Rest.Projects.{graph_checked}
use rpc_operator.Web.Rest.Agreement.{as_listed, graph_checked-route_error_of}

abbrev codec : Codec
codec = record {
  yaml_marshal = λ v. ok "yaml";
  yaml_unmarshal = λ text. ok (str text);
  json_unmarshal = λ text. ok (str text);
}

abbrev shop : Project
shop = record {
  name = "shop";
  namespace = "ns";
  spec = record {
    cluster = none;
    nats = none;
    routes =
        record {
          name = "out";
          from = "gone";
          to = record { pipeline = "gone"; when = "" } ∷ [];
          retention = none;
        }
        ∷ [];
    cache_resources = [];
  };
}

abbrev no_pipelines : List Pipeline
no_pipelines = []

abbrev server : Server
server = record {
  watch_namespaces = [];
  auth_enabled = false;
  anonymous_read = false;
  anonymous_logs = false;
  prometheus_url = "";
  oidc = none;
  has_rest_config = true;
  has_scheme = true;
  has_clientset = true;
}

abbrev deps : RestDeps
deps = record {
  server = server;
  codec = codec;
  json = record {
    parse_schema = λ text. ok (str text);
    compile = λ path doc. ok (λ v. ok tt);
    raw_field = λ field raw. none;
    parse_items = λ raw. none;
    json_marshal = λ v. ok "";
  };
  catalog = λ key. none;
  parse = λ text. none;
}

abbrev no_body : Body
no_body k = err "EOF"

abbrev stored : RestAct RestResponse
stored = ret (deleted "shop")

graph_checked-route_error_of_example :
    (route_error_of codec (λ text. none) shop (map as_listed no_pipelines) ≡ ""
      → graph_checked deps no_body shop stored no_pipelines ≡ stored)
    × (route_error_of codec (λ text. none) shop (map as_listed no_pipelines) ≢ ""
        → (e : ValidationError) × (es : List ValidationError) × (graph_checked deps no_body shop
              stored no_pipelines
            ≡ ret (invalid (e ∷ es))))
graph_checked-route_error_of_example =
    graph_checked-route_error_of deps no_body shop stored no_pipelines
