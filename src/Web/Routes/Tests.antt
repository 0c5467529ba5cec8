-- ===== src/Web/Routes/Tests.antt =====
-- The theorem on the routes, at a server with authentication and one allowed namespace.
use rpc_operator.Prelude.{◌≡◌, refl, true, false, none, [], ◌∷◌, All}
use rpc_operator.Fallible.{ok, err}
use rpc_operator.Effects.{ret}
use rpc_operator.Render.Value.{str}
use rpc_operator.Web.Access.{
  Server, Head, problem, background, token_from_request, auth_or_anonymous, allowlist,
}
use rpc_operator.Web.Rest.Calls.{pipelines, fails}
use rpc_operator.Web.Rest.Shared.{RestDeps, Body, list_namespaced}
use rpc_operator.Web.Routes.{
  readable, whoami_route, namespaces_route, pipeline_routes, cluster_routes, project_routes,
  spec_routes,
}
use rpc_operator.Web.Routes.Guarded.{Keeps, resource_routes-Guarded}

abbrev server : Server
server = record {
  watch_namespaces = "team" ∷ [];
  auth_enabled = true;
  anonymous_read = true;
  anonymous_logs = false;
  prometheus_url = "";
  oidc = none;
  has_rest_config = true;
  has_scheme = true;
  has_clientset = true;
}

abbrev deps : RestDeps
deps = record {
  server = server;
  codec = record {
    yaml_marshal = λ v. ok "yaml";
    yaml_unmarshal = λ text. ok (str text);
    json_unmarshal = λ text. ok (str text);
  };
  json = record {
    parse_schema = λ text. ok (str text);
    compile = λ path doc. ok (λ v. ok tt);
    raw_field = λ field raw. none;
    parse_items = λ raw. none;
    json_marshal = λ v. ok "";
  };
  catalog = λ key. none;
  parse = λ text. none;
}

abbrev no_body : Body
no_body k = err "EOF"

abbrev head : Head
head = record {
  authorization = "Bearer  abc ";
  token_parameter = "";
  namespace = "other";
  name = "p";
}

trimmed : token_from_request head ≡ "abc"
unfolding token_from_request
trimmed = refl

outside_allowlist :
    readable deps no_body (list_namespaced server pipelines) head background
    ≡ ret (
        fails (
          problem 403 "namespace_not_allowed"
            "namespace other is outside the operator's allowlist"))
unfolding auth_or_anonymous allowlist token_from_request
outside_allowlist = refl

resource_routes-Guarded_example :
    Keeps deps no_body head (whoami_route deps no_body)
    × Keeps deps no_body head (namespaces_route deps no_body)
    × All (Keeps deps no_body head) (pipeline_routes deps no_body)
    × All (Keeps deps no_body head) (cluster_routes deps no_body)
    × All (Keeps deps no_body head) (project_routes deps no_body)
    × All (Keeps deps no_body head) (spec_routes deps no_body)
resource_routes-Guarded_example = resource_routes-Guarded deps no_body head
