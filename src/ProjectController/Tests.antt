-- ===== src/ProjectController/Tests.antt =====
-- A run of the route streams, and the theorems at a small project.
use rpc_operator.Prelude.{◌≡◌, refl, true, none, some, List, [], ◌∷◌}
use rpc_operator.Effects.{Every}
use rpc_operator.Fallible.{Fallible}
use rpc_operator.Project.Types.{ProjectRoute, CacheResource, Project}
use rpc_operator.Render.Value.{str}
use rpc_operator.Render.Document.{Codec}
use rpc_operator.ProjectController.Caches.{CacheStatus, sync_caches}
use rpc_operator.ProjectController.Caches.Promises as Promises
use rpc_operator.ProjectController.Caches.Laws.{sync_caches-Reports}
use rpc_operator.ProjectController.Calls.{RouteStatus}
use rpc_operator.ProjectController.Retention.{
  route_retention, default_retention, merge_retention, retention_from, day,
}
use rpc_operator.ProjectController.Routes.{reconcile_route_streams}
use rpc_operator.ProjectController.Laws.{Tends, Settles, reconcile_route_streams-Settles}

abbrev orders_route : ProjectRoute
orders_route = record {
  name = "orders";
  from = "a";
  to = record { pipeline = "b"; when = "" } ∷ [];
  retention = some (record { max_age = none; max_bytes = some 5; max_msgs = none });
}

abbrev shop : Project
shop = record {
  name = "shop";
  namespace = "ns";
  spec = record { cluster = none; nats = none; routes = orders_route ∷ []; cache_resources = [] };
}

-- the override wins where it is set
retention :
    route_retention shop orders_route ≡ record { max_age = day; max_bytes = 5; max_msgs = 0 }
unfolding route_retention default_retention merge_retention retention_from
retention = refl

abbrev last : List RouteStatus
last =
    record {
      name = "gone";
      subject = "";
      stream = "rpc-shop-gone";
      phase = "Ready";
      conditions = [];
    }
    ∷ record {
      name = "orders";
      subject = "";
      stream = "rpc-shop-orders";
      phase = "Ready";
      conditions = [];
    }
    ∷ []

reconcile_route_streams-Settles_example :
    Every (Tends shop last) (Settles shop last) [] (reconcile_route_streams shop true last)
reconcile_route_streams-Settles_example = reconcile_route_streams-Settles shop last

abbrev plain_codec : Codec
plain_codec = record {
  yaml_marshal = λ v. Fallible.ok "yaml";
  yaml_unmarshal = λ text. Fallible.ok (str text);
  json_unmarshal = λ text. Fallible.ok (str text);
}

abbrev seen_cache : CacheResource
seen_cache = record {
  name = "seen";
  nats_kv = some (record { ttl = none; history = some 1; max_bytes = none });
  config = "";
}

abbrev cached_shop : Project
cached_shop = record {
  name = "shop";
  namespace = "ns";
  spec = record { cluster = none; nats = none; routes = []; cache_resources = seen_cache ∷ [] };
}

abbrev last_caches : List CacheStatus
last_caches =
    record { name = "old"; bucket = "rpc-shop-old"; phase = "Ready"; conditions = [] } ∷ []

sync_caches-Reports_example :
    Every
      (Promises.Tends plain_codec cached_shop ("http://c-0" ∷ []) last_caches)
      (Promises.Reports plain_codec cached_shop ("http://c-0" ∷ []) last_caches)
      []
      (sync_caches plain_codec cached_shop ("http://c-0" ∷ []) last_caches)
sync_caches-Reports_example =
    sync_caches-Reports plain_codec cached_shop ("http://c-0" ∷ []) last_caches
