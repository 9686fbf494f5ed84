-- ===== src/App/Dispatcher/Routing.antt =====
-- The router: `HttpDispatcher::Dispatch` of app/dispatcher/HttpDispatcher.cpp. A handler of the
-- table is a constructor of `Route`.
use mathlib.Core.Option
use mini_reactor.Base.{◌+◌, ◌%◌, ◌^◌, List, [], ◌∷◌, ◌++◌, Option, none, some, length}
use mini_reactor.Base.Bytes.{codes, lookup, plus}
use mini_reactor.Http.Context.{HttpRequest}
use mini_reactor.Log.Stream.{text_of}
use mini_reactor.App.Dispatcher.{
  Text, JsonLibrary, Server, Files, Metrics, RouteContext, crlf, handle_static_file,
}
use mini_reactor.App.Dispatcher.Handlers.{
  handle_monitor, handle_post_comment, handle_get_comments, handle_stress, handle_agent_telemetry,
  handle_admin_reload_blacklist,
}
use mini_reactor.App.Dispatcher.Control.{handle_agent_control}

pub data Route : Type 0 where
  monitor post_comment get_comments stress telemetry control reload_blacklist : Route

abbrev pub router : List (Text × Route)
router =
    (codes "GET:/api/monitor", monitor)
    ∷ (codes "POST:/api/comment", post_comment)
    ∷ (codes "GET:/api/comment", get_comments)
    ∷ (codes "GET:/api/stress", stress)
    ∷ (codes "GET:/api/agent/telemetry", telemetry)
    ∷ (codes "POST:/api/agent/control", control)
    ∷ (codes "POST:/api/admin/reload_blacklist", reload_blacklist)
    ∷ []

-- The table is asked for the method and the path, and then for the path under "GET:".
unfoldable pub route_of : Text → Text → Option Route
unfolding lookup
route_of method path = elim (lookup (method ++ (b':' ∷ path)) router) [
  | some route ↦ some route
  | none ↦ lookup (codes "GET:" ++ path) router
]

-- The bytes that are sent.
unfoldable pub response : RouteContext → Text
unfolding text_of
response ctx =
    ctx.status_line
    ++ (ctx.content_type
        ++ (codes "Content-Length: "
            ++ (text_of (plus (length ctx.body))
                ++ (crlf
                    ++ (codes "Connection: keep-alive"
                        ++ (crlf ++ (crlf ++ (ctx.body ++ crlf))))))))

abbrev pub default_context : RouteContext
default_context = record {
  status_line = codes "HTTP/1.1 200 OK" ++ crlf;
  content_type = codes "Content-Type: text/html; charset=utf-8" ++ crlf;
  body = [];
}

-- A `uint64_t` sum.
abbrev pub counted : Server → Server
counted s = record s { requests = (s.requests + 1) % 2 ^ 64 }

module _ (lib : JsonLibrary) (files : Files) (metrics : Metrics (lib.Double)) where
  unfoldable pub handle :
      Route → HttpRequest → Text → RouteContext → Server → Option (RouteContext × Server)
  handle monitor req client_ip ctx s = handle_monitor lib metrics ctx s
  handle post_comment req client_ip ctx s = handle_post_comment lib req client_ip ctx s
  handle get_comments req client_ip ctx s = handle_get_comments lib ctx s
  handle stress req client_ip ctx s = handle_stress lib ctx s
  handle telemetry req client_ip ctx s = handle_agent_telemetry lib ctx s
  handle control req client_ip ctx s = handle_agent_control lib files.writable req ctx s
  handle reload_blacklist req client_ip ctx s = handle_admin_reload_blacklist lib req ctx s

  abbrev pub handle_route :
      Option Route → HttpRequest → Text → RouteContext → Server → Option (RouteContext × Server)
  handle_route (some route) req client_ip ctx s = handle route req client_ip ctx s
  handle_route none req client_ip ctx s = some (handle_static_file files req ctx, s)

  -- The bytes for the connection; `none` is an exception, which nothing above catches.
  unfoldable pub dispatch : HttpRequest → Text → Server → Option (Text × Server)
  unfolding handle route_of response
  dispatch req client_ip s =
      Option.map (λ (p : RouteContext × Server). (response p.0, p.1))
        (handle_route (route_of req.method req.path) req client_ip default_context (counted s))
