-- ===== src/App/Dispatcher/Handlers.antt =====
-- The handlers that answer with JSON: app/dispatcher/HttpDispatcher.cpp, HandleMonitor to
-- HandleAgentTelemetry and HandleAdminReloadBlacklist.
use mathlib.Core.Option
use mini_reactor.Base.{if◌then◌else◌, not, [], ◌∷◌, ◌++◌, map, ℕ, ◌-◌, ◌/◌, ◌^◌, Option, none, some}
use mini_reactor.Base.Bytes.{codes, bytes_eq, lookup}
use mini_reactor.Http.Context.{HttpRequest}
use mini_reactor.App.Comments.{
  CommentSnapshot, push_comment, get_latest_comments, get_telemetry_snapshot,
}
use mini_reactor.App.Blacklist.{check_comment, contains, reload}
use mini_reactor.App.Dispatcher.Texts.{form_only, cooling_down, stored_text, not_admin, reloaded}
use mini_reactor.App.Dispatcher.{
  Text, crlf, json_type, is_form, form_of, blocked, block_message, is_admin, JsonLibrary, Server,
  Metrics, RouteContext,
}

-- The time that `start_time` has in a call: it is set once.
abbrev pub start_of : {Double : Type 0} → Metrics Double → Option ℕ → ℕ
start_of m none = m.set_at
start_of m (some start) = start

module _ (lib : JsonLibrary) where
  open lib use {Json, Double, round_tenth, text, number, real, boolean, array, object, dump}

  -- `ctx.body = j.dump()`
  abbrev pub answer : RouteContext → Json → Server → Option (RouteContext × Server)
  answer ctx j s = Option.map (λ b. (record ctx { body = b }, s)) (dump j)

  -- An object with the two fields of most answers.
  abbrev pub two_fields : Text → Text → Text → Text → Json
  two_fields k v k' v' = object ((k, text v) ∷ (k', text v') ∷ [])

  abbrev pub outcome : Text → Text → Json
  outcome result msg = two_fields (codes "result") result (codes "msg") msg

  -- The clock never goes back, so that the difference is no less than zero.
  unfoldable pub monitor_json : Metrics Double → Server → Json
  monitor_json m s = object (
      (codes "status", text (if s.cooldown_mode then codes "CIRCUIT_BREAKER" else codes "RUNNING"))
      ∷ (codes "uptime_seconds", number ((m.now - start_of m s.start_time) / 10 ^ 9))
      ∷ (codes "live_connections", number 1)
      ∷ (codes "sub_reactors", number 3)
      ∷ (codes "total_requests", number s.requests)
      ∷ (codes "qps", number m.qps)
      ∷ (codes "cpu_usage", real (round_tenth m.cpu_usage))
      ∷ (codes "mem_available", real (round_tenth m.mem_available))
      ∷ (codes "disk_io", real (round_tenth m.disk_io_mbps))
      ∷ (codes "cooldown_mode", boolean s.cooldown_mode)
      ∷ (
        codes "engine",
        text (
            if m.is_linux_env
            then codes "Mini-Reactor-v2.5-(BareMetal)"
            else codes "Mini-Reactor-v2.5-(Mock)"),
      )
      ∷ [])

  unfoldable pub handle_monitor :
      Metrics Double → RouteContext → Server → Option (RouteContext × Server)
  unfolding monitor_json
  handle_monitor m ctx s =
      answer (json_type ctx) (monitor_json m s)
        (record s { start_time = some (start_of m s.start_time) })

  -- The part behind the form: the check against the blacklist, and the write.
  unfoldable pub post : Text × Text → Text → RouteContext → Server → Option (RouteContext × Server)
  unfolding check_comment push_comment
  post (nick, content) client_ip ctx s =
      let reason = (check_comment nick client_ip content s.blacklist.rules).0 in
      if blocked reason
      then answer (record ctx { status_line = codes "HTTP/1.1 403 Forbidden" ++ crlf })
          (outcome (codes "ERROR") (block_message reason nick)) s
      else answer ctx (outcome (codes "SUCCESS") stored_text)
          (record s { comments = push_comment nick content client_ip s.comments })

  unfoldable pub handle_post_comment :
      HttpRequest → Text → RouteContext → Server → Option (RouteContext × Server)
  unfolding lookup contains form_of post
  handle_post_comment req client_ip ctx s =
      if not (is_form req.headers)
      then answer
          (record (json_type ctx) {
            status_line = codes "HTTP/1.1 415 Unsupported Media Type" ++ crlf;
          })
          (outcome (codes "ERROR") form_only) s
      else if s.cooldown_mode
      then answer (record (json_type ctx) { status_line = codes "HTTP/1.1 200 OK" ++ crlf })
          (outcome (codes "ERROR") cooling_down) s
      else post (form_of req.body) client_ip (json_type ctx) s

  abbrev pub comment_item : Text × Text → Json
  comment_item (nick, content) = two_fields (codes "nick") nick (codes "text") content

  unfoldable pub handle_get_comments : RouteContext → Server → Option (RouteContext × Server)
  unfolding get_latest_comments
  handle_get_comments ctx s =
      answer (json_type ctx) (array (map comment_item (get_latest_comments s.comments))) s

  unfoldable pub handle_stress : RouteContext → Server → Option (RouteContext × Server)
  handle_stress ctx s =
      answer
        (record ctx {
          content_type =
              codes "Content-Type: application/json"
              ++ (crlf ++ (codes "Access-Control-Allow-Origin: *" ++ crlf));
        })
        (two_fields (codes "status") (codes "ok") (codes "msg")
          (codes "Boom! C++ Reactor Core Handled This Successfully."))
        s

  abbrev pub snapshot_item : CommentSnapshot → Json
  snapshot_item c = object (
      (codes "seq", number c.sequence)
      ∷ (codes "nick", text c.nickname)
      ∷ (codes "text", text c.content)
      ∷ (codes "ip", text c.ip)
      ∷ [])

  unfoldable pub handle_agent_telemetry : RouteContext → Server → Option (RouteContext × Server)
  unfolding get_telemetry_snapshot
  handle_agent_telemetry ctx s =
      let (current_seq, snapshots) = get_telemetry_snapshot s.comments in
      answer (json_type ctx)
        (object (
          (
            codes "metrics",
            object (
                (codes "total_requests", number s.requests)
                ∷ (codes "current_sequence", number current_seq)
                ∷ []),
          )
          ∷ (codes "comments", array (map snapshot_item snapshots))
          ∷ []))
        s

  unfoldable pub handle_admin_reload_blacklist :
      HttpRequest → RouteContext → Server → Option (RouteContext × Server)
  unfolding lookup bytes_eq reload
  handle_admin_reload_blacklist req ctx s =
      if not (is_admin req.headers)
      then answer
          (record (json_type ctx) { status_line = codes "HTTP/1.1 401 Unauthorized" ++ crlf })
          (two_fields (codes "status") (codes "ERROR") (codes "msg") not_admin) s
      else answer (json_type ctx)
          (two_fields (codes "status") (codes "SUCCESS") (codes "msg") reloaded)
          (record s { blacklist = reload s.blacklist })
