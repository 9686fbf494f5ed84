-- ===== src/App/Dispatcher.antt =====
-- The dispatcher of requests: app/dispatcher/HttpDispatcher.cpp. Here are its types, the reading of
-- a form and HandleStaticFile; the other handlers and the router are in the children. The JSON
-- library is a parameter. Texts are bytes.

pub mod Texts
pub mod Handlers
pub mod Control
pub mod Routing
pub mod Reading
pub mod Access
pub mod Utf8
pub mod Posting
pub mod Listing
pub mod Moderation
pub mod Commands
mod Sample
mod Examples
use mathlib.Core.Option
use mini_reactor.Base.{
  ℕ, ◌+◌, ◌==◌, if◌then◌else◌, Bool, true, false, not, List, [], ◌∷◌, ◌++◌, map, Option, none, some,
  length, take, drop,
}
use mini_reactor.Base.Bytes.{codes, bytes_eq, find_byte, lookup}
use mini_reactor.Http.Context.{HttpRequest, Headers}
use mini_reactor.App.Utils.{get_mime_type, url_decode}
use mini_reactor.App.Comments.{
  Repository, CommentSnapshot, push_comment, get_latest_comments, get_telemetry_snapshot,
}
use mini_reactor.App.Blacklist.{
  Manager, BlockReason, no_reason, nickname, ip, keyword, check_comment, contains, reload,
}
use mini_reactor.App.Dispatcher.Texts.{
  anonymous, form_only, cooling_down, account_blocked, account_blocked_end, address_blocked,
  content_blocked, comment_blocked, traversal, not_found, not_found_end, not_admin, reloaded,
}

abbrev pub Text : Type 0
Text = List ℕ

-- The calls of nlohmann::json and of floating-point arithmetic. `none` is an exception of `dump`
-- and `parse`, a missing key for `member`, and a value of another type for the last four.
pub record JsonLibrary : Type 1 where
  pub Json : Type 0
  pub Double : Type 0
  pub round_tenth : Double → Double
  pub text : Text → Json
  pub number : ℕ → Json
  pub real : Double → Json
  pub boolean : Bool → Json
  pub array : List Json → Json
  pub object : List (Text × Json) → Json
  pub dump : Json → Option Text
  pub parse : Text → Option Json
  pub member : Text → Json → Option Json
  pub as_boolean : Json → Option Bool
  pub as_array : Json → Option (List Json)
  pub as_unsigned : Json → Option ℕ
  pub as_number : Json → Option ℕ

-- `g_global_request_count`, `g_agent_cooldown_mode`, the static `start_time` of HandleMonitor, which
-- its first call sets, and the two stores.
pub record Server : Type 0 where
  pub requests : ℕ
  pub cooldown_mode : Bool
  pub start_time : Option ℕ
  pub comments : Repository
  pub blacklist : Manager

-- What a handler finds outside: the files below the working directory, and whether the file of the
-- blacklist can be written.
pub record Files : Type 0 where
  pub read : Text → Option Text
  pub writable : Bool

-- `SysMetricsDaemon::GetMetrics()`, and what the steady clock shows, in nanoseconds: when a static
-- is set, and then for `now`.
pub record Metrics (Double : Type 0) : Type 0 where
  pub set_at : ℕ
  pub now : ℕ
  pub cpu_usage : Double
  pub mem_available : Double
  pub disk_io_mbps : Double
  pub is_linux_env : Bool
  pub qps : ℕ

pub record RouteContext : Type 0 where
  pub status_line : Text
  pub content_type : Text
  pub body : Text

abbrev pub crlf : Text
crlf = 13 ∷ 10 ∷ []

abbrev pub json_type : RouteContext → RouteContext
json_type ctx = record ctx {
  content_type = codes "Content-Type: " ++ (get_mime_type (codes ".json") ++ crlf);
}

abbrev pub is_form : Headers → Bool
is_form headers = elim (lookup (codes "content-type") headers) [
  | none ↦ false
  | some value ↦ contains (codes "application/x-www-form-urlencoded") value
]

-- `getline` with '&', until the end of the text.
unfoldable pub pieces : Text → List Text
pieces [] = []
pieces (c ∷ s) =
    let rest = pieces s in
    if c == b'&' then [] ∷ rest else elim rest [ [] ↦ (c ∷ []) ∷ [] | l ∷ ls ↦ (c ∷ l) ∷ ls ]

-- One field of the form, on top of the nickname and the text so far.
unfoldable pub read_field : Text → Text × Text → Text × Text
unfolding find_byte bytes_eq url_decode
read_field key_value (nick, content) =
    let pos = find_byte b'=' key_value in
    let key = take pos key_value in
    let value = url_decode (drop (pos + 1) key_value) in
    if pos == length key_value
    then (nick, content)
    else if bytes_eq key (codes "name")
    then (value, content)
    else if bytes_eq key (codes "content")
    then (nick, value)
    else (nick, content)

unfoldable pub read_form : List Text → Text × Text → Text × Text
unfolding read_field
read_form [] fields = fields
read_form (key_value ∷ rest) fields = read_form rest (read_field key_value fields)

-- The nickname and the text of a body.
unfoldable pub form_of : Text → Text × Text
unfolding pieces read_form
form_of body = read_form (pieces body) (anonymous, body)

abbrev pub blocked : BlockReason → Bool
blocked no_reason = false
blocked nickname = true
blocked ip = true
blocked keyword = true

abbrev pub block_message : BlockReason → Text → Text
block_message nickname nick = account_blocked ++ (nick ++ account_blocked_end)
block_message ip nick = address_blocked
block_message keyword nick = content_blocked
block_message no_reason nick = comment_blocked

abbrev pub is_admin : Headers → Bool
is_admin headers = elim (lookup (codes "authorization") headers) [
  | none ↦ false
  | some value ↦ bytes_eq value (codes "Bearer MY_SUPER_SECRET_TOKEN_2026")
]

-- Where a static file is looked up.
abbrev pub target_path : Text → Text
target_path path =
    codes "./www" ++ (if bytes_eq path (codes "/") then codes "/index.html" else path)

unfoldable pub handle_static_file : Files → HttpRequest → RouteContext → RouteContext
unfolding get_mime_type contains bytes_eq
handle_static_file files req ctx =
    if contains (codes "..") req.path
    then record (json_type ctx) {
      status_line = codes "HTTP/1.1 403 Forbidden" ++ crlf;
      body = traversal;
    }
    else elim (files.read (target_path req.path)) [
      | some file ↦ record ctx {
        content_type = codes "Content-Type: " ++ (get_mime_type (target_path req.path) ++ crlf);
        body = file;
      }
      | none ↦ record ctx {
        status_line = codes "HTTP/1.1 404 Not Found" ++ crlf;
        content_type = codes "Content-Type: text/html" ++ crlf;
        body = not_found ++ (target_path req.path ++ not_found_end);
      }
    ]
