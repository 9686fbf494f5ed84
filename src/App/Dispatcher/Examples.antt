-- ===== src/App/Dispatcher/Examples.antt =====
-- Requests to a small server.
use mini_reactor.Base.{
  ◌^◌, ◌*◌, Option, ℕ, ◌≡◌, ◌≢◌, ◌↔◌, inl, refl, true, false, if◌then◌else◌, List, [], ◌∷◌, ◌++◌,
  none, some, All, arith,
}
use mini_reactor.Base.Bytes.{codes, bytes_eq, lookup}
use mini_reactor.Http.Context.{HttpRequest}
use mini_reactor.App.Comments.{empty, push_comment}
use mini_reactor.App.Comments.History.{Comment, Holds, empty-Holds, push_comment-Holds}
use mini_reactor.App.Comments.Views.{newest}
use mini_reactor.App.Blacklist.{no_rules, starts_with, contains, check_comment}
use mini_reactor.App.Utils.{get_mime_type}
use mini_reactor.App.Dispatcher.{Text, Server, Files, Metrics, form_of, crlf}
use mini_reactor.App.Dispatcher.Handlers.{handle_stress, handle_monitor}
use mini_reactor.App.Dispatcher.Control.{
  stoull, targets, take_action, handle_payload, handle_command, handle_agent_control, erase_batch,
}
use mini_reactor.App.Dispatcher.Routing.{route_of, response, handle, dispatch, counted}
use mini_reactor.App.Dispatcher.Reading.{KeepsStores, dispatch-reads}
use mini_reactor.App.Dispatcher.Access.{dispatch-guards, dispatch-www}
use mini_reactor.App.Dispatcher.Utf8.{is_utf8}
use mini_reactor.App.Dispatcher.Posting.{
  status_of, accepts, comment_of, Took, dispatch-post_comment,
}
use mini_reactor.App.Dispatcher.Listing.{IsReadable, dispatch-get_comments}
use mini_reactor.App.Dispatcher.Moderation.{redact_all}
use mini_reactor.App.Dispatcher.Commands.{NamesInText, dispatch-moderates}
use mini_reactor.App.Dispatcher.Sample.{library, library-IsStrict, targets_of}

abbrev files : Files
files = record { read = λ p. none; writable = true }

abbrev metrics : Metrics ℕ
metrics = record {
  set_at = 10 ^ 9;
  now = 6 * 10 ^ 9;
  cpu_usage = 2;
  mem_available = 80;
  disk_io_mbps = 0;
  is_linux_env = true;
  qps = 1;
}

abbrev request : Text → Text → List (Text × Text) → Text → HttpRequest
request method path headers body = record {
  method = method;
  path = path;
  query = [];
  version = codes "HTTP/1.1";
  headers = headers;
  body = body;
}

abbrev fresh : Server
fresh = record {
  requests = 0;
  cooldown_mode = false;
  start_time = none;
  comments = empty;
  blacklist = record { rules = no_rules; file = none };
}

abbrev form : Text → HttpRequest
form body =
    request (codes "POST") (codes "/api/comment")
      ((codes "content-type", codes "application/x-www-form-urlencoded") ∷ []) body

abbrev greeting : HttpRequest
greeting = form (codes "name=bob&content=hi+all")

greeting_fields : form_of (greeting.body) ≡ (codes "bob", codes "hi all")
unfolding form_of
greeting_fields = refl

dispatch-post_comment_example :
    (bytes : Text) × (s' : Server) × (dispatch library files metrics greeting
        (codes "10.0.0.9")
        fresh
      ≡ some (bytes, s'))
    × (starts_with (status_of greeting (codes "10.0.0.9") fresh) bytes ≡ true)
    × Took library library-IsStrict
        (accepts greeting (codes "10.0.0.9") fresh)
        (comment_of greeting (codes "10.0.0.9"))
        []
        fresh
        s'
unfolding form_of is_utf8
dispatch-post_comment_example =
    dispatch-post_comment library library-IsStrict files metrics greeting (codes "10.0.0.9") fresh
      [] refl refl refl (omega arith) empty-Holds

accepted : accepts greeting (codes "10.0.0.9") fresh ≡ true
unfolding form_of lookup contains check_comment
accepted = refl

abbrev stress_request : HttpRequest
stress_request = request (codes "GET") (codes "/api/stress") [] []

abbrev stress_bytes : Text
stress_bytes = response (record {
  status_line = codes "HTTP/1.1 200 OK" ++ crlf;
  content_type =
      codes "Content-Type: application/json"
      ++ (crlf ++ (codes "Access-Control-Allow-Origin: *" ++ crlf));
  body = codes "ok" ++ codes "Boom! C++ Reactor Core Handled This Successfully.";
})

stress_answer :
    dispatch library files metrics stress_request [] fresh ≡ some (stress_bytes, counted fresh)
unfolding dispatch route_of handle handle_stress is_utf8
stress_answer = refl

-- The monitor, which is asked for the first time.
abbrev monitor_request : HttpRequest
monitor_request = request (codes "GET") (codes "/api/monitor") [] []

abbrev watched : Server
watched = record (counted fresh) { start_time = some (10 ^ 9) }

abbrev bytes_of : Option (Text × Server) → Text
bytes_of none = []
bytes_of (some (bytes, s)) = bytes

abbrev monitor_bytes : Text
monitor_bytes = bytes_of (dispatch library files metrics monitor_request [] fresh)

monitor_answer :
    dispatch library files metrics monitor_request [] fresh ≡ some (monitor_bytes, watched)
unfolding dispatch route_of handle handle_monitor is_utf8
monitor_answer = refl

dispatch-reads_example : KeepsStores library files metrics (codes "/api/monitor") fresh watched
dispatch-reads_example =
    dispatch-reads library files metrics monitor_request [] fresh watched monitor_bytes
      (λ e. absurd (cc)) monitor_answer

dispatch-guards_example : fresh.blacklist ≡ fresh.blacklist
unfolding lookup bytes_eq
dispatch-guards_example =
    dispatch-guards library files metrics stress_request [] fresh (counted fresh) stress_bytes
      (λ e. absurd (cc)) refl stress_answer

-- A file system with a file outside.
abbrev with_secret : Files
with_secret = record {
  read = λ p. if starts_with (codes "./www") p then none else some (codes "secret");
  writable = true;
}

abbrev traversal_request : HttpRequest
traversal_request = request (codes "GET") (codes "/../secret") [] []

same_below_www :
    (p : Text)
    → starts_with (codes "./www") p ≡ true
    → contains (codes "..") p ≡ false
    → with_secret.read p ≡ files.read p
same_below_www p h k = rw h refl

dispatch-www_example :
    dispatch library with_secret metrics traversal_request [] fresh
    ≡ dispatch library files metrics traversal_request [] fresh
dispatch-www_example =
    dispatch-www library with_secret metrics files traversal_request [] fresh same_below_www refl

abbrev remark : Comment
remark = record { nickname = codes "bob"; content = codes "spam"; ip = codes "10.0.0.9" }

abbrev remarked : Server
remarked = record fresh { comments = push_comment remark.nickname remark.content remark.ip empty }

remarked-Holds : Holds (remark ∷ []) remarked.comments
remarked-Holds =
    push_comment-Holds remark.nickname remark.content remark.ip [] empty (omega arith) empty-Holds

-- A byte that is no UTF-8.
abbrev broken : Server
broken = record fresh { comments = push_comment (codes "bob") (0xff ∷ []) [] empty }

broken-Holds :
    Holds (record { nickname = codes "bob"; content = 0xff ∷ []; ip = [] } ∷ []) broken.comments
broken-Holds = push_comment-Holds (codes "bob") (0xff ∷ []) [] [] empty (omega arith) empty-Holds

abbrev list_request : HttpRequest
list_request = request (codes "GET") (codes "/api/comment") [] []

dispatch-get_comments_example :
    (dispatch library files metrics list_request [] broken ≢ none)
    ↔ All IsReadable (newest (record { nickname = codes "bob"; content = 0xff ∷ []; ip = [] } ∷ []))
dispatch-get_comments_example =
    dispatch-get_comments library library-IsStrict files metrics list_request [] broken
      (record { nickname = codes "bob"; content = 0xff ∷ []; ip = [] } ∷ []) refl refl broken-Holds

-- One comment that is no UTF-8 takes the whole list away.
list_is_lost : (dispatch library files metrics list_request [] broken ≢ none) → ⊥
unfolding is_utf8
list_is_lost answered = cc (dispatch-get_comments_example.0 answered).0.1

abbrev command : HttpRequest
command = request (codes "POST") (codes "/api/agent/control") [] (0 ∷ [])

abbrev command_bytes : Text
command_bytes = response (record {
  status_line = codes "HTTP/1.1 200 OK" ++ crlf;
  content_type = codes "Content-Type: application/json; charset=utf-8" ++ crlf;
  body = codes "SUCCESSBATCH_ERASED_1";
})

command_answer :
    dispatch library files metrics command [] remarked
    ≡ some (command_bytes, (erase_batch true (0 ∷ []) (counted remarked)).1)
unfolding dispatch route_of handle handle_agent_control take_action handle_payload handle_command
    is_utf8 get_mime_type targets erase_batch push_comment
command_answer = refl

dispatch-moderates_example :
    Holds
      (redact_all (0 ∷ []) (remark ∷ []))
      (erase_batch true (0 ∷ []) (counted remarked)).1.comments
    × (accepts greeting (codes "10.0.0.1") (erase_batch true (0 ∷ []) (counted remarked)).1 ≡ false)
unfolding bytes_eq targets form_of
dispatch-moderates_example =
    dispatch-moderates library files metrics command greeting [] (codes "10.0.0.1") remarked
      (erase_batch true (0 ∷ []) (counted remarked)).1 command_bytes 0 [] [] (remark ∷ []) remark
      refl refl
      (inl (record { payload = targets_of (0 ∷ []); parsed = refl; calm = refl; named = refl }))
      (omega arith) tt refl remarked-Holds command_answer (inl (refl, refl))

-- The text protocol names a comment, too.
names_in_text : NamesInText (codes "block_seq:7") (7 ∷ [])
unfolding stoull
names_in_text = record { number = 7; prefix = refl; read = refl; only = refl }
