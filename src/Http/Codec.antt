-- ===== src/Http/Codec.antt =====
-- `HttpCodec::OnMessage`: include/reactor/http/HttpCodec.h and src/http/HttpCodec.cpp. What it
-- asks of the connection and of the business callback is a list of events, in order.
pub mod Serve
pub mod Unique
pub mod Delivery
pub mod Pipeline
mod Examples
use mini_reactor.Base.{
  ℕ, zero, suc, ◌+◌, ltb, if◌then◌else◌, Bool, true, false, List, [], ◌∷◌, ◌++◌, Option, none, some,
}
use mini_reactor.Net.Buffer.{Buffer, readable_bytes}
use mini_reactor.Http.Context.{
  HttpContext, HttpRequest, init, reset, got_all?, Parsed, returned, parse_request,
}

pub data Event : Type 0 where
  callback : HttpRequest → Event
  send_bad_request : Event
  shutdown : Event

pub data Served : Type 0 where
  served : List Event → HttpContext → Buffer → Served
  threw spins : Served

abbrev pub after : List Event → Served → Served
after events (served more ctx buf) = served (events ++ more) ctx buf
after events threw = threw
after events spins = spins

-- `if (http_callback_) http_callback_(...)`
abbrev pub call : Bool → HttpRequest → List Event
call true request = callback request ∷ []
call false request = []

module _ (has_callback : Bool) where
  -- `while (buf->ReadableBytes() > 0)`
  unfoldable pub serve_loop : ℕ → HttpContext → Buffer → Served
  serve_loop zero ctx buf = spins
  serve_loop (suc fuel) ctx buf = elim (ltb 0 (readable_bytes buf)) [
    | false ↦ served [] ctx buf
    | true ↦ elim (parse_request ctx buf) [
      | Parsed.threw ↦ threw
      | Parsed.spins ↦ spins
      | returned ok ctx' buf' ↦ elim ok [
        | false ↦ served (send_bad_request ∷ shutdown ∷ []) ctx' buf'
        | true ↦ elim (got_all? ctx') [
          | false ↦ served [] ctx' buf'
          | true ↦ after (call has_callback ctx'.request) (serve_loop fuel (reset ctx') buf')
        ]
      ]
    ]
  ]

  -- A complete request takes a byte at least, so this fuel is enough.
  unfoldable pub on_message : Option HttpContext → Buffer → Served
  unfolding serve_loop parse_request reset got_all?
  on_message none buf = serve_loop (readable_bytes buf + 1) init buf
  on_message (some ctx) buf = serve_loop (readable_bytes buf + 1) ctx buf
