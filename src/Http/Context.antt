-- ===== src/Http/Context.antt =====
-- The HTTP parser: include/reactor/http/HttpContext.h and src/http/HttpContext.cpp. Each branch
-- of the loop of `ParseRequest` is a function; the loop runs on fuel.
pub mod Scan
pub mod Encode
pub mod RoundTrip
use mathlib.Core.Option
use mini_reactor.Base.{
  ℕ, zero, suc, ◌+◌, ◌-◌, ◌%◌, ◌^◌, ltb, leb, ◌==◌, if◌then◌else◌, Bool, true, false, ◌&&◌, List,
  [], ◌∷◌, map, Option, none, some, length, take, drop,
}
use mini_reactor.Base.Bytes.{
  codes, find_byte, to_lower, skip_space, stoi, Signed, plus, minus, lookup, insert,
}
use mini_reactor.Net.Buffer.{Buffer, contents, readable_bytes, find_crlf, retrieve, retrieve_until}

abbrev pub Headers : Type 0
Headers = List (List ℕ × List ℕ)

pub record HttpRequest : Type 0 where
  pub method : List ℕ
  pub path : List ℕ
  pub query : List ℕ
  pub version : List ℕ
  pub headers : Headers
  pub body : List ℕ

abbrev pub empty_request : HttpRequest
empty_request = record { method = []; path = []; query = []; version = []; headers = []; body = [] }

pub data HttpRequestParseState : Type 0 where
  expect_request_line expect_headers expect_body got_all : HttpRequestParseState

pub record HttpContext : Type 0 where
  pub state : HttpRequestParseState
  pub request : HttpRequest

abbrev pub init : HttpContext
init = record { state = expect_request_line; request = empty_request }

-- Both `Reset` functions.
unfoldable pub reset : HttpContext → HttpContext
reset ctx = init

abbrev pub is_got_all : HttpRequestParseState → Bool
is_got_all got_all = true
is_got_all _ = false

unfoldable pub got_all? : HttpContext → Bool
got_all? ctx = is_got_all ctx.state

-- The target between the two spaces: the path, and behind a '?' the query.
unfoldable pub assign_target : List ℕ → HttpRequest → HttpRequest
assign_target target request =
    let question = find_byte b'?' target in
    if question == length target
    then record request { path = target }
    else record request { path = take question target; query = drop (question + 1) target }

-- A request line without its "\r\n"; the method stays assigned if the second space is missing.
unfoldable pub process_request_line : List ℕ → HttpRequest → Bool × HttpRequest
unfolding assign_target
process_request_line line request =
    let space = find_byte 32 line in
    if space == length line
    then (false, request)
    else let named = record request { method = take space line } in
      let start = drop (space + 1) line in
      let space' = find_byte 32 start in
      if space' == length start then (false, named) else (
        true,
        record (assign_target (take space' start) named) { version = drop (space' + 1) start },
      )

-- One round of the loop: `ok`, `hasMore`, the context and the buffer after it. `threw` is an
-- exception that leaves `ParseRequest`, or a failed `assert`.
pub data Round : Type 0 where
  round : (ok has_more : Bool) → HttpContext → Buffer → Round
  threw : Round

abbrev consume : ℕ → Bool → Bool → HttpContext → Buffer → Round
consume n ok has_more ctx buf = elim (retrieve_until n buf) [
  | none ↦ threw
  | some buf' ↦ round ok has_more ctx buf'
]

-- Below, `i` is where the first "\r\n" stands.
unfoldable pub on_request_line : HttpContext → Buffer → Option ℕ → Round
unfolding process_request_line retrieve_until
on_request_line ctx buf none = round true false ctx buf
on_request_line ctx buf (some i) =
    let (ok, request) = process_request_line (take i (contents buf)) ctx.request in
    if ok
    then consume (i + 2) true true (record { state = expect_headers; request = request }) buf
    else round false false (record ctx { request = request }) buf

-- `body_len > 0`
unfoldable pub is_positive : Signed → Bool
is_positive (plus n) = ltb 0 n
is_positive (minus n) = false

abbrev pub content_length : List ℕ
content_length = codes "content-length"

-- The state after the blank line, and whether the length field is legal.
unfoldable pub after_length : Option Signed → Bool × HttpRequestParseState
unfolding is_positive
after_length none = (false, got_all)
after_length (some body_len) = (true, if is_positive body_len then expect_body else got_all)

unfoldable pub after_field : Option (List ℕ) → Bool × HttpRequestParseState
unfolding after_length
after_field none = (true, got_all)
after_field (some text) = after_length (stoi text)

unfoldable pub after_headers : Headers → Bool × HttpRequestParseState
unfolding after_field
after_headers headers = after_field (lookup content_length headers)

abbrev is_expect_body : HttpRequestParseState → Bool
is_expect_body expect_body = true
is_expect_body _ = false

unfoldable pub on_blank_line : HttpContext → Buffer → Round
unfolding after_headers retrieve_until
on_blank_line ctx buf =
    let (ok, state) = after_headers ctx.request.headers in
    consume 2 ok (is_expect_body state) (record ctx { state = state }) buf

-- `headers[key] = value`; a line with no colon is illegal.
unfoldable pub add_header : List ℕ → HttpRequest → Bool × HttpRequest
add_header line request =
    let colon = find_byte b':' line in
    if colon == length line
    then (false, request)
    else let key = map to_lower (take colon line) in
      let value = skip_space (drop (colon + 1) line) in
      (true, record request { headers = insert key value request.headers })

unfoldable pub on_header_line : HttpContext → Buffer → Option ℕ → Round
unfolding on_blank_line add_header retrieve_until
on_header_line ctx buf none = round true false ctx buf
on_header_line ctx buf (some zero) = on_blank_line ctx buf
on_header_line ctx buf (some (suc i)) =
    let (ok, request) = add_header (take (suc i) (contents buf)) ctx.request in
    consume (suc i + 2) ok ok (record ctx { request = request }) buf

-- `static_cast<size_t>(expect_body_len)`
abbrev size_of : Signed → ℕ
size_of (plus n) = n
size_of (minus n) = (2 ^ 64 - n) % 2 ^ 64

-- `headers["content-length"]` is "" if the key is missing.
abbrev pub text_or_empty : Option (List ℕ) → List ℕ
text_or_empty none = []
text_or_empty (some text) = text

unfoldable pub expect_body_len : Headers → Option Signed
expect_body_len headers = stoi (text_or_empty (lookup content_length headers))

unfoldable pub on_body : HttpContext → Buffer → Option Signed → Round
unfolding retrieve
on_body ctx buf none = threw
on_body ctx buf (some body_len) =
    let n = size_of body_len in
    if leb n (readable_bytes buf)
    then round true false
        (record {
          state = got_all;
          request = record (ctx.request) { body = take n (contents buf) };
        })
        (retrieve n buf)
    else round true false ctx buf

abbrev pub round_in : HttpRequestParseState → HttpContext → Buffer → Round
round_in expect_request_line ctx buf = on_request_line ctx buf (find_crlf buf)
round_in expect_headers ctx buf = on_header_line ctx buf (find_crlf buf)
round_in expect_body ctx buf = on_body ctx buf (expect_body_len ctx.request.headers)
round_in got_all ctx buf = round true true ctx buf

-- No branch of the loop is for `kGotAll`: it goes round again.
unfoldable pub parse_round : HttpContext → Buffer → Round
unfolding on_request_line on_header_line on_body expect_body_len find_crlf
parse_round ctx buf = round_in ctx.state ctx buf

-- How a call ends; `spins` means that the fuel ran out.
pub data Parsed : Type 0 where
  returned : Bool → HttpContext → Buffer → Parsed
  threw spins : Parsed

-- `while (hasMore && ok)`
unfoldable pub parse_loop : ℕ → HttpContext → Buffer → Parsed
parse_loop zero ctx buf = spins
parse_loop (suc fuel) ctx buf = elim (parse_round ctx buf) [
  | threw ↦ Parsed.threw
  | round ok has_more ctx' buf' ↦ elim (has_more && ok) [
    | true ↦ parse_loop fuel ctx' buf'
    | false ↦ returned ok ctx' buf'
  ]
]

-- A round that goes on takes at least the two bytes of a "\r\n", so this fuel is enough.
unfoldable pub parse_request : HttpContext → Buffer → Parsed
unfolding parse_loop parse_round
parse_request ctx buf = parse_loop (readable_bytes buf + 1) ctx buf
