-- ===== src/Http/Context/Scan.antt =====
-- The parser over a byte string: what one round does with the readable bytes. The refinement of
-- this reading by the loop over the buffer is in the child modules.
pub mod Advance
pub mod Refine
pub mod Feed
use mathlib.Core.Option
use mini_reactor.Base.{
  ℕ, zero, suc, ◌+◌, ◌≤◌, ◌<◌, ◌≡◌, refl, ap, ◌∙◌, sym, ltb, leb, ◌==◌, if◌then◌else◌, Bool, true,
  false, ◌&&◌, List, [], ◌∷◌, ◌++◌, Option, none, some, length, take, drop, arith, Bool-cases,
  Option-cases, inl, inr, subst, some-injective, take-append_of_le, length-append, ltb→lt,
}
use mini_reactor.Base.Bytes.{Signed, plus, minus, lookup, stoi}
use mini_reactor.Net.Buffer.{
  Buffer, contents, readable_bytes, retrieve, retrieve_until, find_crlf, search_crlf,
}
use mini_reactor.Net.Buffer.Contents.{IsValid, length-contents, contents-retrieve, retrieve-IsValid}
use mini_reactor.Net.Buffer.Crlf.{search_crlf-append, search_crlf-le}
use mini_reactor.Http.Context.{
  HttpContext, HttpRequest, HttpRequestParseState, expect_request_line, expect_headers, expect_body,
  got_all, process_request_line, add_header, after_length, after_field, after_headers,
  text_or_empty, expect_body_len, is_positive, Round, round, on_request_line, on_header_line,
  on_blank_line, on_body, parse_round, parse_loop, parse_request, Parsed, returned, spins,
  content_length, is_expect_body, size_of,
}

-- A round that gets on: the bytes that it takes, `ok`, `hasMore` and the context after it.
pub record Move : Type 0 where
  pub taken : ℕ
  pub ok : Bool
  pub more : Bool
  pub ctx : HttpContext

abbrev pub move : ℕ → Bool → Bool → HttpContext → Move
move n ok more ctx = record { taken = n; ok = ok; more = more; ctx = ctx }

unfoldable pub scan_request_line : HttpContext → List ℕ → ℕ → Move
scan_request_line ctx s i =
    let (ok, request) = process_request_line (take i s) ctx.request in
    if ok
    then move (i + 2) true true (record { state = expect_headers; request = request })
    else move 0 false false (record ctx { request = request })

unfoldable pub scan_header_line : HttpContext → List ℕ → ℕ → Move
scan_header_line ctx s zero =
    let (ok, state) = after_headers ctx.request.headers in
    move 2 ok (is_expect_body state) (record ctx { state = state })
scan_header_line ctx s (suc i) =
    let (ok, request) = add_header (take (suc i) s) ctx.request in
    move (suc i + 2) ok ok (record ctx { request = request })

unfoldable pub scan_body : HttpContext → List ℕ → Option Signed → Option Move
scan_body ctx s none = none
scan_body ctx s (some len) =
    let n = size_of len in
    if leb n (length s)
    then some (
        move n true false
          (record { state = got_all; request = record (ctx.request) { body = take n s } }))
    else none

abbrev pub scan_in : HttpRequestParseState → HttpContext → List ℕ → Option Move
scan_in expect_request_line ctx s = Option.map (scan_request_line ctx s) (search_crlf s)
scan_in expect_headers ctx s = Option.map (scan_header_line ctx s) (search_crlf s)
scan_in expect_body ctx s = scan_body ctx s (expect_body_len ctx.request.headers)
scan_in got_all ctx s = none

-- `none`: the round waits for more bytes.
unfoldable pub scan : HttpContext → List ℕ → Option Move
unfolding scan_request_line scan_header_line scan_body
scan ctx s = scan_in ctx.state ctx s

abbrev pub RunsIn : HttpRequestParseState → HttpContext → Type 0
RunsIn expect_body ctx = (n : ℕ) × (0 < n) × (expect_body_len ctx.request.headers ≡ some (plus n))
RunsIn got_all ctx = ⊥
RunsIn _ ctx = Unit

-- The parser is before its end, and knows the length of the body that it waits for.
abbrev pub IsRunning : HttpContext → Type 0
IsRunning ctx = RunsIn ctx.state ctx

-- How a run of rounds ends: it waits for more bytes, or the request is complete, or illegal.
pub data Outcome : Type 0 where
  waiting complete illegal : Outcome

abbrev pub outcome_of : Bool → Outcome
outcome_of true = complete
outcome_of false = illegal

-- A run from a context and the readable bytes to an outcome, the context and the bytes left.
pub data Scans (o : Outcome) (c : HttpContext) (r : List ℕ) : HttpContext → List ℕ → Type 0 where
  waits :
      {ctx : HttpContext} {s : List ℕ}
      → scan ctx s ≡ none
      → o ≡ waiting
      → c ≡ ctx
      → r ≡ s
      → Scans o c r ctx s
  stops :
      {ctx : HttpContext} {s : List ℕ} (m : Move)
      → scan ctx s ≡ some m
      → (m.more && m.ok) ≡ false
      → o ≡ outcome_of m.ok
      → c ≡ m.ctx
      → r ≡ drop m.taken s
      → Scans o c r ctx s
  goes :
      {ctx : HttpContext} {s : List ℕ} (m : Move)
      → scan ctx s ≡ some m
      → (m.more && m.ok) ≡ true
      → Scans o c r m.ctx (drop m.taken s)
      → Scans o c r ctx s
