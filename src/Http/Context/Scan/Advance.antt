-- ===== src/Http/Context/Scan/Advance.antt =====
-- What more bytes change of a round, and what a round takes.
use mathlib.Core.Option
use mini_reactor.Base.{
  ℕ, zero, suc, ◌+◌, ◌≤◌, ◌<◌, ◌≡◌, refl, ap, leb, true, false, ◌&&◌, List, ◌++◌, Option, none,
  some, length, take, arith, Bool-cases, Option-cases, inl, inr, subst, some-injective,
  take-append_of_le, length-append,
}
use mini_reactor.Base.Bytes.{Signed, plus, minus, stoi}
use mini_reactor.Net.Buffer.{search_crlf}
use mini_reactor.Net.Buffer.Crlf.{search_crlf-append, search_crlf-le}
use mini_reactor.Http.Context.{
  HttpContext, Headers, HttpRequestParseState, expect_request_line, expect_headers, expect_body,
  got_all, process_request_line, add_header, after_length, after_field, after_headers,
  text_or_empty, expect_body_len, is_expect_body, size_of,
}
use mini_reactor.Http.Context.Scan.{
  Move, move, scan_request_line, scan_header_line, scan_body, scan_in, scan, IsRunning, RunsIn,
}

scan_request_line-append :
    (ctx : HttpContext) (s t : List ℕ) (i : ℕ)
    → i ≤ length s
    → scan_request_line ctx (s ++ t) i ≡ scan_request_line ctx s i
unfolding scan_request_line
scan_request_line-append ctx s t i h = rw (take-append_of_le i s t h)

scan_header_line-append :
    (ctx : HttpContext) (s t : List ℕ) (i : ℕ)
    → i ≤ length s
    → scan_header_line ctx (s ++ t) i ≡ scan_header_line ctx s i
unfolding scan_header_line
scan_header_line-append ctx s t zero h = refl
scan_header_line-append ctx s t (suc i) h =
    ap (λ line. header_move line) (take-append_of_le (suc i) s t h)
  where
    header_move : List ℕ → Move
    header_move line =
        let (ok, request) = add_header line ctx.request in
        move (suc i + 2) ok ok (record ctx { request = request })

scan_body-append :
    (ctx : HttpContext) (s t : List ℕ) (len : Option Signed) (m : Move)
    → scan_body ctx s len ≡ some m
    → scan_body ctx (s ++ t) len ≡ some m
unfolding scan_body
scan_body-append ctx s t none m h = cc
scan_body-append ctx s t (some len) m h =
    ground (arith, length-append s t, take-append_of_le (size_of len) s t)

-- More bytes behind do not change a round that gets on.
scan_in-append :
    (state : HttpRequestParseState) (ctx : HttpContext) (s t : List ℕ) (m : Move)
    → scan_in state ctx s ≡ some m
    → scan_in state ctx (s ++ t) ≡ some m
scan_in-append expect_request_line ctx s t m h = elim (Option-cases (search_crlf s)) [
  | inl e ↦ cc (ap (Option.map (scan_request_line ctx s)) e)
  | inr (i, e) ↦ ground (
    arith,
    search_crlf-append s t i e,
    scan_request_line-append ctx s t i (omega (arith, search_crlf-le s i e)),
  )
]
scan_in-append expect_headers ctx s t m h = elim (Option-cases (search_crlf s)) [
  | inl e ↦ cc (ap (Option.map (scan_header_line ctx s)) e)
  | inr (i, e) ↦ ground (
    arith,
    search_crlf-append s t i e,
    scan_header_line-append ctx s t i (omega (arith, search_crlf-le s i e)),
  )
]
scan_in-append expect_body ctx s t m h =
    scan_body-append ctx s t (expect_body_len ctx.request.headers) m h
scan_in-append got_all ctx s t m h = cc

pub scan-append :
    (ctx : HttpContext) (s t : List ℕ) (m : Move) → scan ctx s ≡ some m → scan ctx (s ++ t) ≡ some m
unfolding scan
scan-append ctx s t m h = scan_in-append ctx.state ctx s t m h

-- A round that goes on takes two bytes at least, and the parser is still running after it.
-- One that ends the run with a legal request leaves the parser at its end.
abbrev pub Advances : List ℕ → Move → Type 0
Advances s m =
    (m.taken ≤ length s)
    × ((m.more && m.ok) ≡ true → (2 ≤ m.taken) × IsRunning m.ctx)
    × ((m.more && m.ok) ≡ false → m.ok ≡ true → m.ctx.state ≡ got_all)

scan_request_line-Advances :
    (ctx : HttpContext) (s : List ℕ) (i : ℕ)
    → i + 2 ≤ length s
    → Advances s (scan_request_line ctx s i)
unfolding scan_request_line
scan_request_line-Advances ctx s i h =
    elim (Bool-cases (process_request_line (take i s) ctx.request).0) [
      | inl good ↦ rw good (h, (λ _. (omega arith, tt)), λ q. cc)
      | inr bad ↦ rw bad (omega arith, (λ e. cc), λ q e. cc)
    ]

after_length_lem :
    (l : Option Signed) → (after_length l).1 ≡ expect_body → (n : ℕ) × (0 < n) × (l ≡ some (plus n))
unfolding after_length
after_length_lem none h = cc
after_length_lem (some (plus n)) h = (n, ground arith, refl)
after_length_lem (some (minus n)) h = cc

after_field_lem :
    (o : Option (List ℕ))
    → (after_field o).1 ≡ expect_body
    → (n : ℕ) × (0 < n) × (stoi (text_or_empty o) ≡ some (plus n))
unfolding after_field
after_field_lem none h = cc
after_field_lem (some text) h = after_length_lem (stoi text) h

is_expect_body_lem :
    (state : HttpRequestParseState) → is_expect_body state ≡ true → state ≡ expect_body
is_expect_body_lem expect_body h = refl
is_expect_body_lem state h = ground arith

after_headers-IsRunning :
    (ctx : HttpContext) (state : HttpRequestParseState)
    → (after_headers ctx.request.headers).1 ≡ state
    → is_expect_body state ≡ true
    → IsRunning (record ctx { state = state })
unfolding after_headers expect_body_len
after_headers-IsRunning ctx expect_body e h = after_field_lem _ e
after_headers-IsRunning ctx expect_request_line e h = tt
after_headers-IsRunning ctx expect_headers e h = tt
after_headers-IsRunning ctx got_all e h = cc

after_headers-got_all :
    (headers : Headers)
    → (after_headers headers).0 ≡ true
    → is_expect_body (after_headers headers).1 ≡ false
    → (after_headers headers).1 ≡ got_all
unfolding after_headers after_field after_length
after_headers-got_all headers h k = ground arith

scan_header_line-Advances :
    (ctx : HttpContext) (s : List ℕ) (i : ℕ)
    → ctx.state ≡ expect_headers
    → i + 2 ≤ length s
    → Advances s (scan_header_line ctx s i)
unfolding scan_header_line
scan_header_line-Advances ctx s zero e h = (
  h,
  (λ q. (omega arith, after_headers-IsRunning ctx _ refl (ground arith))),
  λ q k. after_headers-got_all ctx.request.headers k (ground arith),
)
scan_header_line-Advances ctx s (suc i) e h =
    (h, (λ q. (omega arith, rw e tt)), λ q k. ground arith)

map_holds :
    (P : Move → Type 0) (f : ℕ → Move) (o : Option ℕ) (m : Move)
    → ((i : ℕ) → o ≡ some i → P (f i))
    → Option.map f o ≡ some m
    → P m
map_holds P f none m h e = cc
map_holds P f (some i) m h e = subst P (some-injective _ _ e) (h i refl)

abbrev body_move : ℕ → HttpContext → List ℕ → Move
body_move n ctx s =
    move n true false
      (record { state = got_all; request = record (ctx.request) { body = take n s } })

scan_body-Advances :
    (ctx : HttpContext) (s : List ℕ) (len : Option Signed) (m : Move)
    → scan_body ctx s len ≡ some m
    → Advances s m
unfolding scan_body
scan_body-Advances ctx s none m h = cc
scan_body-Advances ctx s (some len) m h = elim (Bool-cases (leb (size_of len) (length s))) [
  | inl fits ↦
      subst (Advances s) (some-injective (body_move (size_of len) ctx s) m (rw fits at h))
        (ground arith, (λ q. cc), λ q k. refl)
  | inr short ↦ cc
]

scan_in-Advances :
    (state : HttpRequestParseState) (ctx : HttpContext) (s : List ℕ) (m : Move)
    → ctx.state ≡ state
    → scan_in state ctx s ≡ some m
    → Advances s m
scan_in-Advances expect_request_line ctx s m e h =
    map_holds (Advances s) (scan_request_line ctx s) (search_crlf s) m
      (λ i p. scan_request_line-Advances ctx s i (search_crlf-le s i p)) h
scan_in-Advances expect_headers ctx s m e h =
    map_holds (Advances s) (scan_header_line ctx s) (search_crlf s) m
      (λ i p. scan_header_line-Advances ctx s i e (search_crlf-le s i p)) h
scan_in-Advances expect_body ctx s m e h = scan_body-Advances ctx s _ m h
scan_in-Advances got_all ctx s m e h = cc

pub scan-Advances : (ctx : HttpContext) (s : List ℕ) (m : Move) → scan ctx s ≡ some m → Advances s m
unfolding scan
scan-Advances ctx s m h = scan_in-Advances ctx.state ctx s m refl h

-- A round that takes the request to its end takes a byte at least.
abbrev Takes : Move → Type 0
Takes m = m.ok ≡ true → 0 < m.taken

scan_request_line-Takes :
    (ctx : HttpContext) (s : List ℕ) (i : ℕ) → Takes (scan_request_line ctx s i)
unfolding scan_request_line
scan_request_line-Takes ctx s i =
    elim (Bool-cases (process_request_line (take i s) ctx.request).0) [
      | inl good ↦ rw good (λ _. omega arith)
      | inr bad ↦ rw bad (λ e. cc)
    ]

scan_header_line-Takes : (ctx : HttpContext) (s : List ℕ) (i : ℕ) → Takes (scan_header_line ctx s i)
unfolding scan_header_line
scan_header_line-Takes ctx s zero e = omega arith
scan_header_line-Takes ctx s (suc i) e = omega arith

scan_in-Takes :
    (state : HttpRequestParseState) (ctx : HttpContext) (s : List ℕ) (m : Move)
    → RunsIn state ctx
    → scan_in state ctx s ≡ some m
    → Takes m
unfolding scan_body
scan_in-Takes expect_request_line ctx s m r h =
    map_holds Takes (scan_request_line ctx s) (search_crlf s) m
      (λ i _. scan_request_line-Takes ctx s i) h
scan_in-Takes expect_headers ctx s m r h =
    map_holds Takes (scan_header_line ctx s) (search_crlf s) m
      (λ i _. scan_header_line-Takes ctx s i) h
scan_in-Takes expect_body ctx s m (n, pos, e) h = λ k. ground (arith, e)
scan_in-Takes got_all ctx s m r h = absurd r

pub scan-Takes :
    (ctx : HttpContext) (s : List ℕ) (m : Move)
    → IsRunning ctx
    → scan ctx s ≡ some m
    → m.ok ≡ true
    → 0 < m.taken
unfolding scan
scan-Takes ctx s m r h = scan_in-Takes ctx.state ctx s m r h
