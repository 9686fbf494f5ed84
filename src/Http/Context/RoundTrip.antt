-- ===== src/Http/Context/RoundTrip.antt =====
-- The parser gives back what a client wrote.
use mini_reactor.Base.{
  ℕ, zero, suc, ◌+◌, ◌<◌, ◌≡◌, refl, ap, ◌∙◌, sym, subst, true, false, ◌==◌, List, [], ◌∷◌, ◌++◌,
  none, some, length, take, drop, map, arith, length-append, append_assoc, append-nil,
  take-length-append, drop-length-append, drop-drop, inl, inr, leb,
}
use mini_reactor.Base.Bytes.{
  Lacks, plus, to_lower, skip_space, lookup, insert, find_byte-append, find_byte_of_Lacks,
}
use mini_reactor.Net.Buffer.{search_crlf}
use mini_reactor.Net.Buffer.Crlf.{search_crlf-line}
use mini_reactor.Http.Context.{
  Headers, HttpRequest, HttpContext, init, empty_request, expect_headers, expect_body, got_all,
  process_request_line, assign_target, add_header, after_headers, expect_body_len,
}
use mini_reactor.Http.Context.Scan.{
  move, scan, scan_request_line, scan_header_line, scan_body, Outcome, complete, illegal, Scans,
  stops, goes,
}
use mini_reactor.Http.Context.Encode.{
  target_of, request_line, header_line, encode_headers, encode, AreCanonical, IsFramed, HasLines,
  IsEncodable,
}

drop_after : (s t : List ℕ) (c : ℕ) → drop (length s + 1) (s ++ c ∷ t) ≡ t
drop_after s t c =
    sym (drop-drop 1 (length s) (length s + 1) (s ++ c ∷ t) refl)
    ∙ ap (drop 1) (drop-length-append s (c ∷ t))

not_end : (s t : List ℕ) (c : ℕ) → (length s == length (s ++ c ∷ t)) ≡ false
not_end s t c = ground (arith, length-append s (c ∷ t))

assign_target_lem :
    (path query : List ℕ) (r : HttpRequest)
    → Lacks b'?' path
    → r.query ≡ []
    → assign_target (target_of path query) r ≡ record r { path = path; query = query }
unfolding assign_target
assign_target_lem path [] r h e = rw (find_byte_of_Lacks b'?' path h) (ground arith)
assign_target_lem path (c ∷ query) r h e = rw (
  find_byte-append b'?' path (c ∷ query) h,
  not_end path (c ∷ query) b'?',
  take-length-append path (b'?' ∷ c ∷ query),
  drop_after path (c ∷ query) b'?',
)

process_request_line_lem :
    (r : HttpRequest)
    → Lacks 32 r.method
    → Lacks 32 (target_of r.path r.query)
    → Lacks b'?' r.path
    → process_request_line (request_line r) empty_request
      ≡ (true, record r { headers = []; body = [] })
unfolding process_request_line
process_request_line_lem r h k p =
    let target = target_of r.path r.query in
    let start = target ++ 32 ∷ r.version in
    rw
      (
        find_byte-append 32 r.method start h,
        not_end r.method start 32,
        take-length-append r.method (32 ∷ start),
        drop_after r.method start 32,
        find_byte-append 32 target r.version k,
        not_end target r.version 32,
        take-length-append target (32 ∷ r.version),
        drop_after target r.version 32,
      )
      (ap (λ q. (true, record q { version = r.version }))
        (assign_target_lem r.path r.query (record empty_request { method = r.method }) p refl))

insert_new : (k v : List ℕ) (m : Headers) → lookup k m ≡ none → insert k v m ≡ m ++ (k, v) ∷ []
unfolding lookup insert
insert_new k v [] h = refl
insert_new k v ((j, w) ∷ m) h = ground (arith, insert_new k v m)

skip_space_one : (v : List ℕ) → skip_space (32 ∷ v) ≡ skip_space v
unfolding skip_space
skip_space_one v = refl

add_header_lem :
    (key value : List ℕ) (r : HttpRequest)
    → Lacks b':' key
    → map to_lower key ≡ key
    → skip_space value ≡ value
    → lookup key r.headers ≡ none
    → add_header (header_line key value) r
      ≡ (true, record r { headers = r.headers ++ (key, value) ∷ [] })
unfolding add_header
add_header_lem key value r h low sp new = rw (
  find_byte-append b':' key (32 ∷ value) h,
  not_end key (32 ∷ value) b':',
  take-length-append key (b':' ∷ 32 ∷ value),
  drop_after key (32 ∷ value) b':',
  skip_space_one value,
  sp,
  low,
  insert_new key value r.headers new,
)

drop_line : (s t : List ℕ) → drop (length s + 2) (s ++ 13 ∷ 10 ∷ t) ≡ t
drop_line s t =
    sym (drop-drop 2 (length s) (length s + 2) (s ++ 13 ∷ 10 ∷ t) refl)
    ∙ ap (drop 2) (drop-length-append s (13 ∷ 10 ∷ t))

abbrev at_headers : HttpRequest → HttpContext
at_headers r = record { state = expect_headers; request = r }

scan_request_line_lem :
    (r : HttpRequest) (rest : List ℕ)
    → HasLines r
    → scan init (request_line r ++ 13 ∷ 10 ∷ rest)
      ≡ some (
          move
            (length (request_line r) + 2)
            true
            true
            (at_headers (record r { headers = []; body = [] })))
unfolding scan scan_request_line
scan_request_line_lem r rest e = rw (
  search_crlf-line (request_line r) rest e.line,
  take-length-append (request_line r) (13 ∷ 10 ∷ rest),
  process_request_line_lem r e.method e.target e.path,
)

scan_header_line_pos :
    (ctx : HttpContext) (s : List ℕ) (i : ℕ)
    → 0 < i
    → scan_header_line ctx s i ≡ (
        let (ok, request) = add_header (take i s) ctx.request in
        move (i + 2) ok ok (record ctx { request = request }))
unfolding scan_header_line
scan_header_line_pos ctx s zero h = absurd (omega arith)
scan_header_line_pos ctx s (suc i) h = refl

scan_header_lem :
    (key value rest : List ℕ) (r : HttpRequest)
    → Lacks b':' key
    → map to_lower key ≡ key
    → skip_space value ≡ value
    → search_crlf (header_line key value) ≡ none
    → lookup key r.headers ≡ none
    → scan (at_headers r) (header_line key value ++ 13 ∷ 10 ∷ rest)
      ≡ some (
          move
            (length (header_line key value) + 2)
            true
            true
            (at_headers (record r { headers = r.headers ++ (key, value) ∷ [] })))
unfolding scan
scan_header_lem key value rest r h low sp line new =
    let text = header_line key value in
    rw (search_crlf-line text rest line) (
      ap some (
        scan_header_line_pos (at_headers r) (text ++ 13 ∷ 10 ∷ rest) (length text)
          (omega (arith, length-append key (b':' ∷ 32 ∷ value)))
        ∙ rw (take-length-append text (13 ∷ 10 ∷ rest), add_header_lem key value r h low sp new)))

headers_run :
    {o : Outcome} {c : HttpContext} {rest : List ℕ} (headers : Headers) (r : HttpRequest)
    (tail : List ℕ)
    → AreCanonical r.headers headers
    → Scans o c rest (at_headers (record r { headers = r.headers ++ headers })) (13 ∷ 10 ∷ tail)
    → Scans o c rest (at_headers r) (encode_headers headers tail)
unfolding encode_headers
headers_run {o} {c} {rest} [] r tail h run =
    subst (λ x. Scans o c rest (at_headers (record r { headers = x })) (13 ∷ 10 ∷ tail))
      (append-nil r.headers) run
headers_run {o} {c} {rest} ((key, value) ∷ headers) r tail (h, low, sp, line, new, more) run =
    let r' = record r { headers = r.headers ++ (key, value) ∷ [] } in
    let m = move (length (header_line key value) + 2) true true (at_headers r') in
    goes m (scan_header_lem key value (encode_headers headers tail) r h low sp line new) refl (
      subst (λ x. Scans o c rest (at_headers r') x)
        (sym (drop_line (header_line key value) (encode_headers headers tail)))
        (headers_run headers r' tail more (
          subst (λ x. Scans o c rest (at_headers (record r { headers = x })) (13 ∷ 10 ∷ tail))
            (sym (append_assoc r.headers ((key, value) ∷ []) headers)) run)))

blank_line_lem :
    (r : HttpRequest) (tail : List ℕ)
    → scan (at_headers r) (13 ∷ 10 ∷ tail)
      ≡ some (scan_header_line (at_headers r) (13 ∷ 10 ∷ tail) 0)
unfolding scan search_crlf
blank_line_lem r tail = refl

abbrev pub finished : HttpRequest → HttpContext
finished r = record { state = got_all; request = r }

body_lem :
    (r : HttpRequest) (rest : List ℕ)
    → expect_body_len r.headers ≡ some (plus (length r.body))
    → scan (record { state = expect_body; request = record r { body = [] } }) (r.body ++ rest)
      ≡ some (move (length r.body) true false (finished r))
unfolding scan scan_body
body_lem r rest len =
    let fits : leb (length r.body) (length (r.body ++ rest)) ≡ true =
      ground (arith, length-append r.body rest) in
    rw (len, fits, take-length-append r.body rest)

end_run :
    (r : HttpRequest) (rest : List ℕ)
    → IsFramed r.headers r.body
    → Scans complete
        (finished r)
        rest
        (at_headers (record r { body = [] }))
        (13 ∷ 10 ∷ (r.body ++ rest))
unfolding scan_header_line
end_run r rest (inl (e, empty)) =
    stops (move 2 true false (finished (record r { body = [] })))
      (blank_line_lem (record r { body = [] }) (r.body ++ rest) ∙ rw (e, scan_header_line) refl)
      refl refl (ap (λ b. finished (record r { body = b })) empty) (sym (ap (λ b. b ++ rest) empty))
end_run r rest (inr (e, len)) =
    goes (move 2 true true (record { state = expect_body; request = record r { body = [] } }))
      (blank_line_lem (record r { body = [] }) (r.body ++ rest) ∙ rw (e, scan_header_line) refl)
      refl
      (stops (move (length r.body) true false (finished r)) (body_lem r rest len) refl refl refl
        (sym (drop-length-append r.body rest)))

lines_run :
    {o : Outcome} {c : HttpContext} {left : List ℕ} (r : HttpRequest) (tail : List ℕ)
    → HasLines r
    → Scans o c left (at_headers (record r { body = [] })) (13 ∷ 10 ∷ tail)
    → Scans o c left init (request_line r ++ 13 ∷ 10 ∷ encode_headers r.headers tail)
lines_run {o} {c} {left} r tail e run =
    let bare = record r { headers = []; body = [] } in
    goes (move (length (request_line r) + 2) true true (at_headers bare))
      (scan_request_line_lem r (encode_headers r.headers tail) e) refl
      (subst (λ x. Scans o c left (at_headers bare) x)
        (sym (drop_line (request_line r) (encode_headers r.headers tail)))
        (headers_run r.headers bare tail e.headers run))

-- A request as a client writes it, with whatever follows: one run takes exactly its bytes, and the
-- parser holds the request, part by part.
pub encode-Scans :
    (r : HttpRequest) (rest : List ℕ)
    → IsEncodable r
    → Scans complete (finished r) rest init (encode r rest)
unfolding encode
encode-Scans r rest e = lines_run r (r.body ++ rest) e.lines (end_run r rest e.framed)

-- With an illegal length field the run refuses the request behind its blank line, at `kGotAll`.
pub encode-refuses :
    (r : HttpRequest) (rest : List ℕ)
    → HasLines r
    → after_headers r.headers ≡ (false, got_all)
    → Scans illegal (finished (record r { body = [] })) (r.body ++ rest) init (encode r rest)
unfolding encode scan_header_line
encode-refuses r rest e h =
    let bare = record r { body = [] } in
    lines_run r (r.body ++ rest) e (
      stops (move 2 false false (finished bare))
        (blank_line_lem bare (r.body ++ rest) ∙ rw (h, scan_header_line) refl) refl refl refl refl)
