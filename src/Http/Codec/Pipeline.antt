-- ===== src/Http/Codec/Pipeline.antt =====
-- Requests that arrive back to back, and the request that is refused.
use mini_reactor.Base.{
  ℕ, ◌<◌, ◌≡◌, refl, ap, ap₂, ◌∙◌, subst, true, false, List, [], ◌∷◌, ◌++◌, map, some, length,
  arith, length-append, All,
}
use mini_reactor.Net.Buffer.{Buffer, contents}
use mini_reactor.Net.Buffer.Contents.{IsValid}
use mini_reactor.Http.Context.{
  HttpContext, HttpRequest, init, got_all, after_headers, spins, parse_loop,
}
use mini_reactor.Http.Context.Scan.Refine.{parse_loop_spins}
use mini_reactor.Http.Context.Encode.{encode, HasLines, IsEncodable, request_line, encode_headers}
use mini_reactor.Http.Context.RoundTrip.{encode-Scans, encode-refuses, finished}
use mini_reactor.Http.Codec.{callback, send_bad_request, shutdown, served, on_message}
use mini_reactor.Http.Codec.Serve.{kept, Serves, drained, refuses, dispatches, on_message-Replies}
use mini_reactor.Http.Codec.Unique.{Serves-Same}

abbrev pub encode_all : List HttpRequest → List ℕ
encode_all [] = []
encode_all (r ∷ rs) = encode r (encode_all rs)

encode-pos : (r : HttpRequest) (rest : List ℕ) → 0 < length (encode r rest)
unfolding encode
encode-pos r rest =
    omega
      (arith, length-append (request_line r) (13 ∷ 10 ∷ encode_headers r.headers (r.body ++ rest)))

encode_all-Serves :
    (rs : List HttpRequest)
    → All IsEncodable rs
    → Serves true kept init [] (map callback rs) init (encode_all rs)
encode_all-Serves [] h = drained refl refl refl refl
encode_all-Serves (r ∷ rs) (e, h) =
    dispatches (finished r) (encode_all rs) (encode-pos r (encode_all rs))
      (encode-Scans r (encode_all rs) e) (encode_all-Serves rs h)

-- From a fresh context, where a buffer with its cursors in order holds exactly what a client wrote
-- of encodable requests, back to back: the callbacks are these requests, each once and in order;
-- nothing is left unread, and the parser is reset.
pub on_message-encode_all :
    (rs : List HttpRequest) (b : Buffer)
    → All IsEncodable rs
    → IsValid b
    → contents b ≡ encode_all rs
    → (rest : Buffer) × (on_message true (some init) b ≡ served (map callback rs) init rest)
      × (contents rest ≡ [])
on_message-encode_all rs b h v e =
    let got = on_message-Replies true init b v tt in
    let q =
      Serves-Same true
        (subst (λ s. Serves true got.ending got.final (contents got.rest) got.events init s) e
          got.run)
        (encode_all-Serves rs h) in
    (got.rest, got.result ∙ ap₂ (λ es c. served es c got.rest) q.events q.context, q.rest)

-- From a fresh context, where the buffer holds a request whose lines are legal and whose length
-- field is not: the client gets a 400 and the connection is to be shut down. But the parser is
-- left in a state from which no number of rounds lets `ParseRequest` return, whatever bytes come.
pub bad_length_spins :
    (r : HttpRequest) (rest : List ℕ) (b : Buffer)
    → HasLines r
    → after_headers r.headers ≡ (false, got_all)
    → IsValid b
    → contents b ≡ encode r rest
    → (ctx : HttpContext) × (left : Buffer) × (on_message true (some init) b
        ≡ served (send_bad_request ∷ shutdown ∷ []) ctx left)
      × ((fuel : ℕ) (later : Buffer) → parse_loop fuel ctx later ≡ spins)
bad_length_spins r rest b lines h v e =
    let got = on_message-Replies true init b v tt in
    let q =
      Serves-Same true
        (subst (λ s. Serves true got.ending got.final (contents got.rest) got.events init s) e
          got.run)
        (refuses (encode-pos r rest) refl (encode-refuses r rest lines h)) in
    (
      got.final,
      got.rest,
      got.result ∙ ap (λ es. served es got.final got.rest) q.events,
      λ fuel later. parse_loop_spins fuel got.final later (ap (λ c. c.state) q.context),
    )
