-- ===== src/Http/Codec/Serve.antt =====
-- `OnMessage` as a run over the readable bytes.
use mini_reactor.Base.{
  ℕ, zero, suc, ◌+◌, ◌<◌, ◌≡◌, refl, ap, ◌∙◌, sym, ltb, ltb→lt, lt→ltb, Bool, true, false, List, [],
  ◌∷◌, ◌++◌, some, length, arith, length-drop, Bool-cases, inl, inr,
}
use mini_reactor.Net.Buffer.{Buffer, contents, readable_bytes}
use mini_reactor.Net.Buffer.Contents.{IsValid, length-contents}
use mini_reactor.Http.Context.{
  HttpContext, HttpRequestParseState, expect_request_line, expect_headers, expect_body, init, reset,
  got_all, got_all?, is_got_all, returned, parse_request,
}
use mini_reactor.Http.Context.Scan.{
  Outcome, waiting, complete, illegal, outcome_of, Scans, waits, stops, goes, IsRunning, RunsIn,
}
use mini_reactor.Http.Context.Scan.Advance.{scan-Advances, scan-Takes}
use mini_reactor.Http.Context.Scan.Refine.{ok_of, parse_request-Returns}
use mini_reactor.Http.Context.Scan.Feed.{Scans-Left}
use mini_reactor.Http.Codec.{
  Event, send_bad_request, shutdown, Served, served, after, call, serve_loop, on_message,
}

-- How a delivery ends: the connection is kept, or it is refused.
pub data Ending : Type 0 where
  kept refused : Ending

-- The events of the bytes `s`, the context and the bytes left at the end.
pub data Serves (cb : Bool) (end : Ending) (c : HttpContext) (r : List ℕ)
    : List Event → HttpContext → List ℕ → Type 0 where
  drained :
      {ctx : HttpContext} {s : List ℕ}
      → s ≡ []
      → end ≡ kept
      → c ≡ ctx
      → r ≡ []
      → Serves cb end c r [] ctx s
  pauses :
      {ctx : HttpContext} {s : List ℕ}
      → 0 < length s
      → end ≡ kept
      → Scans waiting c r ctx s
      → Serves cb end c r [] ctx s
  refuses :
      {ctx : HttpContext} {s : List ℕ}
      → 0 < length s
      → end ≡ refused
      → Scans illegal c r ctx s
      → Serves cb end c r (send_bad_request ∷ shutdown ∷ []) ctx s
  dispatches :
      {es : List Event} {ctx : HttpContext} {s : List ℕ} (mid : HttpContext) (rest : List ℕ)
      → 0 < length s
      → Scans complete mid rest ctx s
      → Serves cb end c r es init rest
      → Serves cb end c r (call cb mid.request ++ es) ctx s

waiting-ne-complete : waiting ≡ complete → ⊥
waiting-ne-complete e = cc

outcome_of-complete : (ok : Bool) → outcome_of ok ≡ complete → ok ≡ true
outcome_of-complete true e = refl
outcome_of-complete false e = cc

length_zero : (s : List ℕ) → length s ≡ 0 → s ≡ []
length_zero [] e = refl
length_zero (x ∷ s) e = absurd (omega arith)

-- A complete request takes one byte at least.
Scans-shorter :
    {c : HttpContext} {r : List ℕ} (o : Outcome) {ctx : HttpContext} {s : List ℕ}
    → IsRunning ctx
    → Scans o c r ctx s
    → o ≡ complete
    → length r < length s
Scans-shorter o run (waits h e ec er) q = absurd (waiting-ne-complete (sym e ∙ q))
Scans-shorter {r} o run (stops {ctx} {s} m h off e ec er) q =
    let fits = (scan-Advances ctx s m h).0 in
    let takes = scan-Takes ctx s m run h (outcome_of-complete m.ok (sym e ∙ q)) in
    omega (arith, ap length er, length-drop m.taken s)
Scans-shorter o run (goes {ctx} {s} m h on rest) q =
    let (fits, advance, _) = scan-Advances ctx s m h in
    omega (arith, length-drop m.taken s, Scans-shorter o (advance on).1 rest q)

pub record Replies (cb : Bool) (ctx : HttpContext) (s : List ℕ) (v : Served) : Type 0 where
  pub ending : Ending
  pub events : List Event
  pub final : HttpContext
  pub rest : Buffer
  pub result : v ≡ served events final rest
  pub run : Serves cb ending final (contents rest) events ctx s
  pub valid : IsValid rest

module _ (cb : Bool) (fuel : ℕ) (ctx : HttpContext) (b : Buffer) where
  serve_empty : readable_bytes b ≡ 0 → serve_loop cb (suc fuel) ctx b ≡ served [] ctx b
  unfolding serve_loop
  serve_empty e = rw (e, serve_loop) refl

  module _ (ok : Bool) (c : HttpContext) (b' : Buffer) (some_left : 0 < readable_bytes b)
      (e : parse_request ctx b ≡ returned ok c b') where
    serve_refused :
        ok ≡ false → serve_loop cb (suc fuel) ctx b ≡ served (send_bad_request ∷ shutdown ∷ []) c b'
    unfolding serve_loop
    serve_refused h = rw (lt→ltb _ _ some_left, e, h, serve_loop) refl

    serve_waits : ok ≡ true → got_all? c ≡ false → serve_loop cb (suc fuel) ctx b ≡ served [] c b'
    unfolding serve_loop
    serve_waits h k = rw (lt→ltb _ _ some_left, e, h, k, serve_loop) refl

    serve_complete :
        ok ≡ true
        → got_all? c ≡ true
        → serve_loop cb (suc fuel) ctx b
          ≡ after (call cb c.request) (serve_loop cb fuel (reset c) b')
    unfolding serve_loop
    serve_complete h k = rw (lt→ltb _ _ some_left, e, h, k, serve_loop) refl

running-got_all? : (c : HttpContext) → IsRunning c → got_all? c ≡ false
unfolding got_all?
running-got_all? c run = not_end c.state run
  where
    not_end : (state : HttpRequestParseState) → RunsIn state c → is_got_all state ≡ false
    not_end expect_request_line r = refl
    not_end expect_headers r = refl
    not_end expect_body r = refl
    not_end got_all r = absurd r

ended-got_all? : (c : HttpContext) → c.state ≡ got_all → got_all? c ≡ true
unfolding got_all?
ended-got_all? c e = rw e

serve_step :
    (cb : Bool) (fuel : ℕ) (ctx : HttpContext) (b : Buffer) (o : Outcome) (c : HttpContext)
    (b' : Buffer)
    → IsRunning ctx
    → 0 < length (contents b)
    → 0 < readable_bytes b
    → parse_request ctx b ≡ returned (ok_of o) c b'
    → Scans o c (contents b') ctx (contents b)
    → IsValid b'
    → (o ≡ complete → Replies cb init (contents b') (serve_loop cb fuel (reset c) b'))
    → Replies cb ctx (contents b) (serve_loop cb (suc fuel) ctx b)
serve_step cb fuel ctx b waiting c b' run more some_left e scans v rest = record {
  ending = kept;
  events = [];
  final = c;
  rest = b';
  result =
      serve_waits cb fuel ctx b true c b' some_left e refl
        (running-got_all? c (Scans-Left waiting run scans));
  run = pauses more refl scans;
  valid = v;
}
serve_step cb fuel ctx b illegal c b' run more some_left e scans v rest = record {
  ending = refused;
  events = send_bad_request ∷ shutdown ∷ [];
  final = c;
  rest = b';
  result = serve_refused cb fuel ctx b false c b' some_left e refl;
  run = refuses more refl scans;
  valid = v;
}
serve_step cb fuel ctx b complete c b' run more some_left e scans v rest =
    let tail = rest refl in
    record {
      ending = tail.ending;
      events = call cb c.request ++ tail.events;
      final = tail.final;
      rest = tail.rest;
      result =
          serve_complete cb fuel ctx b true c b' some_left e refl
            (ended-got_all? c (Scans-Left complete run scans))
          ∙ ap (after (call cb c.request)) tail.result;
      run = dispatches c (contents b') more scans tail.run;
      valid = tail.valid;
    }

serve_loop-Replies :
    (cb : Bool) (fuel : ℕ) (ctx : HttpContext) (b : Buffer)
    → IsValid b
    → IsRunning ctx
    → readable_bytes b < fuel
    → Replies cb ctx (contents b) (serve_loop cb fuel ctx b)
unfolding reset
serve_loop-Replies cb zero ctx b v run h = absurd (omega arith)
serve_loop-Replies cb (suc fuel) ctx b v run h = elim (Bool-cases (ltb 0 (readable_bytes b))) [
  | inl more ↦
      let p = parse_request-Returns ctx b v run in
      let some_left = ltb→lt _ _ more in
      serve_step cb fuel ctx b p.outcome p.final p.rest run
        (omega (arith, length-contents b v, some_left)) some_left p.result p.run p.valid
        λ done. serve_loop-Replies cb fuel init p.rest p.valid tt (
          omega (
            arith,
            Scans-shorter p.outcome run p.run done,
            length-contents b v,
            length-contents p.rest p.valid,
          ))
  | inr empty ↦ record {
    ending = kept;
    events = [];
    final = ctx;
    rest = b;
    result = serve_empty cb fuel ctx b (ground arith);
    run = drained (nothing b v (ground arith)) refl refl (nothing b v (ground arith));
    valid = v;
  }
]
  where
    nothing : (b : Buffer) → IsValid b → readable_bytes b ≡ 0 → contents b ≡ []
    nothing b v e = length_zero (contents b) (length-contents b v ∙ e)

-- From a running context `OnMessage` always returns; the events, the context and the unread bytes
-- are those of a run over the readable bytes.
pub on_message-Replies :
    (cb : Bool) (ctx : HttpContext) (b : Buffer)
    → IsValid b
    → IsRunning ctx
    → Replies cb ctx (contents b) (on_message cb (some ctx) b)
unfolding on_message
on_message-Replies cb ctx b v run =
    serve_loop-Replies cb (readable_bytes b + 1) ctx b v run (omega arith)
