-- ===== src/Http/Context/Scan/Refine.antt =====
-- The loop over the buffer does what the rounds over its readable bytes say.
use mathlib.Core.Option
use mini_reactor.Base.{
  ℕ, zero, suc, ◌+◌, ◌≤◌, ◌<◌, ◌≡◌, refl, ap, ◌∙◌, Bool, true, false, ◌&&◌, Option, none, some,
  length, arith, Bool-cases, Option-cases, inl, inr, subst, length-drop, subst,
}
use mini_reactor.Base.Bytes.{plus}
use mini_reactor.Net.Buffer.{
  Buffer, contents, readable_bytes, retrieve, retrieve_until, find_crlf, search_crlf,
}
use mini_reactor.Net.Buffer.Contents.{IsValid, length-contents, contents-retrieve, retrieve-IsValid}
use mini_reactor.Net.Buffer.Crlf.{search_crlf-le}
use mini_reactor.Http.Context.{
  HttpContext, HttpRequestParseState, expect_request_line, expect_headers, expect_body, got_all,
  Round, round, on_request_line, on_header_line, on_body, parse_round, round_in, parse_loop,
  parse_request, Parsed, returned, spins,
}
use mini_reactor.Http.Context.Scan.{
  Move, scan_request_line, scan_header_line, scan_body, scan_in, scan, IsRunning, RunsIn, Outcome,
  waiting, illegal, outcome_of, Scans, waits, stops, goes,
}
use mini_reactor.Http.Context.Scan.Advance.{scan-Advances}

-- What a round over the buffer does, given what the scan of its bytes finds.
abbrev realise : Option Move → HttpContext → Buffer → Round
realise none ctx buf = round true false ctx buf
realise (some m) ctx buf = round m.ok m.more m.ctx (retrieve m.taken buf)

retrieve_until_lem :
    (n : ℕ) (b : Buffer) → n ≤ readable_bytes b → retrieve_until n b ≡ some (retrieve n b)
unfolding retrieve_until
retrieve_until_lem n b h = ground arith

retrieve_zero : (b : Buffer) → 0 < readable_bytes b → retrieve 0 b ≡ b
unfolding retrieve
retrieve_zero b h = ground arith

on_request_line_lem :
    (ctx : HttpContext) (b : Buffer) (o : Option ℕ)
    → ((i : ℕ) → o ≡ some i → i + 2 ≤ readable_bytes b)
    → on_request_line ctx b o ≡ realise (Option.map (scan_request_line ctx (contents b)) o) ctx b
unfolding on_request_line scan_request_line
on_request_line_lem ctx b none h = refl
on_request_line_lem ctx b (some i) h = ground (
  arith,
  h i refl,
  retrieve_until_lem (i + 2) b (h i refl),
  retrieve_zero b (omega (arith, h i refl)),
)

on_header_line_lem :
    (ctx : HttpContext) (b : Buffer) (o : Option ℕ)
    → ((i : ℕ) → o ≡ some i → i + 2 ≤ readable_bytes b)
    → on_header_line ctx b o ≡ realise (Option.map (scan_header_line ctx (contents b)) o) ctx b
unfolding on_header_line scan_header_line
on_header_line_lem ctx b none h = refl
on_header_line_lem ctx b (some zero) h =
    ground (arith, h 0 refl, retrieve_until_lem 2 b (omega (arith, h 0 refl)))
on_header_line_lem ctx b (some (suc i)) h =
    ground (arith, h (suc i) refl, retrieve_until_lem (suc i + 2) b (h (suc i) refl))

on_body_lem :
    (ctx : HttpContext) (b : Buffer) (n : ℕ)
    → length (contents b) ≡ readable_bytes b
    → on_body ctx b (some (plus n)) ≡ realise (scan_body ctx (contents b) (some (plus n))) ctx b
unfolding on_body scan_body
on_body_lem ctx b n h = ground arith

round_in_lem :
    (state : HttpRequestParseState) (ctx : HttpContext) (b : Buffer)
    → IsValid b
    → RunsIn state ctx
    → round_in state ctx b ≡ realise (scan_in state ctx (contents b)) ctx b
unfolding find_crlf
round_in_lem expect_request_line ctx b v r =
    on_request_line_lem ctx b (search_crlf (contents b))
      (λ i e. omega (arith, search_crlf-le (contents b) i e, length-contents b v))
round_in_lem expect_headers ctx b v r =
    on_header_line_lem ctx b (search_crlf (contents b))
      (λ i e. omega (arith, search_crlf-le (contents b) i e, length-contents b v))
round_in_lem expect_body ctx b v (n, pos, e) = rw (e) (on_body_lem ctx b n (length-contents b v))
round_in_lem got_all ctx b v r = absurd r

parse_round_lem :
    (ctx : HttpContext) (b : Buffer)
    → IsValid b
    → IsRunning ctx
    → parse_round ctx b ≡ realise (scan ctx (contents b)) ctx b
unfolding parse_round scan
parse_round_lem ctx b v r = round_in_lem ctx.state ctx b v r

-- `ParseRequest` returned, with its result and what it left behind, as a run says.
abbrev pub ok_of : Outcome → Bool
ok_of illegal = false
ok_of _ = true

pub record Returns (ctx : HttpContext) (b : Buffer) (p : Parsed) : Type 0 where
  pub outcome : Outcome
  pub final : HttpContext
  pub rest : Buffer
  pub result : p ≡ returned (ok_of outcome) final rest
  pub run : Scans outcome final (contents rest) ctx (contents b)
  pub valid : IsValid rest

module _ (fuel : ℕ) (ctx : HttpContext) (b : Buffer) (ok more : Bool) (ctx' : HttpContext)
    (b' : Buffer) (e : parse_round ctx b ≡ round ok more ctx' b') where
  parse_loop_goes : (more && ok) ≡ true → parse_loop (suc fuel) ctx b ≡ parse_loop fuel ctx' b'
  unfolding parse_loop
  parse_loop_goes h = rw (e, parse_loop) (ground arith)

  parse_loop_stops : (more && ok) ≡ false → parse_loop (suc fuel) ctx b ≡ returned ok ctx' b'
  unfolding parse_loop
  parse_loop_stops h = rw (e, parse_loop) (ground arith)

parse_loop-Returns :
    (fuel : ℕ) (ctx : HttpContext) (b : Buffer)
    → IsValid b
    → IsRunning ctx
    → readable_bytes b < fuel
    → Returns ctx b (parse_loop fuel ctx b)
parse_loop-Returns zero ctx b v r h = absurd (omega arith)
parse_loop-Returns (suc fuel) ctx b v r h = elim (Option-cases (scan ctx (contents b))) [
  | inl e ↦ record {
    outcome = waiting;
    final = ctx;
    rest = b;
    result =
        parse_loop_stops fuel ctx b true false ctx b
          (parse_round_lem ctx b v r ∙ ap (λ o. realise o ctx b) e) refl;
    run = waits e refl refl refl;
    valid = v;
  }
  | inr (m, e) ↦
      let b' = retrieve m.taken b in
      let v' = retrieve-IsValid m.taken v in
      let left = contents-retrieve b m.taken v in
      let (fits, advance, _) = scan-Advances ctx (contents b) m e in
      let round_e = parse_round_lem ctx b v r ∙ ap (λ o. realise o ctx b) e in
      elim (Bool-cases (m.more && m.ok)) [
        | inl on ↦
            let shorter : readable_bytes b' < fuel = omega (
              arith,
              advance on,
              length-contents b v,
              length-contents b' v',
              ap length left,
              length-drop m.taken (contents b),
            ) in
            let rest = parse_loop-Returns fuel m.ctx b' v' (advance on).1 shorter in
            record {
              outcome = rest.outcome;
              final = rest.final;
              rest = rest.rest;
              result = parse_loop_goes fuel ctx b m.ok m.more m.ctx b' round_e on ∙ rest.result;
              run = goes m e on (
                  subst (λ s. Scans rest.outcome rest.final (contents rest.rest) m.ctx s) left
                    rest.run);
              valid = rest.valid;
            }
        | inr off ↦ record {
          outcome = outcome_of m.ok;
          final = m.ctx;
          rest = b';
          result = parse_loop_stops fuel ctx b m.ok m.more m.ctx b' round_e off ∙ ground arith;
          run = stops m e off refl refl left;
          valid = v';
        }
      ]
]

-- From a running context and a buffer with its cursors in order, `ParseRequest` always returns,
-- with the cursors in order: true if the run over the readable bytes waits or completes a request
-- and false if it meets an illegal line or length, with the context and the unread bytes where the
-- run leaves them.
pub parse_request-Returns :
    (ctx : HttpContext) (b : Buffer)
    → IsValid b
    → IsRunning ctx
    → Returns ctx b (parse_request ctx b)
unfolding parse_request
parse_request-Returns ctx b v r = parse_loop-Returns (readable_bytes b + 1) ctx b v r (omega arith)

-- At `kGotAll` the loop of `ParseRequest` turns for ever: no fuel is enough.
pub parse_loop_spins :
    (fuel : ℕ) (ctx : HttpContext) (b : Buffer)
    → ctx.state ≡ got_all
    → parse_loop fuel ctx b ≡ spins
unfolding parse_loop parse_round
parse_loop_spins zero ctx b e = refl
parse_loop_spins (suc fuel) ctx b e =
    parse_loop_goes fuel ctx b true true ctx b (rw e) refl ∙ parse_loop_spins fuel ctx b e
