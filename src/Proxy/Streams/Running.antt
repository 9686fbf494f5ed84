-- ===== src/Proxy/Streams/Running.antt =====
-- The bytes that the session forwards, over every sequence of steps before its end.
use mini_reactor.Base.{
  ℕ, ◌≡◌, refl, sym, ap, ◌∙◌, subst, List, [], ◌∷◌, ◌++◌, All, append-nil, append_assoc, if_holds,
  arith,
}
use mini_reactor.Net.Buffer.{contents}
use mini_reactor.Net.Buffer.Contents.{IsValid}
use mini_reactor.Net.Connection.{Connection, handle_write, handle_close}
use mini_reactor.Net.Connection.Stream.{requests, writes, DropsNothing}
use mini_reactor.Net.Connection.Stream.Sending.{handle_write-Carries}
use mini_reactor.Net.Connection.Stream.Running.{handle_close-Carries}
use mini_reactor.Proxy.{
  Peer, upstream, downstream, Session, other, side, Event, Step, connects, hangs_up, data_from,
  writable, runs_functor, closed, run_notice, step, run, start,
}
use mini_reactor.Proxy.Sending.{requests-handle_write, requests-handle_close}
use mini_reactor.Proxy.Streams.{effects, bytes_from, Line, Passes}
use mini_reactor.Proxy.Streams.Calls.{
  core, Open, Goes, GoesTo, Goes-none, Goes-then, call-Goes, core-on_write_complete,
}
use mini_reactor.Proxy.Streams.Handlers.{
  with_conn, quiet-Goes, new_connection-Goes, closed_up-Goes, deliver-Goes,
}

side-IsValid : (p : Peer) (s : Session) → Open (core s) → IsValid (side p s).conn.output_buffer
side-IsValid upstream s o = o.valid_up
side-IsValid downstream s o = o.valid_down

core-run_notice : (l : List Peer) (s : Session) → core (run_notice l s) ≡ core s
core-run_notice [] s = refl
core-run_notice (p ∷ rest) s =
    if_holds (λ t. core t ≡ core s) _ _ _ (core-on_write_complete p (record s { queued = rest }))
      refl

-- The downstream connection is there.
abbrev Stays : Step → Type 0
Stays (hangs_up downstream) = ⊥
Stays _ = Unit

step-Goes : (st : Step) (s : Session) → Stays st → Open (core s) → GoesTo (core s) (step st s)
unfolding step handle_close
step-Goes (connects w) s k o =
    if_holds (GoesTo (core s)) _ _ _ (new_connection-Goes w s o) (Goes-none (core s) o)
step-Goes (hangs_up upstream) s k o =
    let (es, c) = handle_close s.up.conn in
    quiet-Goes es c s (closed upstream es (with_conn c s)) o
      (handle_close-Carries s.up.conn o.valid_up) (requests-handle_close s.up.conn)
      (closed_up-Goes es (with_conn c s))
step-Goes (hangs_up downstream) s k o = absurd k
step-Goes (data_from p bytes w) s k o =
    if_holds (GoesTo (core s)) _ _ _ (deliver-Goes p bytes w s o) (Goes-none (core s) o)
step-Goes (writable p w) s k o =
    call-Goes p (handle_write w (side p s).conn) s o
      (handle_write-Carries w (side p s).conn (side-IsValid p s o))
      (requests-handle_write w (side p s).conn)
step-Goes runs_functor s k o =
    subst (Goes (core s) []) (sym (core-run_notice s.queued s)) (Goes-none (core s) o)

run-Goes :
    (steps : List Step) (s : Session)
    → All Stays steps
    → Open (core s)
    → GoesTo (core s) (run steps s)
unfolding run
run-Goes [] s k o = Goes-none (core s) o
run-Goes (st ∷ steps) s k o =
    let (es, t) = step st s in
    let h = step-Goes st s k.0 o in
    Goes-then (core s) (core t) (core (run steps t).1) es (run steps t).0 h
      (run-Goes steps t k.1 h.opened)

-- What waits for a peer: its output buffer, and behind it what the session keeps.
abbrev pub waiting : Peer → Session → List ℕ
waiting upstream s = contents s.up.conn.output_buffer ++ s.pending_up
waiting downstream s = contents s.down.conn.output_buffer

Passes-stream :
    (p : Peer) (a b : Line) (es : List Event)
    → Passes p a es b
    → DropsNothing (effects p es)
    → writes (effects p es) ++ (contents b.0 ++ b.1)
      ≡ (contents a.0 ++ a.1) ++ bytes_from (other p) es
Passes-stream p a b es h k =
    sym (append_assoc (writes (effects p es)) (contents b.0) b.1)
    ∙ ap (λ l. l ++ b.1) (h.carries.stream k)
    ∙ append_assoc (contents a.0) (requests (effects p es)) b.1
    ∙ ap (λ l. contents a.0 ++ l) h.relays
    ∙ sym (append_assoc (contents a.0) a.1 (bytes_from (other p) es))

start-Open :
    (up down : Connection)
    → IsValid up.output_buffer
    → IsValid down.output_buffer
    → Open (core (start up down))
unfolding start
start-Open up down v w = record {
  valid_up = v;
  valid_down = w;
  flushed = λ h. absurd (ground arith);
  down_held = refl;
  alive = refl;
}

-- From the start on, with two connections whose output buffers are empty and have their cursors in
-- order, as long as the downstream connection stays, and if the connection to a peer drops nothing:
-- what the kernel took for this peer, followed by what waits for it, is all that came from the
-- other one, in order and once, whatever is sent, refused, connected or hung up between.
pub run-start_forwards :
    (p : Peer) (steps : List Step) (up down : Connection)
    → IsValid up.output_buffer
    → IsValid down.output_buffer
    → contents up.output_buffer ≡ []
    → contents down.output_buffer ≡ []
    → All Stays steps
    → DropsNothing (effects p (run steps (start up down)).0)
    → writes (effects p (run steps (start up down)).0) ++ waiting p (run steps (start up down)).1
      ≡ bytes_from (other p) (run steps (start up down)).0
unfolding start
run-start_forwards upstream steps up down v w none_up none_down k drops =
    let r = run steps (start up down) in
    let h = (run-Goes steps (start up down) k (start-Open up down v w)).both.to_up in
    Passes-stream upstream _ _ r.0 h drops
    ∙ ap (λ l. (l ++ []) ++ bytes_from downstream r.0) none_up
run-start_forwards downstream steps up down v w none_up none_down k drops =
    let r = run steps (start up down) in
    let h = (run-Goes steps (start up down) k (start-Open up down v w)).both.to_down in
    ap (λ l. writes (effects downstream r.0) ++ l) (sym (append-nil _))
    ∙ Passes-stream downstream _ _ r.0 h drops
    ∙ ap (λ l. (l ++ []) ++ bytes_from upstream r.0) none_down
