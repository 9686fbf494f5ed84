-- ===== src/Proxy/Streams/Handlers.antt =====
-- The callbacks of the session, as steps of the two streams.
use mini_reactor.Base.{
  ℕ, ◌==◌, ltb, if◌then◌else◌, ◌≡◌, refl, sym, ap, subst, Bool, true, false, ◌&&◌, List, [], ◌∷◌,
  ◌++◌, map, length, if_holds, if_cases, arith,
}
use mini_reactor.Net.Connection.{
  Connection, Effect, WriteResult, send_in_loop, shutdown, connection_established,
}
use mini_reactor.Net.Connection.Stream.{requests, CarriesTo, Carries-still}
use mini_reactor.Net.Connection.Stream.Sending.{send_in_loop-Carries}
use mini_reactor.Net.Connection.Stream.Running.{shutdown_from-Carries}
use mini_reactor.Proxy.{
  Peer, upstream, downstream, Session, with_side, Event, did, received, install_flow_control, call,
  send_to, also, on_upstream_connected, on_upstream_disconnected, on_downstream_data,
  on_upstream_data, new_connection, deliver, closed,
}
use mini_reactor.Proxy.Sending.{requests-shutdown}
use mini_reactor.Proxy.Streams.{Both-call, Both-received}
use mini_reactor.Proxy.Streams.Calls.{
  core, Open, Goes, GoesTo, Goes-none, Goes-then, call-Goes, send_up-Goes, send_down-Goes,
  core-react, Both-send,
}

none_of : (xs : List ℕ) → ltb 0 (length xs) ≡ false → xs ≡ []
none_of [] h = refl
none_of (x ∷ xs) h = absurd (ground arith)

-- The session with the upstream there.
abbrev joined : Session → Session
joined s = record s { up = install_flow_control (record (s.up) { held = true }); up_ready = true }

-- What was kept is sent, and then kept no more.
send_pending-Goes :
    (w : WriteResult) (s : Session)
    → Open (core s)
    → Goes
        (core s)
        (send_to upstream s.pending_up w (joined s)).0
        (core (record ((send_to upstream s.pending_up w (joined s)).1) { pending_up = [] }))
unfolding send_to call
send_pending-Goes w s o =
    let (es, c) = send_in_loop s.pending_up w (joined s).up.conn in
    subst (Goes (core s) (map (did upstream) es))
      (ap (λ k. (k.0, ([], k.1.1)))
        (sym (
          core-react upstream es
            (with_side upstream (record ((joined s).up) { conn = c }) (joined s)))))
      (record {
        both = Both-send upstream s.pending_up w (joined s).up.conn _ o.valid_up o.valid_down;
        opened = record {
          valid_up = (send_in_loop-Carries s.pending_up w (joined s).up.conn o.valid_up).valid;
          valid_down = o.valid_down;
          flushed = λ h. refl;
          down_held = o.down_held;
          alive = o.alive;
        };
      })

on_upstream_connected-Goes :
    (w : WriteResult) (s : Session) → Open (core s) → GoesTo (core s) (on_upstream_connected w s)
unfolding on_upstream_connected
on_upstream_connected-Goes w s o =
    if_holds (GoesTo (core s)) s.tearing_down ([], s) _ (Goes-none (core s) o)
      (if_cases (GoesTo (core s)) (ltb 0 (length s.pending_up)) _ ([], joined s)
        (λ kept. send_pending-Goes w s o)
        (λ none. record {
          both = (Goes-none (core s) o).both;
          opened = record {
            valid_up = o.valid_up;
            valid_down = o.valid_down;
            flushed = λ h. none_of s.pending_up none;
            down_held = o.down_held;
            alive = o.alive;
          };
        }))

abbrev pub with_conn : Connection → Session → Session
with_conn c s = record s { up = record (s.up) { conn = c } }

-- Effects of the connection to the upstream that move no bytes, before what follows.
pub quiet-Goes :
    (es : List Effect) (c : Connection) (s : Session) (next : List Event × Session)
    → Open (core s)
    → CarriesTo s.up.conn.output_buffer (es, c)
    → requests es ≡ []
    → (Open (core (with_conn c s)) → GoesTo (core (with_conn c s)) next)
    → GoesTo (core s) (also (map (did upstream) es) next)
quiet-Goes es c s next o h k go =
    let o' : Open (core (with_conn c s)) = record {
      valid_up = h.valid;
      valid_down = o.valid_down;
      flushed = o.flushed;
      down_held = o.down_held;
      alive = o.alive;
    } in
    Goes-then (core s) (core (with_conn c s)) (core next.1) (map (did upstream) es) next.0
      (record {
        both =
            Both-call upstream s.up.conn.output_buffer c.output_buffer [] s.pending_up _ es h k
              o.valid_down;
        opened = o';
      })
      (go o')

pub new_connection-Goes :
    (w : WriteResult) (s : Session) → Open (core s) → GoesTo (core s) (new_connection w s)
unfolding new_connection connection_established
new_connection-Goes w s o =
    let (es, c) = connection_established s.up.conn in
    quiet-Goes es c s (on_upstream_connected w (with_conn c s)) o
      (Carries-still s.up.conn.output_buffer es o.valid_up ((refl, refl), tt)) refl
      (on_upstream_connected-Goes w (with_conn c s))

on_upstream_disconnected-Goes :
    (s : Session) → Open (core s) → GoesTo (core s) (on_upstream_disconnected s)
unfolding on_upstream_disconnected shutdown
on_upstream_disconnected-Goes s o =
    if_holds (GoesTo (core s)) s.tearing_down ([], s) _ (Goes-none (core s) o)
      (if_holds (GoesTo (core s)) s.down.held _ ([], left)
        (Goes-then (core s) (core left) (core shut.1) [] shut.0 gone (
          call-Goes downstream (shutdown s.down.conn) left gone.opened
            (shutdown_from-Carries s.down.conn.state s.down.conn o.valid_down)
            (requests-shutdown s.down.conn)))
        gone)
  where
    left : Session
    left = record s { up = record (s.up) { held = false }; up_ready = false }

    shut : List Event × Session
    shut = call downstream (shutdown s.down.conn) left

    gone : Goes (core s) [] (core left)
    gone = record {
      both = (Goes-none (core s) o).both;
      opened = record {
        valid_up = o.valid_up;
        valid_down = o.valid_down;
        flushed = λ h. absurd (ground arith);
        down_held = o.down_held;
        alive = o.alive;
      };
    }

pub closed_up-Goes :
    (es : List Effect) (s : Session) → Open (core s) → GoesTo (core s) (closed upstream es s)
closed_up-Goes [] s o = Goes-none (core s) o
closed_up-Goes (e ∷ es) s o = on_upstream_disconnected-Goes s o

on_downstream_data-Goes :
    (bytes : List ℕ) (w : WriteResult) (s : Session)
    → Open (core s)
    → GoesTo (core s) (on_downstream_data bytes w s)
unfolding on_downstream_data
on_downstream_data-Goes bytes w s o =
    if_cases (GoesTo (core s)) s.tearing_down _ _ (λ gone. absurd (ground arith))
      (λ alive.
        if_holds (GoesTo (core s)) (length bytes == 0) ([], s) _ (Goes-none (core s) o)
          (forward (s.up_ready && s.up.held) refl))
  where
    kept : List Event × Session
    kept = ([], record s { pending_up = s.pending_up ++ bytes })

    forward :
        (b : Bool)
        → (s.up_ready && s.up.held) ≡ b
        → GoesTo
            (core s)
            (also (received downstream bytes ∷ []) (if b then send_to upstream bytes w s else kept))
    forward true there = send_up-Goes bytes w s o (o.flushed there)
    forward false away = record {
      both =
          Both-received upstream s.up.conn.output_buffer s.pending_up bytes _ o.valid_up
            o.valid_down;
      opened = record {
        valid_up = o.valid_up;
        valid_down = o.valid_down;
        flushed = λ h. absurd (ground arith);
        down_held = o.down_held;
        alive = o.alive;
      };
    }

on_upstream_data-Goes :
    (bytes : List ℕ) (w : WriteResult) (s : Session)
    → Open (core s)
    → GoesTo (core s) (on_upstream_data bytes w s)
unfolding on_upstream_data
on_upstream_data-Goes bytes w s o =
    if_cases (GoesTo (core s)) s.tearing_down _ _ (λ gone. absurd (ground arith))
      (λ alive.
        if_holds (GoesTo (core s)) (length bytes == 0) ([], s) _ (Goes-none (core s) o)
          (if_cases (GoesTo (core s)) s.down.held _ _ (λ held. send_down-Goes bytes w s o)
            (λ away. absurd (ground arith))))

pub deliver-Goes :
    (p : Peer) (bytes : List ℕ) (w : WriteResult) (s : Session)
    → Open (core s)
    → GoesTo (core s) (deliver p bytes w s)
deliver-Goes upstream bytes w s o = on_upstream_data-Goes bytes w s o
deliver-Goes downstream bytes w s o = on_downstream_data-Goes bytes w s o
