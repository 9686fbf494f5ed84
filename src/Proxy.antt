-- ===== src/Proxy.antt =====
-- The proxy: include/reactor/proxy/ProxySession.h and src/proxy/ProxySession.cpp, over the model of a
-- connection. Each step is one call in the loop's thread; a functor of the loop that waits is a
-- member of `queued`.
pub mod Sending
pub mod Streams
pub mod Flow
mod Examples
use mini_reactor.Base.{
  ℕ, ◌^◌, ltb, ◌==◌, if◌then◌else◌, Bool, true, false, not, ◌&&◌, List, [], ◌∷◌, ◌++◌, map, length,
}
use mini_reactor.Net.Buffer.{readable_bytes}
use mini_reactor.Net.Channel.{set_events, enable_reading, disable_reading}
use mini_reactor.Net.Connection.{
  StateE, connecting, Connection, Effect, requested, written, dropped, queue_write_complete,
  high_water, shutdown_write, connection_callback, close_callback, message_callback, close_fd,
  WriteResult, send_in_loop, handle_write, handle_close, shutdown, connection_established,
}

pub data Peer : Type 0 where
  upstream downstream : Peer

-- One of the two connections: the connection, whether the session has its pointer, and its flag of
-- the flow control.
pub record Side : Type 0 where
  pub conn : Connection
  pub held : Bool
  pub read_paused : Bool

-- `queued` has the notices of an empty output buffer that the loop still has to run.
pub record Session : Type 0 where
  pub up : Side
  pub down : Side
  pub pending_up : List ℕ
  pub up_ready : Bool
  pub tearing_down : Bool
  pub queued : List Peer

abbrev pub k_proxy_high_water_mark : ℕ
k_proxy_high_water_mark = 1048576

abbrev pub other : Peer → Peer
other upstream = downstream
other downstream = upstream

abbrev pub side : Peer → Session → Side
side upstream s = s.up
side downstream s = s.down

abbrev pub with_side : Peer → Side → Session → Session
with_side upstream x s = record s { up = x }
with_side downstream x s = record s { down = x }

-- What the session did and took.
pub data Event : Type 0 where
  did : Peer → Effect → Event
  received discarded : Peer → List ℕ → Event

abbrev pub install_flow_control : Side → Side
install_flow_control x = record x {
  conn = record (x.conn) {
    high_water_mark = k_proxy_high_water_mark;
    high_water_mark_callback = true;
    write_complete_callback = true;
  };
}

unfoldable pub pause : Side → Side
unfolding set_events
pause x =
    if x.held && not x.read_paused
    then record x {
      conn = record (x.conn) { channel = set_events disable_reading x.conn.channel };
      read_paused = true;
    }
    else x

unfoldable pub resume : Side → Side
unfolding set_events
resume x =
    if x.held && x.read_paused
    then record x {
      conn = record (x.conn) { channel = set_events enable_reading x.conn.channel };
      read_paused = false;
    }
    else x

-- The callbacks of the connection to `p`, which act on the other one.
unfoldable pub on_high_water : Peer → Session → Session
unfolding pause
on_high_water p s = if s.tearing_down then s else with_side (other p) (pause (side (other p) s)) s

unfoldable pub on_write_complete : Peer → Session → Session
unfolding resume
on_write_complete p s =
    if s.tearing_down then s else with_side (other p) (resume (side (other p) s)) s

abbrev pub is_high_water : Effect → Bool
is_high_water (high_water n) = true
is_high_water _ = false

-- Whether the high-water callback is called; one call of the connection does so once at most.
abbrev pub crosses : List Effect → Bool
crosses [] = false
crosses (e ∷ es) = if is_high_water e then true else crosses es

abbrev pub is_complete : Effect → Bool
is_complete queue_write_complete = true
is_complete _ = false

abbrev pub notices : Peer → List Effect → List Peer
notices p [] = []
notices p (e ∷ es) = if is_complete e then p ∷ notices p es else notices p es

-- The callbacks that a call of the connection to `p` makes, or queues.
unfoldable pub react : Peer → List Effect → Session → Session
unfolding on_high_water
react p es s =
    let s' : Session = record s { queued = s.queued ++ notices p es } in
    if crosses es then on_high_water p s' else s'

-- A call of the connection to `p`, and what follows.
unfoldable pub call : Peer → List Effect × Connection → Session → List Event × Session
unfolding react
call p (es, c) s = (map (did p) es, react p es (with_side p (record (side p s) { conn = c }) s))

unfoldable pub send_to : Peer → List ℕ → WriteResult → Session → List Event × Session
unfolding call send_in_loop
send_to p bytes w s = call p (send_in_loop bytes w (side p s).conn) s

abbrev pub also : List Event → List Event × Session → List Event × Session
also es (fs, s) = (es ++ fs, s)

-- `Start`: the downstream connection is there, and the connector is started.
unfoldable pub start : Connection → Connection → Session
start up down = record {
  up = record { conn = up; held = false; read_paused = false };
  down = install_flow_control (record { conn = down; held = true; read_paused = false });
  pending_up = [];
  up_ready = false;
  tearing_down = false;
  queued = [];
}

-- The part of `OnUpstreamConnection` for a connection that is up.
unfoldable pub on_upstream_connected : WriteResult → Session → List Event × Session
unfolding send_to
on_upstream_connected w s =
    let s' : Session = record s {
      up = install_flow_control (record (s.up) { held = true });
      up_ready = true;
    } in
    if s.tearing_down
    then ([], s)
    else if ltb 0 (length s.pending_up)
    then (let (es, t) = send_to upstream s.pending_up w s' in (es, record t { pending_up = [] }))
    else ([], s')

-- The part for one that is down.
unfoldable pub on_upstream_disconnected : Session → List Event × Session
unfolding call shutdown
on_upstream_disconnected s =
    let s' : Session = record s { up = record (s.up) { held = false }; up_ready = false } in
    if s.tearing_down
    then ([], s)
    else if s.down.held
    then call downstream (shutdown s.down.conn) s'
    else ([], s')

-- The bytes of the buffer, which is empty afterwards.
unfoldable pub on_downstream_data : List ℕ → WriteResult → Session → List Event × Session
unfolding send_to
on_downstream_data bytes w s =
    if s.tearing_down
    then (discarded downstream bytes ∷ [], s)
    else if length bytes == 0
    then ([], s)
    else also (received downstream bytes ∷ []) (
        if s.up_ready && s.up.held
        then send_to upstream bytes w s
        else ([], record s { pending_up = s.pending_up ++ bytes }))

unfoldable pub on_upstream_data : List ℕ → WriteResult → Session → List Event × Session
unfolding send_to
on_upstream_data bytes w s =
    if s.tearing_down
    then (discarded upstream bytes ∷ [], s)
    else if length bytes == 0
    then ([], s)
    else if s.down.held
    then also (received upstream bytes ∷ []) (send_to downstream bytes w s)
    else (discarded upstream bytes ∷ [], s)

-- `client_->Disconnect()` shuts the upstream connection down, if there is one.
abbrev pub disconnect_client : Session → List Event × Session
disconnect_client s = if s.up.held then call upstream (shutdown s.up.conn) s else ([], s)

abbrev pub dropped_pointers : Session → Session
dropped_pointers s = record s {
  up = record (s.up) { held = false; read_paused = false };
  down = record (s.down) { held = false; read_paused = false };
  pending_up = [];
  up_ready = false;
}

unfoldable pub teardown : Session → List Event × Session
unfolding call shutdown
teardown s =
    let (es, t) = disconnect_client (record s { tearing_down = true }) in
    if s.tearing_down then ([], s) else (es, dropped_pointers t)

-- What the loop's thread does. Bytes come in while the connection reads; the functors run in order.
pub data Step : Type 0 where
  connects : WriteResult → Step
  hangs_up : Peer → Step
  data_from : Peer → List ℕ → WriteResult → Step
  writable : Peer → WriteResult → Step
  runs_functor : Step

abbrev pub deliver : Peer → List ℕ → WriteResult → Session → List Event × Session
deliver downstream bytes w s = on_downstream_data bytes w s
deliver upstream bytes w s = on_upstream_data bytes w s

-- The close callback, if the connection calls it.
abbrev pub closed : Peer → List Effect → Session → List Event × Session
closed p [] s = ([], s)
closed upstream (e ∷ es) s = on_upstream_disconnected s
closed downstream (e ∷ es) s = teardown s

abbrev pub run_notice : List Peer → Session → Session
run_notice [] s = s
run_notice (p ∷ rest) s =
    let s' : Session = record s { queued = rest } in
    let c = (side p s).conn in
    if readable_bytes c.output_buffer == 0 && c.write_complete_callback
    then on_write_complete p s'
    else s'

abbrev pub is_connecting : StateE → Bool
is_connecting connecting = true
is_connecting _ = false

unfoldable pub new_connection : WriteResult → Session → List Event × Session
unfolding connection_established on_upstream_connected
new_connection w s =
    let (es, c) = connection_established s.up.conn in
    also (map (did upstream) es)
      (on_upstream_connected w (record s { up = record (s.up) { conn = c } }))

-- A client that was stopped connects no more, and one that connected does not do so again.
unfoldable pub step : Step → Session → List Event × Session
unfolding new_connection handle_close handle_write call on_downstream_data on_upstream_data
    on_upstream_disconnected teardown on_write_complete
step (connects w) s =
    if is_connecting s.up.conn.state && not s.tearing_down then new_connection w s else ([], s)
step (hangs_up p) s =
    let (es, c) = handle_close (side p s).conn in
    let s' = with_side p (record (side p s) { conn = c }) s in
    also (map (did p) es) (closed p es s')
step (data_from p bytes w) s =
    if (side p s).conn.channel.reading then deliver p bytes w s else ([], s)
step (writable p w) s = call p (handle_write w (side p s).conn) s
step runs_functor s = ([], run_notice s.queued s)

unfoldable pub run : List Step → Session → List Event × Session
unfolding step
run [] s = ([], s)
run (st ∷ steps) s = let (es, t) = step st s in also es (run steps t)
