-- ===== src/Proxy/Flow/Before.antt =====
-- The session before the upstream is there.
use mini_reactor.Base.{
  ℕ, ltb, ◌==◌, ◌≡◌, ◌⊎◌, refl, sym, ◌∙◌, subst, inl, Bool, true, false, ◌&&◌, List, [], ◌++◌,
  length, append-nil, if_holds, if_cases, arith, if◌then◌else◌,
}
use mini_reactor.Net.Buffer.Contents.{IsValid}
use mini_reactor.Net.Channel.{set_events}
use mini_reactor.Net.Connection.{
  Connection, WriteResult, handle_write, wrote_result, connection_established,
}
use mini_reactor.Proxy.{
  Peer, upstream, downstream, Session, side, Event, install_flow_control, call, react, send_to,
  on_upstream_connected, on_downstream_data, new_connection, deliver,
}
use mini_reactor.Proxy.Flow.{backlog, IsWatched}
use mini_reactor.Proxy.Flow.Calls.{Joined}
use mini_reactor.Proxy.Flow.Steps.{JoinedTo, Joined-pending, send_to-Joined}

-- A connection that nothing was sent to.
pub record IsIdle (c : Connection) : Type 0 where
  pub valid : IsValid c.output_buffer
  pub empty : backlog c ≡ 0
  pub silent : c.channel.writing ≡ false

-- Before the upstream is there.
pub record Before (s : Session) : Type 0 where
  pub alive : s.tearing_down ≡ false
  pub absent : s.up.held ≡ false
  pub present : s.down.held ≡ true
  pub none : s.queued ≡ []
  pub up_open : s.up.read_paused ≡ false
  pub down_open : s.down.read_paused ≡ false
  pub up_idle : IsIdle s.up.conn
  pub down_idle : IsIdle s.down.conn
  pub watched : IsWatched s.down.conn
  pub unread : s.up.conn.channel.reading ≡ false
  pub read : s.down.conn.channel.reading ≡ true

abbrev pub Phase : Session → Type 0
Phase s = Before s ⊎ Joined s

abbrev pub PhaseTo : List Event × Session → Type 0
PhaseTo (es, s) = Phase s

-- The connection to the upstream, with its flow control.
pub new_connection-Joined :
    (w : WriteResult) (s : Session) → Before s → JoinedTo (new_connection w s)
unfolding new_connection on_upstream_connected connection_established set_events
new_connection-Joined w s b =
    if_cases JoinedTo s.tearing_down _ _ (λ k. absurd (gone b.alive k))
      (λ k.
        if_holds JoinedTo (ltb 0 (length s.pending_up)) _ ([], joined)
          (Joined-pending [] (send_to upstream s.pending_up w joined).1
            (send_to-Joined upstream s.pending_up w joined ready))
          ready)
  where
    gone : s.tearing_down ≡ false → s.tearing_down ≡ true → ⊥
    gone h k = ground arith

    joined : Session
    joined = record s {
      up =
          install_flow_control
            (record (s.up) { conn = (connection_established s.up.conn).1; held = true });
      up_ready = true;
    }

    ready : Joined joined
    ready = record {
      alive = b.alive;
      there = refl;
      to_up = record {
        watched = record {
          valid = b.up_idle.valid;
          mark = refl;
          on_high = refl;
          on_complete = refl;
          waits = inl b.up_idle.empty;
        };
        held = b.present;
        paused = λ k. absurd (ground arith);
        bounded = inl (omega (arith, b.up_idle.empty));
        gate = ground arith;
      };
      to_down = record {
        watched = b.watched;
        held = refl;
        paused = λ k. absurd (ground arith);
        bounded = inl (omega (arith, b.down_idle.empty));
        gate = ground arith;
      };
    }

handle_write_idle :
    (w : WriteResult) (c : Connection) → c.channel.writing ≡ false → handle_write w c ≡ ([], c)
unfolding handle_write
handle_write_idle w c h =
    if_cases (λ r. r ≡ ([], c)) c.channel.writing (wrote_result w c) ([], c)
      (λ k. absurd (ground arith)) (λ k. refl)

-- The same session but for the bytes that it keeps.
Before-same :
    (l : List ℕ) (q : List Peer) (s : Session)
    → q ≡ []
    → Before s
    → Before (record s { pending_up = l; queued = q })
Before-same l q s e b = record {
  alive = b.alive;
  absent = b.absent;
  present = b.present;
  none = e;
  up_open = b.up_open;
  down_open = b.down_open;
  up_idle = b.up_idle;
  down_idle = b.down_idle;
  watched = b.watched;
  unread = b.unread;
  read = b.read;
}

on_downstream_data-Before :
    (bytes : List ℕ) (w : WriteResult) (s : Session)
    → Before s
    → PhaseTo (on_downstream_data bytes w s)
unfolding on_downstream_data
on_downstream_data-Before bytes w s b = if_holds PhaseTo s.tearing_down _ _ (inl b) (
    if_holds PhaseTo (length bytes == 0) ([], s) _ (inl b) (forward (s.up_ready && s.up.held) refl))
  where
    kept : List Event × Session
    kept = ([], record s { pending_up = s.pending_up ++ bytes })

    forward :
        (t : Bool)
        → (s.up_ready && s.up.held) ≡ t
        → Phase (if t then send_to upstream bytes w s else kept).1
    forward true e = absurd (there b.absent e)
      where
        there : s.up.held ≡ false → (s.up_ready && s.up.held) ≡ true → ⊥
        there h k = ground arith
    forward false e = inl (Before-same (s.pending_up ++ bytes) s.queued s b.none b)

pub write-Before :
    (p : Peer) (w : WriteResult) (s : Session)
    → Before s
    → Before (call p (handle_write w (side p s).conn) s).1
unfolding call react
write-Before upstream w s b =
    subst (λ r. Before (call upstream r s).1) (sym (handle_write_idle w s.up.conn b.up_idle.silent))
      (Before-same s.pending_up (s.queued ++ []) s (append-nil s.queued ∙ b.none) b)
write-Before downstream w s b =
    subst (λ r. Before (call downstream r s).1)
      (sym (handle_write_idle w s.down.conn b.down_idle.silent))
      (Before-same s.pending_up (s.queued ++ []) s (append-nil s.queued ∙ b.none) b)

pub deliver-Before :
    (p : Peer) (bytes : List ℕ) (w : WriteResult) (s : Session)
    → Before s
    → PhaseTo (if (side p s).conn.channel.reading then deliver p bytes w s else ([], s))
deliver-Before upstream bytes w s b =
    if_cases PhaseTo s.up.conn.channel.reading _ _ (λ k. absurd (closed b.unread k)) (λ k. inl b)
  where
    closed : s.up.conn.channel.reading ≡ false → s.up.conn.channel.reading ≡ true → ⊥
    closed h k = ground arith
deliver-Before downstream bytes w s b =
    if_holds PhaseTo s.down.conn.channel.reading _ _ (on_downstream_data-Before bytes w s b) (inl b)
