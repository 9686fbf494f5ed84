-- ===== src/Proxy/Streams/Calls.antt =====
-- The calls of the session, as steps of the two streams.
use mini_reactor.Base.{
  ℕ, ◌≡◌, refl, sym, ap, subst, Bool, true, false, not, ◌&&◌, List, [], ◌∷◌, ◌++◌, map, if_holds,
  append-nil,
}
use mini_reactor.Net.Buffer.{Buffer}
use mini_reactor.Net.Buffer.Contents.{IsValid}
use mini_reactor.Net.Connection.{Connection, Effect, WriteResult, send_in_loop}
use mini_reactor.Net.Connection.Stream.{requests, CarriesTo}
use mini_reactor.Net.Connection.Stream.Sending.{send_in_loop-Carries}
use mini_reactor.Proxy.{
  Peer, upstream, downstream, Side, Session, other, side, with_side, Event, did, received, pause,
  resume, on_high_water, on_write_complete, crosses, notices, react, call, send_to, also,
}
use mini_reactor.Proxy.Sending.{requests-send_in_loop}
use mini_reactor.Proxy.Streams.{
  Line, Lines, pair, Both, Both-none, Both-then, Both-call, Both-received,
}

-- What the flow control does not touch.
abbrev pub Core : Type 0
Core = ((Buffer × Bool) × (Buffer × Bool)) × (List ℕ × (Bool × Bool))

abbrev pub kept : Side → Buffer × Bool
kept x = (x.conn.output_buffer, x.held)

abbrev pub core : Session → Core
core s = ((kept s.up, kept s.down), (s.pending_up, (s.up_ready, s.tearing_down)))

kept-pause : (x : Side) → kept (pause x) ≡ kept x
unfolding pause
kept-pause x = if_holds (λ y. kept y ≡ kept x) (x.held && not x.read_paused) _ x refl refl

kept-resume : (x : Side) → kept (resume x) ≡ kept x
unfolding resume
kept-resume x = if_holds (λ y. kept y ≡ kept x) (x.held && x.read_paused) _ x refl refl

core-with_side :
    (p : Peer) (x : Side) (s : Session) → kept x ≡ kept (side p s) → core (with_side p x s) ≡ core s
core-with_side upstream x s h =
    ap (λ k. ((k, kept s.down), (s.pending_up, (s.up_ready, s.tearing_down)))) h
core-with_side downstream x s h =
    ap (λ k. ((kept s.up, k), (s.pending_up, (s.up_ready, s.tearing_down)))) h

core-on_high_water : (p : Peer) (s : Session) → core (on_high_water p s) ≡ core s
unfolding on_high_water
core-on_high_water p s =
    if_holds (λ t. core t ≡ core s) s.tearing_down s _ refl
      (core-with_side (other p) (pause (side (other p) s)) s (kept-pause (side (other p) s)))

pub core-on_write_complete : (p : Peer) (s : Session) → core (on_write_complete p s) ≡ core s
unfolding on_write_complete
core-on_write_complete p s =
    if_holds (λ t. core t ≡ core s) s.tearing_down s _ refl
      (core-with_side (other p) (resume (side (other p) s)) s (kept-resume (side (other p) s)))

pub core-react : (p : Peer) (es : List Effect) (s : Session) → core (react p es s) ≡ core s
unfolding react
core-react p es s =
    if_holds (λ t. core t ≡ core s) (crosses es) _ _
      (core-on_high_water p (record s { queued = s.queued ++ notices p es })) refl

abbrev pub lines : Core → Lines
lines c = ((c.0.0.0, c.1.0), (c.0.1.0, []))

-- The session is not torn down, and keeps no bytes for an upstream that is there.
pub record Open (c : Core) : Type 0 where
  pub valid_up : IsValid c.0.0.0
  pub valid_down : IsValid c.0.1.0
  pub flushed : (c.1.1.0 && c.0.0.1) ≡ true → c.1.0 ≡ []
  pub down_held : c.0.1.1 ≡ true
  pub alive : c.1.1.1 ≡ false

pub record Goes (c : Core) (es : List Event) (c' : Core) : Type 0 where
  pub both : Both (lines c) es (lines c')
  pub opened : Open c'

abbrev pub GoesTo : Core → List Event × Session → Type 0
GoesTo c (es, t) = Goes c es (core t)

pub Goes-none : (c : Core) → Open c → Goes c [] c
Goes-none c o = record { both = Both-none (lines c) o.valid_up o.valid_down; opened = o }

pub Goes-then :
    (a b c : Core) (es fs : List Event) → Goes a es b → Goes b fs c → Goes a (es ++ fs) c
Goes-then a b c es fs h k = record {
  both = Both-then (lines a) (lines b) (lines c) es fs h.both k.both;
  opened = k.opened;
}

-- A call that requests nothing.
pub call-Goes :
    (p : Peer) (r : List Effect × Connection) (s : Session)
    → Open (core s)
    → CarriesTo (side p s).conn.output_buffer r
    → requests r.0 ≡ []
    → GoesTo (core s) (call p r s)
unfolding call
call-Goes upstream r s o h k =
    subst (Goes (core s) (map (did upstream) r.0))
      (sym (core-react upstream r.0 (with_side upstream (record (s.up) { conn = r.1 }) s)))
      (record {
        both =
            Both-call upstream s.up.conn.output_buffer r.1.output_buffer [] s.pending_up _ r.0 h k
              o.valid_down;
        opened = record {
          valid_up = h.valid;
          valid_down = o.valid_down;
          flushed = o.flushed;
          down_held = o.down_held;
          alive = o.alive;
        };
      })
call-Goes downstream r s o h k =
    subst (Goes (core s) (map (did downstream) r.0))
      (sym (core-react downstream r.0 (with_side downstream (record (s.down) { conn = r.1 }) s)))
      (record {
        both =
            Both-call downstream s.down.conn.output_buffer r.1.output_buffer [] [] _ r.0 h k
              o.valid_up;
        opened = record {
          valid_up = o.valid_up;
          valid_down = h.valid;
          flushed = o.flushed;
          down_held = o.down_held;
          alive = o.alive;
        };
      })

-- Sending all that is kept for the peer.
pub Both-send :
    (p : Peer) (asked : List ℕ) (w : WriteResult) (c : Connection) (l : Line)
    → IsValid c.output_buffer
    → IsValid l.0
    → Both
        (pair p (c.output_buffer, asked) l)
        (map (did p) (send_in_loop asked w c).0)
        (pair p ((send_in_loop asked w c).1.output_buffer, []) l)
Both-send p asked w c l v k =
    subst
      (λ a.
        Both (pair p (c.output_buffer, a) l) (map (did p) (send_in_loop asked w c).0)
          (pair p ((send_in_loop asked w c).1.output_buffer, []) l))
      (append-nil asked)
      (Both-call p c.output_buffer (send_in_loop asked w c).1.output_buffer asked [] l
        (send_in_loop asked w c).0 (send_in_loop-Carries asked w c v)
        (requests-send_in_loop asked w c) k)

-- Sending to the upstream what was kept for it, `bytes` with it.
pub send_up-Goes :
    (bytes : List ℕ) (w : WriteResult) (s : Session)
    → Open (core s)
    → s.pending_up ≡ []
    → GoesTo (core s) (also (received downstream bytes ∷ []) (send_to upstream bytes w s))
unfolding send_to call
send_up-Goes bytes w s o none =
    let (es, c) = send_in_loop bytes w s.up.conn in
    subst (Goes (core s) (received downstream bytes ∷ map (did upstream) es))
      (sym (core-react upstream es (with_side upstream (record (s.up) { conn = c }) s)))
      (record {
        both = rw none (
            Both-then _ _ _ (received downstream bytes ∷ []) (map (did upstream) es)
              (Both-received upstream s.up.conn.output_buffer [] bytes _ o.valid_up o.valid_down)
              (Both-send upstream bytes w s.up.conn _ o.valid_up o.valid_down));
        opened = record {
          valid_up = (send_in_loop-Carries bytes w s.up.conn o.valid_up).valid;
          valid_down = o.valid_down;
          flushed = o.flushed;
          down_held = o.down_held;
          alive = o.alive;
        };
      })

pub send_down-Goes :
    (bytes : List ℕ) (w : WriteResult) (s : Session)
    → Open (core s)
    → GoesTo (core s) (also (received upstream bytes ∷ []) (send_to downstream bytes w s))
unfolding send_to call
send_down-Goes bytes w s o =
    let (es, c) = send_in_loop bytes w s.down.conn in
    subst (Goes (core s) (received upstream bytes ∷ map (did downstream) es))
      (sym (core-react downstream es (with_side downstream (record (s.down) { conn = c }) s)))
      (record {
        both =
            Both-then _ _ _ (received upstream bytes ∷ []) (map (did downstream) es)
              (Both-received downstream s.down.conn.output_buffer [] bytes _ o.valid_down
                o.valid_up)
              (Both-send downstream bytes w s.down.conn _ o.valid_down o.valid_up);
        opened = record {
          valid_up = o.valid_up;
          valid_down = (send_in_loop-Carries bytes w s.down.conn o.valid_down).valid;
          flushed = o.flushed;
          down_held = o.down_held;
          alive = o.alive;
        };
      })
