-- ===== src/Proxy/Flow/Steps.antt =====
-- The flow control over the steps of the session once the upstream is there.
use mini_reactor.Base.{
  ℕ, ◌<◌, ◌==◌, ◌≡◌, ◌⊎◌, refl, ap, ◌∙◌, subst, inl, inr, Bool, true, false, not, ◌&&◌, List, [],
  ◌∷◌, ◌++◌, length, if_holds, if_cases, arith, if◌then◌else◌,
}
use mini_reactor.Net.Buffer.{readable_bytes}
use mini_reactor.Net.Connection.{Connection, WriteResult, send_in_loop, handle_write}
use mini_reactor.Proxy.{
  Peer, upstream, downstream, Side, Session, side, Event, resume, on_write_complete, call, send_to,
  on_downstream_data, on_upstream_data, Step, connects, hangs_up, data_from, writable, runs_functor,
  is_connecting, deliver, run_notice, step,
}
use mini_reactor.Proxy.Flow.{backlog, IsWatched}
use mini_reactor.Proxy.Flow.Telling.{send_in_loop-Tells, handle_write-Tells}
use mini_reactor.Proxy.Flow.Links.{Link, resume_as_sink, resume_source}
use mini_reactor.Proxy.Flow.Calls.{has, Joined, call-Joined}

abbrev pub JoinedTo : List Event × Session → Type 0
JoinedTo (es, s) = Joined s

pub send_to-Joined :
    (p : Peer) (bytes : List ℕ) (w : WriteResult) (s : Session)
    → Joined s
    → Joined (send_to p bytes w s).1
unfolding send_to
send_to-Joined upstream bytes w s j =
    call-Joined upstream (send_in_loop bytes w s.up.conn) s j
      (send_in_loop-Tells bytes w s.up.conn j.to_up.watched)
send_to-Joined downstream bytes w s j =
    call-Joined downstream (send_in_loop bytes w s.down.conn) s j
      (send_in_loop-Tells bytes w s.down.conn j.to_down.watched)

-- The fields of the forwarded bytes do not matter.
pub Joined-pending : (l : List ℕ) (s : Session) → Joined s → Joined (record s { pending_up = l })
Joined-pending l s j = record {
  alive = j.alive;
  there = j.there;
  to_up = j.to_up;
  to_down = j.to_down;
}

on_downstream_data-Joined :
    (bytes : List ℕ) (w : WriteResult) (s : Session)
    → Joined s
    → JoinedTo (on_downstream_data bytes w s)
unfolding on_downstream_data
on_downstream_data-Joined bytes w s j =
    if_holds JoinedTo s.tearing_down _ _ j
      (if_holds JoinedTo (length bytes == 0) ([], s) _ j (forward (s.up_ready && s.up.held)))
  where
    kept : List Event × Session
    kept = ([], record s { pending_up = s.pending_up ++ bytes })

    forward : (b : Bool) → Joined (if b then send_to upstream bytes w s else kept).1
    forward true = send_to-Joined upstream bytes w s j
    forward false = Joined-pending _ s j

on_upstream_data-Joined :
    (bytes : List ℕ) (w : WriteResult) (s : Session)
    → Joined s
    → JoinedTo (on_upstream_data bytes w s)
unfolding on_upstream_data
on_upstream_data-Joined bytes w s j = if_holds JoinedTo s.tearing_down _ _ j (
    if_holds JoinedTo (length bytes == 0) ([], s) _ j
      (if_holds JoinedTo s.down.held _ _ (send_to-Joined downstream bytes w s j) j))

deliver-Joined :
    (p : Peer) (bytes : List ℕ) (w : WriteResult) (s : Session)
    → Joined s
    → JoinedTo (deliver p bytes w s)
deliver-Joined upstream bytes w s j = on_upstream_data-Joined bytes w s j
deliver-Joined downstream bytes w s j = on_downstream_data-Joined bytes w s j

write-Joined :
    (p : Peer) (w : WriteResult) (s : Session)
    → Joined s
    → Joined (call p (handle_write w (side p s).conn) s).1
write-Joined upstream w s j =
    call-Joined upstream (handle_write w s.up.conn) s j
      (handle_write-Tells w s.up.conn j.to_up.watched)
write-Joined downstream w s j =
    call-Joined downstream (handle_write w s.down.conn) s j
      (handle_write-Tells w s.down.conn j.to_down.watched)

-- A notice in front of the queue has been taken from it.
Link-queue :
    (x y : Side) (n n' : Bool)
    → Link x y n
    → (n ≡ true → (0 < backlog x.conn) ⊎ (n' ≡ true))
    → Link x y n'
Link-queue x y n n' l h = record {
  watched = l.watched;
  held = l.held;
  paused = λ k. elim (l.paused k) [ inl some ↦ inl some | inr e ↦ h e ];
  bounded = l.bounded;
  gate = l.gate;
}

some_waits :
    (c : Connection)
    → IsWatched c
    → (readable_bytes c.output_buffer == 0 && c.write_complete_callback) ≡ false
    → 0 < backlog c
some_waits c w h = both w.on_complete h
  where
    both :
        c.write_complete_callback ≡ true
        → (readable_bytes c.output_buffer == 0 && c.write_complete_callback) ≡ false
        → 0 < backlog c
    both k h = ground arith

none_waits : (c : Connection) (b : Bool) → (backlog c == 0 && b) ≡ true → backlog c ≡ 0
none_waits c b h = ground arith

resume-state : (x : Side) → (resume x).conn.state ≡ x.conn.state
unfolding resume
resume-state x =
    if_holds (λ (y : Side). y.conn.state ≡ x.conn.state) (x.held && x.read_paused) _ x refl refl

run_notice-Joined :
    (l : List Peer) (s : Session) → s.queued ≡ l → Joined s → Joined (run_notice l s)
unfolding on_write_complete
run_notice-Joined [] s e j = j
run_notice-Joined (upstream ∷ rest) s e j =
    let to_up = subst (λ q. Link s.up s.down (has upstream q)) e j.to_up in
    let to_down = subst (λ q. Link s.down s.up (has downstream q)) e j.to_down in
    if_cases Joined
      (readable_bytes s.up.conn.output_buffer == 0 && s.up.conn.write_complete_callback) _ _
      (λ done.
        if_cases Joined s.tearing_down _ _ (λ k. absurd (ground arith))
          (λ k. record {
            alive = j.alive;
            there = j.there;
            to_up =
                resume_source s.up s.down true (has upstream rest) to_up
                  (none_waits s.up.conn _ done);
            to_down = resume_as_sink s.down s.up (has downstream rest) to_down;
          }))
      (λ waits. record {
        alive = j.alive;
        there = j.there;
        to_up =
            Link-queue s.up s.down true (has upstream rest) to_up
              (λ k. inl (some_waits s.up.conn j.to_up.watched waits));
        to_down = to_down;
      })
run_notice-Joined (downstream ∷ rest) s e j =
    let to_up = subst (λ q. Link s.up s.down (has upstream q)) e j.to_up in
    let to_down = subst (λ q. Link s.down s.up (has downstream q)) e j.to_down in
    if_cases Joined
      (readable_bytes s.down.conn.output_buffer == 0 && s.down.conn.write_complete_callback) _ _
      (λ done.
        if_cases Joined s.tearing_down _ _ (λ k. absurd (ground arith))
          (λ k. record {
            alive = j.alive;
            there = ap is_connecting (resume-state s.up) ∙ j.there;
            to_up = resume_as_sink s.up s.down (has upstream rest) to_up;
            to_down =
                resume_source s.down s.up true (has downstream rest) to_down
                  (none_waits s.down.conn _ done);
          }))
      (λ waits. record {
        alive = j.alive;
        there = j.there;
        to_up = to_up;
        to_down =
            Link-queue s.down s.up true (has downstream rest) to_down
              (λ k. inl (some_waits s.down.conn j.to_down.watched waits));
      })

-- No peer hangs up.
abbrev pub Lasts : Step → Type 0
Lasts (hangs_up p) = ⊥
Lasts _ = Unit

pub step-Joined : (st : Step) (s : Session) → Lasts st → Joined s → JoinedTo (step st s)
unfolding step
step-Joined (connects w) s k j =
    if_cases JoinedTo (is_connecting s.up.conn.state && not s.tearing_down) _ _
      (λ new. absurd (again j.there new)) (λ old. j)
  where
    again :
        is_connecting s.up.conn.state ≡ false
        → (is_connecting s.up.conn.state && not s.tearing_down) ≡ true
        → ⊥
    again h e = ground arith
step-Joined (hangs_up p) s k j = absurd k
step-Joined (data_from p bytes w) s k j =
    if_holds JoinedTo (side p s).conn.channel.reading _ _ (deliver-Joined p bytes w s j) j
step-Joined (writable p w) s k j = write-Joined p w s j
step-Joined runs_functor s k j = run_notice-Joined s.queued s refl j
