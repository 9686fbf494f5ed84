-- ===== src/Proxy/Flow/Running.antt =====
-- The flow control of the session, over every sequence of steps without a hang-up.
use mini_reactor.Base.{
  ◌<◌, ◌≡◌, ◌⊎◌, refl, sym, subst, inl, inr, Bool, true, false, not, ◌&&◌, List, [], ◌∷◌, All,
  if_holds, arith,
}
use mini_reactor.Net.Connection.{Connection}
use mini_reactor.Proxy.{
  upstream, downstream, Side, Session, k_proxy_high_water_mark, Step, connects, hangs_up, data_from,
  writable, runs_functor, is_connecting, run_notice, step, run, start,
}
use mini_reactor.Proxy.Flow.{backlog}
use mini_reactor.Proxy.Flow.Links.{Link}
use mini_reactor.Proxy.Flow.Calls.{has}
use mini_reactor.Proxy.Flow.Steps.{Lasts, step-Joined}
use mini_reactor.Proxy.Flow.Before.{
  IsIdle, Before, Phase, PhaseTo, new_connection-Joined, write-Before, deliver-Before,
}

step-Phase : (st : Step) (s : Session) → Lasts st → Phase s → PhaseTo (step st s)
unfolding step
step-Phase st s k (inr j) = inr (step-Joined st s k j)
step-Phase (connects w) s k (inl b) =
    if_holds PhaseTo (is_connecting s.up.conn.state && not s.tearing_down) _ _
      (inr (new_connection-Joined w s b)) (inl b)
step-Phase (hangs_up p) s k (inl b) = absurd k
step-Phase (data_from p bytes w) s k (inl b) = deliver-Before p bytes w s b
step-Phase (writable p w) s k (inl b) = inl (write-Before p w s b)
step-Phase runs_functor s k (inl b) = inl (subst (λ l. Before (run_notice l s)) (sym b.none) b)

run-Phase : (steps : List Step) (s : Session) → All Lasts steps → Phase s → PhaseTo (run steps s)
unfolding run
run-Phase [] s k h = h
run-Phase (st ∷ steps) s k h = run-Phase steps (step st s).1 k.1 (step-Phase st s k.0 h)

-- The flow control of one direction holds at last.
pub record IsControlled (sink source : Side) (noticed : Bool) : Type 0 where
  pub bounded : source.conn.channel.reading ≡ true → backlog sink.conn < k_proxy_high_water_mark
  pub resumes :
      source.conn.channel.reading ≡ false
      → ((0 < backlog sink.conn) × (sink.conn.channel.writing ≡ true)) ⊎ (noticed ≡ true)

Link-IsControlled : (x y : Side) (n : Bool) → Link x y n → IsControlled x y n
Link-IsControlled x y n l = record {
  bounded = λ h. below l.bounded l.gate h;
  resumes = λ h. elim (l.paused (ground arith)) [
    | inl some ↦ elim l.watched.waits [
      | inl none ↦ absurd (omega (arith, none))
      | inr asks ↦ inl (some, asks)
    ]
    | inr e ↦ inr e
  ];
}
  where
    below :
        (backlog x.conn < k_proxy_high_water_mark) ⊎ (y.read_paused ≡ true)
        → y.conn.channel.reading ≡ not y.read_paused
        → y.conn.channel.reading ≡ true
        → backlog x.conn < k_proxy_high_water_mark
    below (inl k) g h = k
    below (inr k) g h = absurd (ground arith)

start-Before :
    (up down : Connection)
    → IsIdle up
    → IsIdle down
    → up.channel.reading ≡ false
    → down.channel.reading ≡ true
    → Before (start up down)
unfolding start
start-Before up down i k u r = record {
  alive = refl;
  absent = refl;
  present = refl;
  none = refl;
  up_open = refl;
  down_open = refl;
  up_idle = i;
  down_idle = record { valid = k.valid; empty = k.empty; silent = k.silent };
  watched = record {
    valid = k.valid;
    mark = refl;
    on_high = refl;
    on_complete = refl;
    waits = inl k.empty;
  };
  unread = u;
  read = r;
}

abbrev pub BothAreControlled : Session → Type 0
BothAreControlled s =
    IsControlled s.up s.down (has upstream s.queued)
    × IsControlled s.down s.up (has downstream s.queued)

-- From the start on, with two connections that nothing was sent to, of which the downstream one is
-- read and the other not yet, and as long as neither peer hangs up: once the upstream is there,
-- each peer is read only while less than 1 MiB waits for the other one, and reading it stops only
-- while bytes wait for the other one and EPOLLOUT is asked for them, or a notice of its empty
-- buffer is queued in the loop, whatever is received, accepted or refused.
pub run-start_controls :
    (steps : List Step) (up down : Connection)
    → IsIdle up
    → IsIdle down
    → up.channel.reading ≡ false
    → down.channel.reading ≡ true
    → All Lasts steps
    → (run steps (start up down)).1.up.held ≡ true
    → BothAreControlled (run steps (start up down)).1
run-start_controls steps up down i k u r lasts held =
    elim (run-Phase steps (start up down) lasts (inl (start-Before up down i k u r))) [
      | inl b ↦ absurd (there b.absent held)
      | inr j ↦ (Link-IsControlled _ _ _ j.to_up, Link-IsControlled _ _ _ j.to_down)
    ]
  where
    there :
        (run steps (start up down)).1.up.held ≡ false
        → (run steps (start up down)).1.up.held ≡ true
        → ⊥
    there h e = ground arith
