-- ===== src/Net/Connector/Descriptors/Turns.antt =====
-- The turns of a connector: descriptors balance over each.
use mini_reactor.Base.{
  ℕ, ◌+◌, ◌≡◌, refl, ap, ◌∙◌, if◌then◌else◌, if_holds, true, false, List, [], ◌∷◌, Option, none,
  some, arith, inl, inr, subst,
}
use mini_reactor.Net.Connector.{
  State, disconnected, connecting, connected, Connector, Effect, closed, cancel_timer, Outcome,
  no_socket, bad_address, in_progress, again, fatal, also, retry, connect_, is_disconnected,
  start_in_loop, start, drop_connecting, stop_in_loop, stop, reset_if, reset_channel, Step, starts,
  stops, timer, writable, step, turn, run,
}
use mini_reactor.Net.Connector.Descriptors.{
  opens, ends, holds_in, SettledIn, opens-append, ends-append, after, retry-Ends, settle,
  unchanged-Balances, handle_write-Balances, IsSettled, Balances,
}

-- With no reset in the queue the functors change nothing.
keeps_channel : (c : Connector) → c.queued_resets ≡ 0 → reset_channel c ≡ c
unfolding reset_channel
keeps_channel c e = ap (λ n. reset_if n c) e

connect_-Balances :
    (o : Outcome) (fd : ℕ) (c : Connector)
    → IsSettled c
    → c.state ≡ disconnected
    → c.channel ≡ none
    → Balances fd c (after (connect_ o c))
unfolding connect_
connect_-Balances no_socket fd c v idle gone =
    rw (keeps_channel c v.resets) (record { settled = v; balance = omega arith })
connect_-Balances (bad_address x) fd c v idle gone =
    rw (keeps_channel c v.resets) (record { settled = v; balance = omega arith })
connect_-Balances (fatal x) fd c v idle gone =
    rw (keeps_channel c v.resets) (record { settled = v; balance = omega arith })
connect_-Balances (in_progress x) fd c v idle gone =
    rw (keeps_channel (record c { state = connecting; channel = some x }) v.resets) (record {
      settled = record {
        channel = (x, refl);
        resets = v.resets;
        some_delay = v.some_delay;
        bounded = v.bounded;
      };
      balance = omega (arith, ap (holds_in fd) gone);
    })
connect_-Balances (again x) fd c v idle gone =
    let r = retry-Ends fd x c v.some_delay v.bounded in
    let (settled, none_left) =
      settle (retry x c).1 r.idle r.some_delay r.bounded
        (inl (r.queued ∙ v.resets, r.channel ∙ gone)) in
    record {
      settled = settled;
      balance =
          omega (arith, r.no_opens, r.one_end, ap (holds_in fd) gone, ap (holds_in fd) none_left);
    }

start_in_loop-Balances :
    (o : Outcome) (fd : ℕ) (c : Connector) → IsSettled c → Balances fd c (after (start_in_loop o c))
unfolding start_in_loop
start_in_loop-Balances o fd c v =
    if_holds (λ r. Balances fd c (after r)) c.connect _ _ (by_state c.state refl)
      (unchanged-Balances fd c v)
  where
    by_state :
        (s : State)
        → c.state ≡ s
        → Balances fd c (after (if is_disconnected s then connect_ o c else ([], c)))
    by_state connecting e = unchanged-Balances fd c v
    by_state connected e = unchanged-Balances fd c v
    by_state disconnected e =
        connect_-Balances o fd c v e (subst (λ s. SettledIn s c.channel) e v.channel)

quiet-Balances :
    (fd : ℕ) (es : List Effect) (c : Connector)
    → (opens fd es ≡ 0) × (ends fd es ≡ 0)
    → IsSettled c
    → Balances fd c (after (also es ([], c)))
quiet-Balances fd es c (a, b) v = rw (keeps_channel c v.resets) (record {
  settled = v;
  balance = omega (arith, a, b, opens-append fd es [], ends-append fd es []);
})

drop_connecting-Balances :
    (fd : ℕ) (s : State) (ch : Option ℕ) (es : List Effect) (c : Connector)
    → c.channel ≡ ch
    → (opens fd es ≡ 0) × (ends fd es ≡ 0)
    → IsSettled c
    → Balances fd c (after (also es (drop_connecting s ch c)))
drop_connecting-Balances fd disconnected ch es c at (a, b) v = quiet-Balances fd es c (a, b) v
drop_connecting-Balances fd connected ch es c at (a, b) v = quiet-Balances fd es c (a, b) v
drop_connecting-Balances fd connecting none es c at (a, b) v = quiet-Balances fd es c (a, b) v
drop_connecting-Balances fd connecting (some x) es c at (a, b) v =
    let c1 = record c { state = disconnected; queued_resets = c.queued_resets + 1 } in
    let (settled, gone) = settle c1 refl v.some_delay v.bounded (inr (omega (arith, v.resets))) in
    record {
      settled = settled;
      balance = omega (
        arith,
        a,
        b,
        opens-append fd es (closed x ∷ []),
        ends-append fd es (closed x ∷ []),
        ap (holds_in fd) at,
        ap (holds_in fd) gone,
      );
    }

stop_in_loop-Balances :
    (fd : ℕ) (c : Connector) → IsSettled c → Balances fd c (after (stop_in_loop c))
unfolding stop_in_loop
stop_in_loop-Balances fd c v =
    let c1 = record c { retry_timer = false } in
    let r =
      drop_connecting-Balances fd c.state c.channel
        (if c.retry_timer then cancel_timer ∷ [] else []) c1 refl
        (if_holds (λ es. (opens fd es ≡ 0) × (ends fd es ≡ 0)) c.retry_timer (cancel_timer ∷ []) []
          (refl, refl) (refl, refl))
        (record {
          channel = v.channel;
          resets = v.resets;
          some_delay = v.some_delay;
          bounded = v.bounded;
        }) in
    record { settled = r.settled; balance = r.balance }

turn-Balances : (fd : ℕ) (s : Step) (c : Connector) → IsSettled c → Balances fd c (turn s c)
unfolding turn step start stop
turn-Balances fd (starts o) c v =
    let r =
      start_in_loop-Balances o fd (record c { connect = true })
        (record {
          channel = v.channel;
          resets = v.resets;
          some_delay = v.some_delay;
          bounded = v.bounded;
        }) in
    record { settled = r.settled; balance = r.balance }
turn-Balances fd stops c v =
    let r =
      stop_in_loop-Balances fd (record c { connect = false })
        (record {
          channel = v.channel;
          resets = v.resets;
          some_delay = v.some_delay;
          bounded = v.bounded;
        }) in
    record { settled = r.settled; balance = r.balance }
turn-Balances fd (timer o) c v =
    let r =
      start_in_loop-Balances o fd (record c { retry_timer = false })
        (record {
          channel = v.channel;
          resets = v.resets;
          some_delay = v.some_delay;
          bounded = v.bounded;
        }) in
    record { settled = r.settled; balance = r.balance }
turn-Balances fd (writable verdict) c v = handle_write-Balances verdict fd c v

-- Over any turns of a connector that starts between two turns, where the queued functors run
-- before the next call: each descriptor was opened or held at first as often as it was closed,
-- handed over or is held at the end; the retry delay is at least half a second and at most thirty,
-- and there is a channel exactly while the connector is connecting.
pub run-Balances :
    (fd : ℕ) (ss : List Step) (c : Connector) → IsSettled c → Balances fd c (run ss c)
unfolding run
run-Balances fd [] c v = record { settled = v; balance = omega arith }
run-Balances fd (s ∷ ss) c v =
    let first = turn-Balances fd s c v in
    let next = run-Balances fd ss (turn s c).1 first.settled in
    record {
      settled = next.settled;
      balance = omega (
        arith,
        first.balance,
        next.balance,
        opens-append fd (turn s c).0 (run ss (turn s c).1).0,
        ends-append fd (turn s c).0 (run ss (turn s c).1).0,
      );
    }
