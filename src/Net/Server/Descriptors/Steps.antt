-- ===== src/Net/Server/Descriptors/Steps.antt =====
-- The server's map and its descriptors over every step.
use mini_reactor.Base.{
  ℕ, ◌+◌, ◌<◌, ◌≤◌, ◌==◌, ◌≡◌, sym, ap, ◌∙◌, subst, Option, none, some, List, [], ◌∷◌, ◌++◌,
  if_cases, arith,
}
use mini_reactor.Net.Server.{
  EventLoop, main_loop, EventLoopThreadPool, get_next_loop, Handle, Functor, establishes, erases,
  destroys, TcpServer, put, started, add_to, add_to_next, new_connection, AcceptResult, accepted,
  interrupted, would_block, accept_error, handle_read, remove_connection, run_functor, first_of,
  up_with, Step, readable, hangs_up, runs, hang_up, run_first, step,
}
use mini_reactor.Net.Server.Descriptors.{
  hit, count, self, fd_of, up_fd, handle_of, FitsItem, Owns, AreFresh, Allows,
}
use mini_reactor.Net.Server.Rounds.{
  IsServing, get_next_loop-gives, after-IsServing, start_pool-IsServing,
}
use mini_reactor.Net.Server.Descriptors.Lists.{
  count-append, All-append, Takes, first_of-Takes, TakesUp, up_with-TakesUp, count-remove, put-own,
  put-Registered, put-Queued,
}

-- Everything that a queue and the list have, and one more.
queue_more :
    (x : ℕ) (q : List (EventLoop × Functor)) (l : EventLoop) (f : Functor)
    → count fd_of x (q ++ (l, f) ∷ []) ≡ count fd_of x q + hit (handle_of f).fd x
queue_more x q l f = let h = count-append fd_of x q ((l, f) ∷ []) in omega (arith, h)

hit_own : (x : ℕ) → hit x x ≡ 1
hit_own x = ground arith

-- With the descriptor that was just accepted open, in the connection that is made for it.
add_to-Owns :
    (loop : EventLoop) (fd : ℕ) (pool : EventLoopThreadPool) (s : TcpServer)
    → Owns s
    → IsServing pool
    → count self fd s.open_fds ≡ 0
    → Owns (add_to loop fd pool (record s { open_fds = fd ∷ s.open_fds }))
add_to-Owns loop fd pool s o serving fresh =
    let conn : Handle = record { address = s.made; fd = fd; loop = loop } in
    let none_queued : count fd_of fd s.queue ≡ 0 =
      (let h = o.owned fd in omega (arith, h, fresh)) in
    let none_up : count up_fd fd s.established ≡ 0 =
      (let h = o.owned fd in omega (arith, h, fresh)) in
    record {
      serving = serving;
      owned = λ x.
          let h = o.owned x in
          let k = queue_more x s.queue loop (establishes conn) in omega (arith, h, k);
      once = λ x. one x (o.once x);
      queued =
          All-append (FitsItem (put fd (some conn) s.connections)) s.queue
            ((loop, establishes conn) ∷ [])
            (put-Queued fd (some conn) s.connections s.queue none_queued o.queued)
            (put-own fd (some conn) s.connections, tt);
      registered = put-Registered fd (some conn) s.connections s.established none_up o.registered;
    }
  where
    one : (x : ℕ) → count self x s.open_fds ≤ 1 → hit fd x + count self x s.open_fds ≤ 1
    one x h =
        if_cases (λ n. n + count self x s.open_fds ≤ 1) (fd == x) 1 0
          (λ e.
            let same : fd ≡ x = ground arith in
            let none = ap (λ y. count self y s.open_fds) (sym same) ∙ fresh in omega (arith, none))
          (λ e. omega arith)

new_connection-Owns :
    (fd : ℕ) (s : TcpServer)
    → Owns s
    → count self fd s.open_fds ≡ 0
    → Owns (new_connection fd (record s { open_fds = fd ∷ s.open_fds }))
unfolding new_connection
new_connection-Owns fd s o fresh =
    let (l, e) = get_next_loop-gives s.pool o.serving in
    subst
      (λ r.
        Owns (add_to_next r fd (get_next_loop s.pool).1 (record s { open_fds = fd ∷ s.open_fds })))
      (sym e)
      (add_to-Owns l fd (get_next_loop s.pool).1 s o (after-IsServing s.pool o.serving) fresh)

handle_read-Owns :
    (rs : List AcceptResult) (s : TcpServer) → Owns s → AreFresh rs s → Owns (handle_read rs s)
unfolding handle_read
handle_read-Owns [] s o h = o
handle_read-Owns (accepted fd ∷ rs) s o h =
    handle_read-Owns rs (new_connection fd (record s { open_fds = fd ∷ s.open_fds }))
      (new_connection-Owns fd s o h.0) h.1
handle_read-Owns (interrupted ∷ rs) s o h = handle_read-Owns rs s o h
handle_read-Owns (would_block ∷ rs) s o h = o
handle_read-Owns (accept_error ∷ rs) s o h = o

hang_up-Owns :
    (r : Option (Handle × List Handle)) (s : TcpServer)
    → TakesUp s.connections s.established r
    → Owns s
    → Owns (hang_up r s)
unfolding remove_connection
hang_up-Owns none s h o = o
hang_up-Owns (some (c, rest)) s h o =
    let (here, others) = h.keeps o.registered in
    record {
      serving = o.serving;
      owned = λ x.
          let a = o.owned x in
          let b = h.counts x in
          let k = queue_more x s.queue main_loop (erases c) in omega (arith, a, b, k);
      once = o.once;
      queued =
          All-append (FitsItem s.connections) s.queue ((main_loop, erases c) ∷ []) o.queued
            (here, tt);
      registered = others;
    }

run_first-Owns :
    (l : EventLoop) (r : Option (Functor × List (EventLoop × Functor))) (s : TcpServer)
    → Takes s.connections l s.queue r
    → Owns s
    → Owns (run_first r s)
unfolding run_functor
run_first-Owns l none s h o = o
run_first-Owns l (some (establishes c, rest)) s h o =
    let (here, others) = h.keeps o.queued in
    record {
      serving = o.serving;
      owned = λ x. let a = o.owned x in let b = h.counts x in omega (arith, a, b);
      once = o.once;
      queued = others;
      registered = (here, o.registered);
    }
run_first-Owns l (some (erases c, rest)) s h o =
    let (here, others) = h.keeps o.queued in
    let own = hit_own c.fd in
    let none_queued : count fd_of c.fd rest ≡ 0 =
      (let a = o.owned c.fd in
        let b = h.counts c.fd in let n = o.once c.fd in omega (arith, a, b, n, own)) in
    let none_up : count up_fd c.fd s.established ≡ 0 =
      (let a = o.owned c.fd in
        let b = h.counts c.fd in let n = o.once c.fd in omega (arith, a, b, n, own)) in
    record {
      serving = o.serving;
      owned = λ x.
          let a = o.owned x in
          let b = h.counts x in
          let k = queue_more x rest c.loop (destroys c) in omega (arith, a, b, k);
      once = o.once;
      queued =
          All-append (FitsItem (put c.fd none s.connections)) rest ((c.loop, destroys c) ∷ [])
            (put-Queued c.fd none s.connections rest none_queued others)
            (put-own c.fd none s.connections, tt);
      registered = put-Registered c.fd none s.connections s.established none_up o.registered;
    }
run_first-Owns l (some (destroys c, rest)) s h o =
    let (here, others) = h.keeps o.queued in
    let own = hit_own c.fd in
    let is_open : 0 < count self c.fd s.open_fds =
      (let a = o.owned c.fd in let b = h.counts c.fd in omega (arith, a, b, own)) in
    record {
      serving = o.serving;
      owned = λ x.
          let a = o.owned x in
          let b = h.counts x in
          let r = count-remove c.fd x s.open_fds is_open in omega (arith, a, b, r);
      once = λ x.
          let n = o.once x in let r = count-remove c.fd x s.open_fds is_open in omega (arith, n, r);
      queued = others;
      registered = o.registered;
    }

step-Owns : (st : Step) (s : TcpServer) → Allows s st → Owns s → Owns (step st s)
unfolding step
step-Owns (readable rs) s h o = handle_read-Owns rs s o h
step-Owns (hangs_up fd) s h o =
    hang_up-Owns (up_with fd s.established) s (up_with-TakesUp s.connections fd s.established) o
step-Owns (runs l) s h o =
    run_first-Owns l (first_of l s.queue) s (first_of-Takes s.connections l s.queue) o

-- The states that the server comes to from its start, in any order of the loops' steps.
pub data Reaches (n : ℕ) : TcpServer → Type 0 where
  at_start : Reaches n (started n)
  then_step : (st : Step) (s : TcpServer) → Reaches n s → Allows s st → Reaches n (step st s)

-- In every state that a server comes to, whatever the order of the steps of its loops, and if
-- `accept4` gives descriptors that are not open: each open descriptor belongs to one connection,
-- which is up or in the queue of a loop; the map has this connection until the main loop erases
-- it, and nothing under its descriptor from then until it is closed, so that no connection takes
-- another one's place in the map or closes its descriptor.
pub Reaches-Owns : (n : ℕ) (s : TcpServer) → Reaches n s → Owns s
Reaches-Owns n _ at_start = record {
  serving = start_pool-IsServing n;
  owned = λ x. omega arith;
  once = λ x. omega arith;
  queued = tt;
  registered = tt;
}
Reaches-Owns n _ (then_step st s r h) = step-Owns st s h (Reaches-Owns n s r)
