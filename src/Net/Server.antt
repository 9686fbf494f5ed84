-- ===== src/Net/Server.antt =====
-- A server: Acceptor::HandleRead of src/net/Acceptor.cpp, src/net/TcpServer.cpp, and GetNextLoop of
-- src/net/EventLoopThreadPool.cpp. A functor in a loop's queue is a pair of the loop and the
-- functor; each step is what one loop does.
pub mod Rounds
pub mod Descriptors
mod Examples
use mini_reactor.Base.{
  ℕ, zero, suc, ◌+◌, ◌%◌, ◌==◌, if◌then◌else◌, ◌≡◌, Bool, true, false, Option, none, some, List, [],
  ◌∷◌, ◌++◌, length, get_elem?,
}

pub data EventLoop : Type 0 where
  main_loop : EventLoop
  sub_loop : ℕ → EventLoop

pub record EventLoopThreadPool : Type 0 where
  pub thread_count : ℕ
  pub loops : List EventLoop
  pub next : ℕ

abbrev pub from : ℕ → ℕ → List EventLoop
from i zero = []
from i (suc n) = sub_loop i ∷ from (i + 1) n

-- `Start`, where every thread is created.
abbrev pub start_pool : ℕ → EventLoopThreadPool
start_pool n = record { thread_count = n; loops = from 0 n; next = 0 }

-- `none` is a read out of bounds.
unfoldable pub get_next_loop : EventLoopThreadPool → Option EventLoop × EventLoopThreadPool
get_next_loop p =
    if length p.loops == 0
    then (some main_loop, p)
    else (get_elem? p.loops p.next, record p { next = (p.next + 1) % p.thread_count })

-- A connection, with a number of its own in the place of its address.
pub record Handle : Type 0 where
  pub address : ℕ
  pub fd : ℕ
  pub loop : EventLoop

-- The functors that the server queues in its loops.
pub data Functor : Type 0 where
  establishes erases destroys : Handle → Functor

-- `established` has the connections that are up, `open_fds` the descriptors of connections that the
-- process has open.
pub record TcpServer : Type 0 where
  pub pool : EventLoopThreadPool
  pub connections : ℕ → Option Handle
  pub queue : List (EventLoop × Functor)
  pub established : List Handle
  pub open_fds : List ℕ
  pub made : ℕ

abbrev pub put : ℕ → Option Handle → (ℕ → Option Handle) → ℕ → Option Handle
put fd v m x = if x == fd then v else m x

abbrev pub started : ℕ → TcpServer
started n = record {
  pool = start_pool n;
  connections = λ x. none;
  queue = [];
  established = [];
  open_fds = [];
  made = 0;
}

abbrev pub add_to : EventLoop → ℕ → EventLoopThreadPool → TcpServer → TcpServer
add_to loop fd pool s =
    let conn : Handle = record { address = s.made; fd = fd; loop = loop } in
    record s {
      pool = pool;
      connections = put fd (some conn) s.connections;
      queue = s.queue ++ (loop, establishes conn) ∷ [];
      made = s.made + 1;
    }

abbrev pub add_to_next : Option EventLoop → ℕ → EventLoopThreadPool → TcpServer → TcpServer
add_to_next none fd pool s = record s { pool = pool }
add_to_next (some loop) fd pool s = add_to loop fd pool s

unfoldable pub new_connection : ℕ → TcpServer → TcpServer
unfolding get_next_loop
new_connection fd s = let (loop, pool) = get_next_loop s.pool in add_to_next loop fd pool s

-- What `accept4` gives: a descriptor, EINTR, EAGAIN or another error.
pub data AcceptResult : Type 0 where
  accepted : ℕ → AcceptResult
  interrupted would_block accept_error : AcceptResult

-- Behind the last result it gives EAGAIN.
unfoldable pub handle_read : List AcceptResult → TcpServer → TcpServer
unfolding new_connection
handle_read [] s = s
handle_read (accepted fd ∷ rs) s =
    handle_read rs (new_connection fd (record s { open_fds = fd ∷ s.open_fds }))
handle_read (interrupted ∷ rs) s = handle_read rs s
handle_read (would_block ∷ rs) s = s
handle_read (accept_error ∷ rs) s = s

-- The close callback: a functor for the main loop.
unfoldable pub remove_connection : Handle → TcpServer → TcpServer
remove_connection c s = record s { queue = s.queue ++ (main_loop, erases c) ∷ [] }

abbrev pub remove : ℕ → List ℕ → List ℕ
remove x [] = []
remove x (y ∷ ys) = if x == y then ys else y ∷ remove x ys

unfoldable pub run_functor : Functor → TcpServer → TcpServer
run_functor (establishes c) s = record s { established = c ∷ s.established }
run_functor (erases c) s = record s {
  connections = put c.fd none s.connections;
  queue = s.queue ++ (c.loop, destroys c) ∷ [];
}
run_functor (destroys c) s = record s { open_fds = remove c.fd s.open_fds }

abbrev pub same : EventLoop → EventLoop → Bool
same main_loop main_loop = true
same (sub_loop i) (sub_loop j) = i == j
same _ _ = false

-- The first functor of a loop, and the queue without it.
abbrev pub first_of :
    EventLoop → List (EventLoop × Functor) → Option (Functor × List (EventLoop × Functor))
first_of l [] = none
first_of l ((k, f) ∷ q) =
    if same l k
    then some (f, q)
    else elim (first_of l q) [ none ↦ none | some (g, rest) ↦ some (g, (k, f) ∷ rest) ]

-- The connection that is up with a descriptor, and the others.
abbrev pub up_with : ℕ → List Handle → Option (Handle × List Handle)
up_with fd [] = none
up_with fd (c ∷ cs) =
    if fd == c.fd
    then some (c, cs)
    else elim (up_with fd cs) [ none ↦ none | some (d, rest) ↦ some (d, c ∷ rest) ]

pub data Step : Type 0 where
  readable : List AcceptResult → Step
  hangs_up : ℕ → Step
  runs : EventLoop → Step

abbrev pub hang_up : Option (Handle × List Handle) → TcpServer → TcpServer
hang_up none s = s
hang_up (some (c, rest)) s = remove_connection c (record s { established = rest })

abbrev pub run_first : Option (Functor × List (EventLoop × Functor)) → TcpServer → TcpServer
run_first none s = s
run_first (some (f, rest)) s = run_functor f (record s { queue = rest })

unfoldable pub step : Step → TcpServer → TcpServer
unfolding handle_read remove_connection run_functor
step (readable rs) s = handle_read rs s
step (hangs_up fd) s = hang_up (up_with fd s.established) s
step (runs l) s = run_first (first_of l s.queue) s
