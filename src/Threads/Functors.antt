-- ===== src/Threads/Functors.antt =====
-- The functors of an event loop: QueueInLoop, Wakeup, HandleRead, DoPendingFunctors and the loop's
-- order of them, in src/net/EventLoop.cpp. Each step is what one thread does under the lock or in
-- one system call; a functor is a number. What a functor queues is a step of its own.
pub mod Fifo
mod Examples
use mini_reactor.Base.{ℕ, zero, suc, ◌+◌, ltb, if◌then◌else◌, List, [], ◌∷◌, ◌++◌}

-- In `epoll_wait`; at the events; in the loop over the functors that were swapped out.
pub data Stage : Type 0 where
  waiting handling running : Stage

pub record Loop : Type 0 where
  pub stage : Stage
  pub pending_functors : List ℕ
  -- The local vector of `DoPendingFunctors`.
  pub functors : List ℕ
  -- The counter of the eventfd.
  pub wakeups : ℕ
  -- How many threads are in `QueueInLoop` between the lock and `Wakeup`.
  pub waking : ℕ
  -- The functors that ran, in order.
  pub ran : List ℕ

abbrev pub init : Loop
init = record {
  stage = waiting;
  pending_functors = [];
  functors = [];
  wakeups = 0;
  waking = 0;
  ran = [];
}

-- The part of `QueueInLoop` under the lock.
unfoldable pub push_functor : ℕ → Loop → Loop
push_functor f l = record l {
  pending_functors = l.pending_functors ++ (f ∷ []);
  waking = l.waking + 1;
}

unfoldable pub wakeup : Loop → Loop
wakeup l = record l { wakeups = l.wakeups + 1 }

-- `epoll_wait` returns when the counter is above zero; another event may also end it.
abbrev pub wait : Loop → Loop
wait l = if ltb 0 l.wakeups then record l { stage = handling; wakeups = 0 } else l

-- The part of `DoPendingFunctors` under the lock.
abbrev pub swap : Loop → Loop
swap l = record l { stage = running; functors = l.pending_functors; pending_functors = l.functors }

abbrev pub run_next : List ℕ → Loop → Loop
run_next [] l = record l { stage = waiting }
run_next (f ∷ fs) l = record l { functors = fs; ran = l.ran ++ (f ∷ []) }

abbrev pub turn_in : Stage → Loop → Loop
turn_in waiting l = wait l
turn_in handling l = swap l
turn_in running l = run_next l.functors l

-- What the loop's thread does next.
unfoldable pub turn : Loop → Loop
turn l = turn_in l.stage l

-- A thread that has queued a functor calls `Wakeup`.
abbrev pub wake_queued : ℕ → Loop → Loop
wake_queued zero l = l
wake_queued (suc n) l = wakeup (record l { waking = n })

pub data Step : Type 0 where
  queue : ℕ → Step
  wake quit other_event turns : Step

abbrev pub other_in : Stage → Loop → Loop
other_in waiting l = record l { stage = handling }
other_in _ l = l

unfoldable pub step : Step → Loop → Loop
unfolding push_functor wakeup turn
step (queue f) l = push_functor f l
step wake l = wake_queued l.waking l
step quit l = wakeup l
step other_event l = other_in l.stage l
step turns l = turn l

unfoldable pub run : List Step → Loop → Loop
unfolding step
run [] l = l
run (s ∷ ss) l = run ss (step s l)
