-- ===== src/Threads/TaskPool.antt =====
-- The task pool: include/reactor/base/ThreadPool.h and src/base/ThreadPool.cpp. A step is what one
-- thread does under the lock; a worker's wait on the condition is a step that changes nothing. A
-- task is a number.
pub mod Draining
mod Examples
use mini_reactor.Base.{ℕ, zero, suc, ◌-◌, Bool, true, false, if◌then◌else◌, List, [], ◌∷◌, ◌++◌}

pub record Pool : Type 0 where
  pub task_queue : List ℕ
  pub stop : Bool
  -- The threads that are in `Run`.
  pub workers : ℕ
  -- The tasks that were taken, in order.
  pub taken : List ℕ

abbrev pub init : ℕ → Pool
init n = record { task_queue = []; stop = false; workers = n; taken = [] }

unfoldable pub add_task : ℕ → Pool → Pool
add_task t p = if p.stop then p else record p { task_queue = p.task_queue ++ (t ∷ []) }

unfoldable pub stop_pool : Pool → Pool
stop_pool p = if p.stop then p else record p { stop = true }

abbrev pub take_from : List ℕ → Pool → Pool
take_from (t ∷ ts) p = record p { task_queue = ts; taken = p.taken ++ (t ∷ []) }
take_from [] p = if p.stop then record p { workers = p.workers - 1 } else p

abbrev pub if_any : ℕ → Pool → Pool → Pool
if_any zero p q = p
if_any (suc n) p q = q

-- A round of `Run`, by one of the threads that are in it.
unfoldable pub work : Pool → Pool
work p = if_any p.workers p (take_from p.task_queue p)

pub data Step : Type 0 where
  add : ℕ → Step
  stops works : Step

unfoldable pub step : Step → Pool → Pool
unfolding add_task stop_pool work
step (add t) p = add_task t p
step stops p = stop_pool p
step works p = work p

unfoldable pub run : List Step → Pool → Pool
unfolding step
run [] p = p
run (s ∷ ss) p = run ss (step s p)
