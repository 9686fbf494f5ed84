-- ===== src/Threads/TaskPool/Draining.antt =====
-- Every task that the pool accepted is taken, once and in order, before its threads are gone.
use mini_reactor.Base.{
  ℕ, zero, suc, ◌-◌, ◌<◌, ◌≡◌, refl, sym, ap, ◌∙◌, ◌⊎◌, inl, inr, Bool, true, false, if◌then◌else◌,
  List, [], ◌∷◌, ◌++◌, append-nil, append_assoc, arith,
}
use mini_reactor.Threads.TaskPool.{
  Pool, add_task, stop_pool, take_from, if_any, work, Step, add, stops, works, step, run,
}

abbrev pub all : Pool → List ℕ
all p = p.taken ++ p.task_queue

abbrev task_if : Bool → Step → List ℕ
task_if true s = []
task_if false (add t) = t ∷ []
task_if false _ = []

abbrev stopped_by : Bool → Step → Bool
stopped_by true s = true
stopped_by false stops = true
stopped_by false _ = false

-- The tasks that come before `Stop`.
abbrev pub accepted : Bool → List Step → List ℕ
accepted stopped [] = []
accepted stopped (s ∷ ss) = task_if stopped s ++ accepted (stopped_by stopped s) ss

-- A thread is left, or the pool was stopped and its queue is empty.
pub record IsServed (p : Pool) : Type 0 where
  pub served : (0 < p.workers) ⊎ ((p.stop ≡ true) × (p.task_queue ≡ []))

pub record Drains (ss : List Step) (p r : Pool) : Type 0 where
  pub served : IsServed r
  pub order : all r ≡ all p ++ accepted p.stop ss

record StepDoes (s : Step) (p r : Pool) : Type 0 where
  after : IsServed r
  moved : all r ≡ all p ++ task_if p.stop s
  stopped : r.stop ≡ stopped_by p.stop s

still_on : {b : Bool} → b ≡ true → b ≡ false → ⊥
still_on h k = true_not_false (sym h ∙ k)
  where
    true_not_false : true ≡ false → ⊥
    true_not_false e = cc

-- What a step gives, where the flag is known.
does :
    (s : Step) (p r : Pool) (b : Bool)
    → p.stop ≡ b
    → IsServed r
    → all r ≡ all p ++ task_if b s
    → r.stop ≡ stopped_by b s
    → StepDoes s p r
does s p r b e v m k = record {
  after = v;
  moved = m ∙ ap (λ c. all p ++ task_if c s) (sym e);
  stopped = k ∙ ap (λ c. stopped_by c s) (sym e);
}

same : (p : Pool) → all p ≡ all p ++ []
same p = sym (append-nil (all p))

add_task-Does : (t : ℕ) (p : Pool) → IsServed p → StepDoes (add t) p (add_task t p)
unfolding add_task
add_task-Does t p v = by_flag p.stop refl
  where
    by_flag :
        (b : Bool)
        → p.stop ≡ b
        → StepDoes (add t) p (if b then p else record p { task_queue = p.task_queue ++ (t ∷ []) })
    by_flag true e = does (add t) p p true e v (same p) e
    by_flag false e =
        does (add t) p (record p { task_queue = p.task_queue ++ (t ∷ []) }) false e
          (record {
            served = elim v.served [ inl h ↦ inl h | inr (over, none) ↦ absurd (still_on over e) ];
          })
          (sym (append_assoc p.taken p.task_queue (t ∷ []))) e

stop_pool-Does : (p : Pool) → IsServed p → StepDoes stops p (stop_pool p)
unfolding stop_pool
stop_pool-Does p v = by_flag p.stop refl
  where
    by_flag : (b : Bool) → p.stop ≡ b → StepDoes stops p (if b then p else record p { stop = true })
    by_flag true e = does stops p p true e v (same p) e
    by_flag false e =
        does stops p (record p { stop = true }) false e
          (record {
            served = elim v.served [ inl h ↦ inl h | inr (over, none) ↦ absurd (still_on over e) ];
          })
          (same p) refl

-- A step of a worker changes neither the flag nor what all tasks are.
works-Does : (p r : Pool) → IsServed r → all r ≡ all p → r.stop ≡ p.stop → StepDoes works p r
works-Does p r v m k = by_flag p.stop refl
  where
    by_flag : (b : Bool) → p.stop ≡ b → StepDoes works p r
    by_flag true e = does works p r true e v (m ∙ same p) (k ∙ e)
    by_flag false e = does works p r false e v (m ∙ same p) (k ∙ e)

take_from-Does :
    (ts : List ℕ) (p : Pool)
    → p.task_queue ≡ ts
    → 0 < p.workers
    → IsServed p
    → StepDoes works p (take_from ts p)
take_from-Does (t ∷ ts) p e h v =
    works-Does p (take_from (t ∷ ts) p) (record { served = inl h })
      (append_assoc p.taken (t ∷ []) ts ∙ ap (λ l. p.taken ++ l) (sym e)) refl
take_from-Does [] p e h v = by_flag p.stop refl
  where
    by_flag :
        (b : Bool)
        → p.stop ≡ b
        → StepDoes works p (if b then record p { workers = p.workers - 1 } else p)
    by_flag true over =
        works-Does p (record p { workers = p.workers - 1 }) (record { served = inr (over, e) }) refl
          refl
    by_flag false on = works-Does p p v refl refl

work-Does : (p : Pool) → IsServed p → StepDoes works p (work p)
unfolding work
work-Does p v = by_workers p.workers refl
  where
    by_workers : (n : ℕ) → p.workers ≡ n → StepDoes works p (if_any n p (take_from p.task_queue p))
    by_workers zero e = works-Does p p v refl refl
    by_workers (suc n) e = take_from-Does p.task_queue p refl (omega (arith, e)) v

step-Does : (s : Step) (p : Pool) → IsServed p → StepDoes s p (step s p)
unfolding step
step-Does (add t) p v = add_task-Does t p v
step-Does stops p v = stop_pool-Does p v
step-Does works p v = work-Does p v

-- From a pool with a worker left, or stopped with an empty queue, however the calls of `AddTask`
-- and `Stop` and the rounds of the workers fall: the tasks that were taken and behind them those
-- in the queue are those of before and behind them those added before `Stop`, in order, each once;
-- and while the queue is not empty or `Stop` was not called, a worker is left.
pub run-Drains : (ss : List Step) (p : Pool) → IsServed p → Drains ss p (run ss p)
unfolding run
run-Drains [] p v = record { served = v; order = same p }
run-Drains (s ∷ ss) p v =
    let first = step-Does s p v in
    let next = run-Drains ss (step s p) first.after in
    record {
      served = next.served;
      order =
          next.order
          ∙ ap (λ b. all (step s p) ++ accepted b ss) first.stopped
          ∙ ap (λ l. l ++ accepted (stopped_by p.stop s) ss) first.moved
          ∙ append_assoc (all p) (task_if p.stop s) (accepted (stopped_by p.stop s) ss);
    }
