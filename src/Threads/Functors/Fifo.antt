-- ===== src/Threads/Functors/Fifo.antt =====
-- Functors run in the order in which they were queued, once, and the loop does not sleep on one.
use mini_reactor.Base.{
  ℕ, zero, suc, ◌+◌, ◌<◌, ◌≡◌, ltb, if_holds, refl, sym, ap, ◌∙◌, subst, ◌⊎◌, inl, inr, List, [],
  ◌∷◌, ◌++◌, append-nil, append_assoc, arith,
}
use mini_reactor.Threads.Functors.{
  Stage, waiting, handling, running, Loop, push_functor, wakeup, run_next, turn_in, turn,
  wake_queued, Step, queue, wake, quit, other_event, turns, other_in, step, run,
}

-- What ran, what runs and what waits.
abbrev pub all : Loop → List ℕ
all l = l.ran ++ (l.functors ++ l.pending_functors)

abbrev queued_by : Step → List ℕ
queued_by (queue f) = f ∷ []
queued_by _ = []

abbrev pub queued : List Step → List ℕ
queued [] = []
queued (s ∷ ss) = queued_by s ++ queued ss

abbrev LocalIn : Stage → List ℕ → Type 0
LocalIn running fs = Unit
LocalIn _ fs = fs ≡ []

-- Nothing waits, or a thread has written the eventfd or is about to.
abbrev pub WakesIn : Stage → List ℕ → ℕ → Type 0
WakesIn handling ps n = Unit
WakesIn _ ps n = (ps ≡ []) ⊎ (0 < n)

pub record IsAwake (l : Loop) : Type 0 where
  pub local : LocalIn l.stage l.functors
  pub wakes : WakesIn l.stage l.pending_functors (l.wakeups + l.waking)

pub record Does (ss : List Step) (l r : Loop) : Type 0 where
  pub awake : IsAwake r
  pub order : all r ≡ all l ++ queued ss

WakesIn-pos : (s : Stage) (ps : List ℕ) (n : ℕ) → 0 < n → WakesIn s ps n
WakesIn-pos waiting ps n h = inr h
WakesIn-pos handling ps n h = tt
WakesIn-pos running ps n h = inr h

turn_in-Does :
    (s : Stage) (l : Loop)
    → l.stage ≡ s
    → IsAwake l
    → (IsAwake (turn_in s l)) × (all (turn_in s l) ≡ all l)
turn_in-Does waiting l e v =
    if_holds (λ r. IsAwake r × (all r ≡ all l)) (ltb 0 l.wakeups)
      (record l { stage = handling; wakeups = 0 }) l
      (record { local = subst (λ s. LocalIn s l.functors) e v.local; wakes = tt }, refl) (v, refl)
turn_in-Does handling l e v =
    let none_local = subst (λ s. LocalIn s l.functors) e v.local in
    (
      record { local = tt; wakes = inl none_local },
      ap (λ fs. l.ran ++ (l.pending_functors ++ fs)) none_local
          ∙ ap (λ r. l.ran ++ r) (append-nil l.pending_functors)
          ∙ ap (λ fs. l.ran ++ (fs ++ l.pending_functors)) (sym none_local),
    )
turn_in-Does running l e v = by_functors l.functors refl
  where
    by_functors :
        (fs : List ℕ) → l.functors ≡ fs → (IsAwake (run_next fs l)) × (all (run_next fs l) ≡ all l)
    by_functors [] e' = (
      record {
        local = e';
        wakes = subst (λ s. WakesIn s l.pending_functors (l.wakeups + l.waking)) e v.wakes;
      },
      refl,
    )
    by_functors (f ∷ fs) e' = (
      record { local = subst (λ s. LocalIn s fs) (sym e) tt; wakes = v.wakes },
      append_assoc l.ran (f ∷ []) (fs ++ l.pending_functors)
          ∙ ap (λ gs. l.ran ++ (gs ++ l.pending_functors)) (sym e'),
    )

other_in-Does :
    (s : Stage) (l : Loop)
    → l.stage ≡ s
    → IsAwake l
    → IsAwake (other_in s l) × (all (other_in s l) ≡ all l)
other_in-Does waiting l e v =
    (record { local = subst (λ s. LocalIn s l.functors) e v.local; wakes = tt }, refl)
other_in-Does handling l e v = (v, refl)
other_in-Does running l e v = (v, refl)

wake_queued-Does :
    (n : ℕ) (l : Loop) → IsAwake l → IsAwake (wake_queued n l) × (all (wake_queued n l) ≡ all l)
unfolding wakeup
wake_queued-Does zero l v = (v, refl)
wake_queued-Does (suc n) l v = (
  record {
    local = v.local;
    wakes = WakesIn-pos l.stage l.pending_functors (l.wakeups + 1 + n) (omega arith);
  },
  refl,
)

step-Does :
    (s : Step) (l : Loop) → IsAwake l → IsAwake (step s l) × (all (step s l) ≡ all l ++ queued_by s)
unfolding step push_functor wakeup turn
step-Does (queue f) l v = (
  record {
    local = v.local;
    wakes =
        WakesIn-pos l.stage (l.pending_functors ++ (f ∷ [])) (l.wakeups + (l.waking + 1))
          (omega arith);
  },
  ap (λ r. l.ran ++ r) (sym (append_assoc l.functors l.pending_functors (f ∷ [])))
      ∙ sym (append_assoc l.ran (l.functors ++ l.pending_functors) (f ∷ [])),
)
step-Does wake l v = let r = wake_queued-Does l.waking l v in (r.0, r.1 ∙ sym (append-nil (all l)))
step-Does quit l v = (
  record {
    local = v.local;
    wakes = WakesIn-pos l.stage l.pending_functors (l.wakeups + 1 + l.waking) (omega arith);
  },
  sym (append-nil (all l)),
)
step-Does other_event l v =
    let r = other_in-Does l.stage l refl v in (r.0, r.1 ∙ sym (append-nil (all l)))
step-Does turns l v = let r = turn_in-Does l.stage l refl v in (r.0, r.1 ∙ sym (append-nil (all l)))

-- From a loop that is awake for what waits, however the threads' calls of `QueueInLoop`, their
-- wake-ups, other events and the loop's own turns fall: the functors that ran, and behind them
-- those swapped out and those that wait, are those of before and behind them those queued since,
-- in order, each once; and the loop is never in `epoll_wait` with a functor that waits and no
-- wake-up written or under way.
pub run-Does : (ss : List Step) (l : Loop) → IsAwake l → Does ss l (run ss l)
unfolding run
run-Does [] l v = record { awake = v; order = sym (append-nil (all l)) }
run-Does (s ∷ ss) l v =
    let first = step-Does s l v in
    let next = run-Does ss (step s l) first.0 in
    record {
      awake = next.awake;
      order =
          next.order
          ∙ ap (λ r. r ++ queued ss) first.1
          ∙ append_assoc (all l) (queued_by s) (queued ss);
    }
