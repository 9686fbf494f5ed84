-- ===== src/Net/Timers/Handle.antt =====
-- What the calls of a callback leave as it was.
use mini_reactor.Base.{
  if_holds, length, ℕ, ◌+◌, ◌%◌, ◌^◌, ◌≤◌, ◌<◌, ◌≡◌, ◌≢◌, refl, ap, ◌∙◌, List, [], ◌∷◌, Option,
  none, some, arith, All,
}
use mini_reactor.Net.Timers.{
  Table, Timers, Interval, Call, after, every, cancel, emplace, erase, update, contains,
  reset_timerfd, rearm, is_earliest, is_due_before, add_timer_in_loop, cancel_found,
  cancel_timer_in_loop, run_after, run_every, call, run_calls,
}
use mini_reactor.Net.Timers.Invariant.{IsConsistent, HasIds, call-IsConsistent}

-- All but the alarm is as in another state.
pub record SameTables (q r : Timers) : Type 0 where
  pub timers : r.timers ≡ q.timers
  pub active : r.active ≡ q.active
  pub canceling : r.canceling ≡ q.canceling
  pub next : r.next_timer_id ≡ q.next_timer_id

same_self : (q : Timers) → SameTables q q
same_self q = record { timers = refl; active = refl; canceling = refl; next = refl }

pub rearm-SameTables : (now : ℕ) (ts : Table) (q : Timers) → SameTables q (rearm now ts q)
unfolding reset_timerfd
rearm-SameTables now [] q = same_self q
rearm-SameTables now ((w, t) ∷ ts) q = record {
  timers = refl;
  active = refl;
  canceling = refl;
  next = refl;
}

add-SameTables :
    (now id when : ℕ) (interval : Interval) (cb : Option ℕ) (q : Timers)
    → SameTables
        (record q {
          timers = emplace when (record { id = id; cb = cb; interval = interval }) q.timers;
          active = update id (some when) q.active;
        })
        (add_timer_in_loop now id when interval cb q)
unfolding add_timer_in_loop
add-SameTables now id when interval cb q =
    if_holds (SameTables _) (is_earliest when q.timers) _ _ (rearm-SameTables now _ _) (same_self _)

-- The calls that cancel a timer.
abbrev pub Cancels : ℕ → Call → Type 0
Cancels j (cancel now id) = id ≡ j
Cancels j _ = ⊥

-- What a call, or a list of them, does not change of a timer that it does not cancel.
pub record Leaves (j n : ℕ) (q r : Timers) : Type 0 where
  pub active : r.active j ≡ q.active j
  pub canceling : contains r.canceling j ≡ contains q.canceling j
  pub next_from : q.next_timer_id ≤ r.next_timer_id
  pub next_to : r.next_timer_id ≤ q.next_timer_id + n

add-Leaves :
    (j now when : ℕ) (interval : Interval) (cb : Option ℕ) (q : Timers)
    → j < q.next_timer_id
    → HasIds 1 q
    → Leaves j 1 q (
        add_timer_in_loop now q.next_timer_id when interval cb
          (record q { next_timer_id = (q.next_timer_id + 1) % 2 ^ 64 }))
add-Leaves j now when interval cb q low h =
    let same = add-SameTables now q.next_timer_id when interval cb _ in
    record {
      active = ap (λ f. f j) same.active ∙ ground arith;
      canceling = ap (λ l. contains l j) same.canceling;
      next_from = omega (arith, same.next);
      next_to = omega (arith, same.next);
    }

cancel-Leaves :
    (j now id : ℕ) (o : Option ℕ) (q : Timers) → id ≢ j → Leaves j 1 q (cancel_found now id o q)
unfolding contains
cancel-Leaves j now id none q ne =
    if_holds (Leaves j 1 q) q.calling_expired _ _
      (record {
        active = refl;
        canceling = ground arith;
        next_from = omega arith;
        next_to = omega arith;
      })
      (record { active = refl; canceling = refl; next_from = omega arith; next_to = omega arith })
cancel-Leaves j now id (some when) q ne =
    if_holds (Leaves j 1 q) (is_due_before when (erase when id q.timers)) _ _
      (moved (rearm-SameTables now _ _)) (moved (same_self _))
  where
    moved :
        {r : Timers}
        → SameTables
            (record q { timers = erase when id q.timers; active = update id none q.active })
            r
        → Leaves j 1 q r
    moved same = record {
      active = ap (λ f. f j) same.active ∙ ground arith;
      canceling = ap (λ l. contains l j) same.canceling;
      next_from = omega (arith, same.next);
      next_to = omega (arith, same.next);
    }

call-Leaves :
    (j : ℕ) (c : Call) (q : Timers)
    → j < q.next_timer_id
    → ¬ Cancels j c
    → HasIds 1 q
    → Leaves j 1 q (call c q)
unfolding call run_after run_every cancel_timer_in_loop
call-Leaves j (after now delay cb) q low quiet h = add-Leaves j now _ _ cb q low h
call-Leaves j (every now interval cb) q low quiet h = add-Leaves j now _ interval cb q low h
call-Leaves j (cancel now id) q low quiet h = cancel-Leaves j now id (q.active id) q quiet

pub Leaves-then :
    {j m n k : ℕ} {q r s : Timers} → Leaves j m q r → Leaves j n r s → k ≡ m + n → Leaves j k q s
Leaves-then a b e = record {
  active = b.active ∙ a.active;
  canceling = b.canceling ∙ a.canceling;
  next_from = omega (arith, a.next_from, b.next_from);
  next_to = omega (arith, a.next_to, b.next_to);
}

pub Leaves-self : (j : ℕ) (q : Timers) → Leaves j 0 q q
Leaves-self j q = record {
  active = refl;
  canceling = refl;
  next_from = omega arith;
  next_to = omega arith;
}

pub run_calls-Leaves :
    (j : ℕ) (cs : List Call) (q : Timers)
    → j < q.next_timer_id
    → All (λ c. ¬ Cancels j c) cs
    → HasIds (length cs) q
    → Leaves j (length cs) q (run_calls cs q)
unfolding run_calls
run_calls-Leaves j [] q low quiet h = Leaves-self j q
run_calls-Leaves j (c ∷ cs) q low (quiet, quiets) h =
    let first = call-Leaves j c q low quiet (omega arith) in
    Leaves-then first
      (run_calls-Leaves j cs (call c q) (omega (arith, first.next_from)) quiets
        (omega (arith, first.next_to)))
      (omega arith)

-- An id that is not in the table, and is not new, does not come into it.
pub record Keeps (n : ℕ) (q r : Timers) : Type 0 where
  pub absent : (j : ℕ) → j < q.next_timer_id → q.active j ≡ none → r.active j ≡ none
  pub next_from : q.next_timer_id ≤ r.next_timer_id
  pub next_to : r.next_timer_id ≤ q.next_timer_id + n

add-Keeps :
    (now when : ℕ) (interval : Interval) (cb : Option ℕ) (q : Timers)
    → HasIds 1 q
    → Keeps 1 q (
        add_timer_in_loop now q.next_timer_id when interval cb
          (record q { next_timer_id = (q.next_timer_id + 1) % 2 ^ 64 }))
add-Keeps now when interval cb q h =
    let same = add-SameTables now q.next_timer_id when interval cb _ in
    record {
      absent = λ j low e. ap (λ f. f j) same.active ∙ ground arith;
      next_from = omega (arith, same.next);
      next_to = omega (arith, same.next);
    }

cancel-Keeps : (now id : ℕ) (o : Option ℕ) (q : Timers) → Keeps 1 q (cancel_found now id o q)
cancel-Keeps now id none q =
    if_holds (Keeps 1 q) q.calling_expired _ _
      (record { absent = λ j low e. e; next_from = omega arith; next_to = omega arith })
      (record { absent = λ j low e. e; next_from = omega arith; next_to = omega arith })
cancel-Keeps now id (some when) q =
    if_holds (Keeps 1 q) (is_due_before when (erase when id q.timers)) _ _
      (moved (rearm-SameTables now _ _)) (moved (same_self _))
  where
    moved :
        {r : Timers}
        → SameTables
            (record q { timers = erase when id q.timers; active = update id none q.active })
            r
        → Keeps 1 q r
    moved same = record {
      absent = λ j low e. ap (λ f. f j) same.active ∙ ground arith;
      next_from = omega (arith, same.next);
      next_to = omega (arith, same.next);
    }

call-Keeps : (c : Call) (q : Timers) → HasIds 1 q → Keeps 1 q (call c q)
unfolding call run_after run_every cancel_timer_in_loop
call-Keeps (after now delay cb) q h = add-Keeps now _ _ cb q h
call-Keeps (every now interval cb) q h = add-Keeps now _ interval cb q h
call-Keeps (cancel now id) q h = cancel-Keeps now id (q.active id) q

pub Keeps-then : {m n k : ℕ} {q r s : Timers} → Keeps m q r → Keeps n r s → k ≡ m + n → Keeps k q s
Keeps-then a b e = record {
  absent = λ j low h. b.absent j (omega (arith, a.next_from)) (a.absent j low h);
  next_from = omega (arith, a.next_from, b.next_from);
  next_to = omega (arith, a.next_to, b.next_to);
}

pub Keeps-self : (q : Timers) → Keeps 0 q q
Keeps-self q = record { absent = λ j low h. h; next_from = omega arith; next_to = omega arith }

pub run_calls-Keeps :
    (cs : List Call) (q : Timers) → HasIds (length cs) q → Keeps (length cs) q (run_calls cs q)
unfolding run_calls
run_calls-Keeps [] q h = Keeps-self q
run_calls-Keeps (c ∷ cs) q h =
    let first = call-Keeps c q (omega arith) in
    Keeps-then first (run_calls-Keeps cs (call c q) (omega (arith, first.next_to))) (omega arith)

pub run_calls-IsConsistent :
    (cs : List Call) (q : Timers)
    → HasIds (length cs) q
    → IsConsistent q
    → IsConsistent (run_calls cs q)
unfolding run_calls
run_calls-IsConsistent [] q h v = v
run_calls-IsConsistent (c ∷ cs) q h v =
    run_calls-IsConsistent cs (call c q) (omega (arith, (call-Keeps c q (omega arith)).next_to))
      (call-IsConsistent c q (omega arith) v)
