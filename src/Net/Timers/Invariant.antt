-- ===== src/Net/Timers/Invariant.antt =====
-- The two tables of timers agree, whatever is added, cancelled or fired.
use mini_reactor.Base.{
  if_holds, ℕ, ◌+◌, ◌%◌, ◌^◌, ◌<◌, ◌≡◌, refl, ◌∙◌, sym, [], ◌∷◌, Option, none, some, arith,
}
use mini_reactor.Net.Timers.{
  Timer, Table, Timers, Interval, Call, after, every, cancel, emplace, erase, update, reset_timerfd,
  rearm, is_earliest, is_due_before, add_timer_in_loop, cancel_found, cancel_timer_in_loop,
  run_after, run_every, call,
}
use mini_reactor.Net.Timers.Table.{
  key_of, IsSorted, IsDistinct, Below, key_of-emplace, emplace-IsSorted, emplace-IsDistinct,
  emplace-Below, Below-mono, key_of-Below, key_of-erase, erase-IsSorted, erase-IsDistinct,
  erase-Below,
}

-- `timers_` is in order, no id stands in it twice or is one of those to come, and `active_` holds
-- the key of every id in it, and no more.
pub record IsConsistent (q : Timers) : Type 0 where
  pub sorted : IsSorted q.timers
  pub distinct : IsDistinct q.timers
  pub below : Below q.next_timer_id q.timers
  pub matches : (j : ℕ) → q.active j ≡ key_of j q.timers

-- What `rearm` keeps: all but the alarm.
pub rearm-IsConsistent :
    (now : ℕ) (ts : Table) (q : Timers) → IsConsistent q → IsConsistent (rearm now ts q)
unfolding reset_timerfd
rearm-IsConsistent now [] q v = v
rearm-IsConsistent now ((w, t) ∷ ts) q v = record {
  sorted = v.sorted;
  distinct = v.distinct;
  below = v.below;
  matches = v.matches;
}

-- A timer under an id that is not in the table.
pub emplaced :
    (w : ℕ) (t : Timer) (q : Timers)
    → key_of t.id q.timers ≡ none
    → t.id < q.next_timer_id
    → IsConsistent q
    → IsConsistent
        (record q { timers = emplace w t q.timers; active = update t.id (some w) q.active })
emplaced w t q new low v = record {
  sorted = emplace-IsSorted w t q.timers v.sorted;
  distinct = emplace-IsDistinct w t q.timers new v.distinct;
  below = emplace-Below q.next_timer_id w t q.timers low v.below;
  matches = λ j. ground (arith, v.matches j, key_of-emplace j w t q.timers new);
}

pub add_timer_in_loop-IsConsistent :
    (now id when : ℕ) (interval : Interval) (cb : Option ℕ) (q : Timers)
    → key_of id q.timers ≡ none
    → id < q.next_timer_id
    → IsConsistent q
    → IsConsistent (add_timer_in_loop now id when interval cb q)
unfolding add_timer_in_loop
add_timer_in_loop-IsConsistent now id when interval cb q new low v =
    let q' = emplaced when (record { id = id; cb = cb; interval = interval }) q new low v in
    if_holds IsConsistent (is_earliest when q.timers) _ _ (rearm-IsConsistent now _ _ q') q'

cancel_found-IsConsistent :
    (now id : ℕ) (o : Option ℕ) (q : Timers)
    → q.active id ≡ o
    → IsConsistent q
    → IsConsistent (cancel_found now id o q)
cancel_found-IsConsistent now id none q e v =
    if_holds IsConsistent q.calling_expired _ _
      (record { sorted = v.sorted; distinct = v.distinct; below = v.below; matches = v.matches }) v
cancel_found-IsConsistent now id (some when) q e v =
    let found = sym (v.matches id) ∙ e in
    let q' = gone found in
    if_holds IsConsistent (is_due_before when (erase when id q.timers)) _ _
      (rearm-IsConsistent now _ _ q') q'
  where
    gone :
        key_of id q.timers ≡ some when
        → IsConsistent
            (record q { timers = erase when id q.timers; active = update id none q.active })
    gone found = record {
      sorted = erase-IsSorted when id q.timers v.sorted;
      distinct = erase-IsDistinct when id q.timers v.distinct;
      below = erase-Below q.next_timer_id when id q.timers v.below;
      matches = λ j. ground (arith, v.matches j, key_of-erase j id when q.timers v.distinct found);
    }

pub cancel_timer_in_loop-IsConsistent :
    (now id : ℕ) (q : Timers) → IsConsistent q → IsConsistent (cancel_timer_in_loop now id q)
unfolding cancel_timer_in_loop
cancel_timer_in_loop-IsConsistent now id q v =
    cancel_found-IsConsistent now id (q.active id) q refl v

-- The counter does not wrap.
abbrev pub HasIds : ℕ → Timers → Type 0
HasIds n q = q.next_timer_id + n < 2 ^ 64

bumped :
    (q : Timers)
    → HasIds 1 q
    → IsConsistent q
    → IsConsistent (record q { next_timer_id = (q.next_timer_id + 1) % 2 ^ 64 })
bumped q h v = record {
  sorted = v.sorted;
  distinct = v.distinct;
  below = Below-mono q.next_timer_id _ q.timers (omega arith) v.below;
  matches = v.matches;
}

pub call-IsConsistent :
    (c : Call) (q : Timers) → HasIds 1 q → IsConsistent q → IsConsistent (call c q)
unfolding call run_after run_every
call-IsConsistent (after now delay cb) q h v =
    add_timer_in_loop-IsConsistent now q.next_timer_id _ _ cb _
      (key_of-Below q.next_timer_id q.next_timer_id q.timers v.below (omega arith)) (omega arith)
      (bumped q h v)
call-IsConsistent (every now interval cb) q h v =
    add_timer_in_loop-IsConsistent now q.next_timer_id _ _ cb _
      (key_of-Below q.next_timer_id q.next_timer_id q.timers v.below (omega arith)) (omega arith)
      (bumped q h v)
call-IsConsistent (cancel now id) q h v = cancel_timer_in_loop-IsConsistent now id q v
