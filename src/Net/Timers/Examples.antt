-- ===== src/Net/Timers/Examples.antt =====
-- Three timers at concrete times.
use mini_reactor.Base.{
  ℕ, ◌≡◌, refl, List, [], ◌∷◌, none, some, arith, true, inl, ◌==◌, if◌then◌else◌,
}
use mini_reactor.Net.Timers.{
  Timers, Interval, Call, after, cancel, once, take_expired, handle_timerfd, cancel_timer_in_loop,
}
use mini_reactor.Net.Timers.Table.{key_of}
use mini_reactor.Net.Timers.Invariant.{IsConsistent}
use mini_reactor.Net.Timers.Rounds.{due_timers, later_timers, entry_of, take_expired_lem}
use mini_reactor.Net.Timers.Firing.{handle_timerfd-IsConsistent, handle_timerfd-active}
use mini_reactor.Net.Timers.Alarm.{
  IsCancelled, cancel_timer_in_loop-IsCancelled, HasAlarm, rings, act, act-HasAlarm,
}

abbrev second : Interval
second = record { positive = true; ns = 1000000000 }

-- Timer 1 is periodic and due at 5, timer 2 runs once at 7, timer 3 at 5000.
abbrev three : Timers
three = record {
  timers =
      (5, record { id = 1; cb = some 0; interval = second })
      ∷ (7, record { id = 2; cb = none; interval = once })
      ∷ (5000, record { id = 3; cb = none; interval = once })
      ∷ [];
  active =
      λ j. if j == 1 then some 5 else if j == 2 then some 7 else if j == 3 then some 5000 else none;
  calling_expired = true;
  canceling = [];
  next_timer_id = 4;
  armed = some 1005;
}

-- Callback 0 adds a timer and cancels timer 3.
abbrev script : ℕ → List Call
script cb = if cb == 0 then after 9 100 none ∷ cancel 9 3 ∷ [] else []

abbrev quiet : ℕ → List Call
quiet cb = after 9 100 none ∷ []

three-IsConsistent : IsConsistent three
unfolding key_of
three-IsConsistent = record {
  sorted = omega arith;
  distinct = (refl, (refl, (refl, tt)));
  below = omega arith;
  matches = λ j. ground arith;
}

take_expired_lem_example :
    ((take_expired 9 three.timers three.active).0 ≡ due_timers 9 three.timers)
    × ((take_expired 9 three.timers three.active).1 ≡ later_timers 9 three.timers)
take_expired_lem_example = take_expired_lem 9 three.timers three.active (omega arith)

handle_timerfd-IsConsistent_example : IsConsistent (handle_timerfd script 9 10 three)
unfolding due_timers
handle_timerfd-IsConsistent_example =
    handle_timerfd-IsConsistent script 9 10 three (omega arith) three-IsConsistent

handle_timerfd-active_example : (handle_timerfd quiet 9 10 three).active 1 ≡ some 1000000009
unfolding due_timers entry_of
handle_timerfd-active_example =
    handle_timerfd-active quiet 9 10 1 three (omega arith) (λ cb. ((λ h. h), tt)) (omega arith)
      three-IsConsistent

cancel_timer_in_loop-IsCancelled_example : IsCancelled 2 three (cancel_timer_in_loop 6 2 three)
cancel_timer_in_loop-IsCancelled_example =
    cancel_timer_in_loop-IsCancelled 6 2 three three-IsConsistent

act-HasAlarm_example :
    HasAlarm 9 (act script 9 (rings 9) three).timers (act script 9 (rings 9) three).armed
act-HasAlarm_example =
    act-HasAlarm script 4 9 (rings 9) three (omega arith) (omega arith)
      (1005, refl, inl (omega arith))
