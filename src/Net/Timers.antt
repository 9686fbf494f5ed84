-- ===== src/Net/Timers.antt =====
-- The timers of the event loop: include/reactor/net/EventLoop.h and src/net/EventLoop.cpp. Times
-- and durations are nanoseconds. All of this runs in the loop's thread. What a callback does to
-- the timers is a list of calls, `calls_of cb`, a parameter.
pub mod Table
pub mod Invariant
pub mod Handle
pub mod Rounds
pub mod Firing
pub mod Alarm
mod Examples
use mini_reactor.Base.{
  ℕ, zero, suc, ◌+◌, ◌-◌, ◌%◌, ◌^◌, ltb, leb, ◌==◌, if◌then◌else◌, Bool, true, false, not, ◌&&◌,
  ◌||◌, List, [], ◌∷◌, ◌++◌, Option, none, some,
}

-- `interval_sec`: whether it is above 0.0, and the duration that it is cast to.
pub record Interval : Type 0 where
  pub positive : Bool
  pub ns : ℕ

abbrev pub once : Interval
once = record { positive = false; ns = 0 }

-- `cb` names a callback, or is empty.
pub record Timer : Type 0 where
  pub id : ℕ
  pub cb : Option ℕ
  pub interval : Interval

-- `multimap<TimePoint, Timer>`, in the order of its keys.
abbrev pub Table : Type 0
Table = List (ℕ × Timer)

-- A new entry stands behind those of the same key.
unfoldable pub emplace : ℕ → Timer → Table → Table
emplace when t [] = (when, t) ∷ []
emplace when t ((w, u) ∷ ts) =
    if ltb when w then (when, t) ∷ (w, u) ∷ ts else (w, u) ∷ emplace when t ts

-- The entry of the key's range that has the id.
unfoldable pub erase : ℕ → ℕ → Table → Table
erase when id [] = []
erase when id ((w, u) ∷ ts) = if w == when && u.id == id then ts else (w, u) ∷ erase when id ts

pub record Timers : Type 0 where
  pub timers : Table
  pub active : ℕ → Option ℕ
  pub calling_expired : Bool
  pub canceling : List ℕ
  pub next_timer_id : ℕ
  -- When the timer descriptor goes off, if it is armed.
  pub armed : Option ℕ

abbrev pub update : ℕ → Option ℕ → (ℕ → Option ℕ) → ℕ → Option ℕ
update id v active j = if j == id then v else active j

unfoldable pub contains : List ℕ → ℕ → Bool
contains [] a = false
contains (x ∷ xs) a = x == a || contains xs a

unfoldable pub reset_timerfd : ℕ → ℕ → Timers → Timers
reset_timerfd now earliest q =
    let ns = earliest - now in record q { armed = some (now + (if ltb ns 1000 then 1000 else ns)) }

-- `if (!timers_.empty()) ResetTimerfd(timers_.begin()->first)`
abbrev pub rearm : ℕ → Table → Timers → Timers
rearm now [] q = q
rearm now ((w, t) ∷ ts) q = reset_timerfd now w q

abbrev pub is_earliest : ℕ → Table → Bool
is_earliest when [] = true
is_earliest when ((w, t) ∷ ts) = ltb when w

unfoldable pub add_timer_in_loop : ℕ → ℕ → ℕ → Interval → Option ℕ → Timers → Timers
unfolding reset_timerfd emplace
add_timer_in_loop now id when interval cb q =
    let timers = emplace when (record { id = id; cb = cb; interval = interval }) q.timers in
    let q' = record q { timers = timers; active = update id (some when) q.active } in
    if is_earliest when q.timers then rearm now timers q' else q'

-- `!timers_.empty() && when <= timers_.begin()->first`
abbrev pub is_due_before : ℕ → Table → Bool
is_due_before when [] = false
is_due_before when ((w, t) ∷ ts) = leb when w

abbrev pub cancel_found : ℕ → ℕ → Option ℕ → Timers → Timers
cancel_found now id (some when) q =
    let timers = erase when id q.timers in
    let q' = record q { timers = timers; active = update id none q.active } in
    if is_due_before when timers then rearm now timers q' else q'
cancel_found now id none q =
    if q.calling_expired then record q { canceling = id ∷ q.canceling } else q

unfoldable pub cancel_timer_in_loop : ℕ → ℕ → Timers → Timers
unfolding reset_timerfd erase
cancel_timer_in_loop now id q = cancel_found now id (q.active id) q

-- `fetch_add(1)` on the `uint64_t` counter.
unfoldable pub run_after : ℕ → ℕ → Option ℕ → Timers → ℕ × Timers
unfolding add_timer_in_loop
run_after now delay cb q =
    let id = q.next_timer_id in
    (
      id,
      add_timer_in_loop now id (now + delay) once cb
          (record q { next_timer_id = (id + 1) % 2 ^ 64 }),
    )

unfoldable pub run_every : ℕ → Interval → Option ℕ → Timers → ℕ × Timers
unfolding add_timer_in_loop
run_every now interval cb q =
    let id = q.next_timer_id in
    (
      id,
      add_timer_in_loop now id (now + interval.ns) interval cb
          (record q { next_timer_id = (id + 1) % 2 ^ 64 }),
    )

-- A call that a callback makes, with the time on the clock.
pub data Call : Type 0 where
  after : ℕ → ℕ → Option ℕ → Call
  every : ℕ → Interval → Option ℕ → Call
  cancel : ℕ → ℕ → Call

unfoldable pub call : Call → Timers → Timers
unfolding run_after run_every cancel_timer_in_loop
call (after now delay cb) q = (run_after now delay cb q).1
call (every now interval cb) q = (run_every now interval cb q).1
call (cancel now id) q = cancel_timer_in_loop now id q

unfoldable pub run_calls : List Call → Timers → Timers
unfolding call
run_calls [] q = q
run_calls (c ∷ cs) q = run_calls cs (call c q)

-- The first loop of `HandleTimerfd`: the timers that are due, taken out of both tables.
unfoldable pub take_expired : ℕ → Table → (ℕ → Option ℕ) → List Timer × Table × (ℕ → Option ℕ)
take_expired now [] active = ([], [], active)
take_expired now ((w, t) ∷ ts) active =
    let (expired, rest, active') = take_expired now ts (update t.id none active) in
    if leb w now then (t ∷ expired, rest, active') else ([], (w, t) ∷ ts, active)

module _ (calls_of : ℕ → List Call) where
  abbrev pub fire : Option ℕ → Timers → Timers
  fire none q = q
  fire (some cb) q = run_calls (calls_of cb) q

  -- A periodic timer that was not cancelled in this round is put back.
  unfoldable pub renew : ℕ → Timer → Timers → Timers
  unfolding emplace contains
  renew now t q =
      if t.interval.positive && not (contains q.canceling t.id)
      then record q {
        timers = emplace (now + t.interval.ns) t q.timers;
        active = update t.id (some (now + t.interval.ns)) q.active;
      }
      else q

  -- The second loop; the list is that of the callbacks that ran.
  unfoldable pub run_expired : ℕ → List Timer → Timers → Timers
  unfolding run_calls renew
  run_expired now [] q = q
  run_expired now (t ∷ ts) q = run_expired now ts (renew now t (fire t.cb q))

  -- `now` is the reading of the clock; `later` is that of the last `ResetTimerfd`.
  unfoldable pub handle_timerfd : ℕ → ℕ → Timers → Timers
  unfolding take_expired run_expired reset_timerfd
  handle_timerfd now later q =
      let (expired, rest, active) = take_expired now q.timers q.active in
      let started = record q {
        timers = rest;
        active = active;
        calling_expired = true;
        canceling = [];
        armed = none;
      } in
      let ran = run_expired now expired started in
      let done = record ran { calling_expired = false } in rearm later done.timers done
