-- ===== src/Net/Timers/Alarm.antt =====
-- Cancelling a timer, and the alarm of the timer descriptor.
use mini_reactor.Base.{
  if_holds, ℕ, ◌+◌, ◌-◌, ◌≤◌, ◌≡◌, ◌≢◌, refl, ap, ◌∙◌, sym, subst, ltb, ◌==◌, ◌&&◌, if◌then◌else◌,
  false, List, [], ◌∷◌, ◌⊎◌, inl, inr, Option, none, some, arith, All, Bool-cases,
}
use mini_reactor.Net.Timers.{
  Timer, Table, Timers, Interval, Call, emplace, erase, update, reset_timerfd, rearm, is_earliest,
  is_due_before, add_timer_in_loop, cancel_found, cancel_timer_in_loop, handle_timerfd,
}
use mini_reactor.Net.Timers.Table.{From, IsSorted}
use mini_reactor.Net.Timers.Invariant.{IsConsistent, cancel_timer_in_loop-IsConsistent}
use mini_reactor.Net.Timers.Handle.{rearm-SameTables}
use mini_reactor.Net.Timers.Rounds.{due_timers, due-absent}
use mini_reactor.Net.Timers.Firing.{ran, handle_timerfd-ran}

cancel_found-active :
    (now id j : ℕ) (o : Option ℕ) (q : Timers)
    → q.active id ≡ o
    → (cancel_found now id o q).active j ≡ (if j == id then none else q.active j)
cancel_found-active now id j none q e =
    if_holds {A = Timers} (λ r. r.active j ≡ (if j == id then none else q.active j))
      q.calling_expired _ _ unchanged unchanged
  where
    unchanged : q.active j ≡ (if j == id then none else q.active j)
    unchanged = ground (arith, ap q.active, e)
cancel_found-active now id j (some when) q e =
    if_holds {A = Timers} (λ r. r.active j ≡ (if j == id then none else q.active j))
      (is_due_before when (erase when id q.timers)) _ _
      (ap (λ f. f j)
        (rearm-SameTables now (erase when id q.timers)
          (record q { timers = erase when id q.timers; active = update id none q.active })).active)
      refl

-- What `CancelTimerInLoop(id)` changes of the tables, and what fires afterwards.
pub record IsCancelled (id : ℕ) (q r : Timers) : Type 0 where
  pub keys : (j : ℕ) → r.active j ≡ (if j == id then none else q.active j)
  pub consistent : IsConsistent r
  pub never_due : (later : ℕ) → All (λ t. t.id ≢ id) (due_timers later r.timers)

-- From consistent tables, cancelling takes the timer out of both, and no other, and keeps them
-- consistent; the timer is not among the due ones at any later time.
pub cancel_timer_in_loop-IsCancelled :
    (now id : ℕ) (q : Timers) → IsConsistent q → IsCancelled id q (cancel_timer_in_loop now id q)
unfolding cancel_timer_in_loop
cancel_timer_in_loop-IsCancelled now id q v =
    let r = cancel_timer_in_loop now id q in
    let w = cancel_timer_in_loop-IsConsistent now id q v in
    let keys = λ (j : ℕ). cancel_found-active now id j (q.active id) q refl in
    record {
      keys = keys;
      consistent = w;
      never_due =
          λ later. due-absent later id r.timers (sym (w.matches id) ∙ keys id ∙ ground arith);
    }

-- The descriptor is armed, and goes off a microsecond after the first key at the latest, or after
-- the time on the clock where that key has passed.
abbrev pub HasAlarm : ℕ → Table → Option ℕ → Type 0
HasAlarm clock [] armed = Unit
HasAlarm clock ((w, t) ∷ ts) armed =
    (a : ℕ) × (armed ≡ some a) × ((a ≤ w + 1000) ⊎ (a ≤ clock + 1000))

pub HasAlarm-mono :
    (clock later : ℕ) (ts : Table) (armed : Option ℕ)
    → clock ≤ later
    → HasAlarm clock ts armed
    → HasAlarm later ts armed
HasAlarm-mono clock later [] armed h k = tt
HasAlarm-mono clock later ((w, t) ∷ ts) armed h (a, e, bound) = (a, e, omega arith)

rearm-HasAlarm : (now : ℕ) (ts : Table) (q : Timers) → HasAlarm now ts (rearm now ts q).armed
unfolding reset_timerfd
rearm-HasAlarm now [] q = tt
rearm-HasAlarm now ((w, t) ∷ ts) q =
    (now + (if ltb (w - now) 1000 then 1000 else w - now), refl, ground arith)

emplace_later :
    (now when : ℕ) (t : Timer) (ts : Table) (armed : Option ℕ)
    → is_earliest when ts ≡ false
    → HasAlarm now ts armed
    → HasAlarm now (emplace when t ts) armed
unfolding emplace
emplace_later now when t [] armed e h = cc
emplace_later now when t ((w, u) ∷ ts) armed e h = rw e h

erase_later :
    (now when id : ℕ) (ts : Table) (armed : Option ℕ)
    → IsSorted ts
    → is_due_before when (erase when id ts) ≡ false
    → HasAlarm now ts armed
    → HasAlarm now (erase when id ts) armed
unfolding erase
erase_later now when id [] armed s e h = tt
erase_later now when id ((w, u) ∷ ts) armed s e h = elim (Bool-cases (w == when && u.id == id)) [
  | inl hit ↦ rw hit (none_first (ground arith) ts s.0 (rw hit at e))
  | inr other ↦ rw other h
]
  where
    none_first :
        w ≡ when
        → (rest : Table) → From w rest
        → is_due_before when rest ≡ false
        → HasAlarm now rest armed
    none_first q [] k d = tt
    none_first q ((v, x) ∷ rest) k d = absurd (ground arith)

rearmed :
    (now : ℕ) (r : Timers) → HasAlarm now (rearm now r.timers r).timers (rearm now r.timers r).armed
rearmed now r =
    subst (λ x. HasAlarm now x (rearm now r.timers r).armed)
      (sym (rearm-SameTables now r.timers r).timers) (rearm-HasAlarm now r.timers r)

pub add_timer_in_loop-HasAlarm :
    (now id when : ℕ) (interval : Interval) (cb : Option ℕ) (q : Timers)
    → HasAlarm now q.timers q.armed
    → HasAlarm now
        (add_timer_in_loop now id when interval cb q).timers
        (add_timer_in_loop now id when interval cb q).armed
unfolding add_timer_in_loop
add_timer_in_loop-HasAlarm now id when interval cb q h =
    elim (Bool-cases (is_earliest when q.timers)) [
      | inl first ↦ rw first (rearmed now _)
      | inr behind ↦ rw behind (emplace_later now when _ q.timers q.armed behind h)
    ]

pub cancel_timer_in_loop-HasAlarm :
    (now id : ℕ) (q : Timers)
    → IsSorted q.timers
    → HasAlarm now q.timers q.armed
    → HasAlarm now (cancel_timer_in_loop now id q).timers (cancel_timer_in_loop now id q).armed
unfolding cancel_timer_in_loop
cancel_timer_in_loop-HasAlarm now id q s h = found (q.active id)
  where
    found :
        (o : Option ℕ)
        → HasAlarm now (cancel_found now id o q).timers (cancel_found now id o q).armed
    found none =
        if_holds {A = Timers} (λ r. HasAlarm now r.timers r.armed) q.calling_expired
          (record q { canceling = id ∷ q.canceling }) q h h
    found (some when) = elim (Bool-cases (is_due_before when (erase when id q.timers))) [
      | inl first ↦ rw first (rearmed now _)
      | inr behind ↦ rw behind (erase_later now when id q.timers q.armed s behind h)
    ]

-- What the loop does to its timers.
pub data Act : Type 0 where
  adds : ℕ → ℕ → Interval → Option ℕ → Act
  cancels : ℕ → Act
  rings : ℕ → Act

module _ (calls_of : ℕ → List Call) where
  -- The act at a time on the clock.
  unfoldable pub act : ℕ → Act → Timers → Timers
  act now (adds id when interval cb) q = add_timer_in_loop now id when interval cb q
  act now (cancels id) q = cancel_timer_in_loop now id q
  act now (rings read_at) q = handle_timerfd calls_of read_at now q

  -- No wake-up is missed: from a table in order, with the descriptor armed for it, adding,
  -- cancelling and firing at a time not before each leave the descriptor armed while a timer is in
  -- the table, at a microsecond after its first key at the latest, or after the time on the clock
  -- if that key has passed.
  pub act-HasAlarm :
      (before now : ℕ) (a : Act) (q : Timers)
      → before ≤ now
      → IsSorted q.timers
      → HasAlarm before q.timers q.armed
      → HasAlarm now (act now a q).timers (act now a q).armed
  unfolding act
  act-HasAlarm before now (adds id when interval cb) q le s h =
      add_timer_in_loop-HasAlarm now id when interval cb q
        (HasAlarm-mono before now q.timers q.armed le h)
  act-HasAlarm before now (cancels id) q le s h =
      cancel_timer_in_loop-HasAlarm now id q s (HasAlarm-mono before now q.timers q.armed le h)
  act-HasAlarm before now (rings read_at) q le s h =
      rw (handle_timerfd-ran calls_of read_at now q s) (rearmed now (ran calls_of read_at q))
