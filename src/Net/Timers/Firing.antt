-- ===== src/Net/Timers/Firing.antt =====
-- The second loop of `HandleTimerfd`, and the whole of it.
use mini_reactor.Base.{
  if_holds, length, ℕ, ◌+◌, ◌<◌, ◌≡◌, ◌≢◌, refl, ap, ◌∙◌, sym, leb, ◌==◌, if◌then◌else◌, false, not,
  ◌&&◌, List, [], ◌∷◌, Option, none, some, arith, All, Bool-cases, ==_iff, inl, inr,
}
use mini_reactor.Net.Timers.{
  Timer, Table, Timers, Call, contains, rearm, fire, renew, run_expired, handle_timerfd,
}
use mini_reactor.Net.Timers.Table.{key_of, IsSorted, IsDistinct}
use mini_reactor.Net.Timers.Invariant.{IsConsistent, HasIds, emplaced, rearm-IsConsistent}
use mini_reactor.Net.Timers.Handle.{
  Cancels, Leaves, run_calls-Leaves, Leaves-self, Keeps, Keeps-self, run_calls-Keeps,
  rearm-SameTables, run_calls-IsConsistent,
}
use mini_reactor.Net.Timers.Rounds.{
  due_timers, entry_of, later_key, take_expired_lem, started, started-IsConsistent, started-AreOut,
  started-active, AreOut, due-absent,
}

-- A timer that ran: its key if it is periodic, and none if it is not.
abbrev pub renewed_key : ℕ → Timer → Option ℕ
renewed_key now t = if t.interval.positive then some (now + t.interval.ns) else none

-- The key of a timer after a round that did not cancel it.
abbrev pub key_after : ℕ → Option (ℕ × Timer) → Option ℕ
key_after now none = none
key_after now (some (w, t)) = if leb w now then renewed_key now t else some w

abbrev set_key : ℕ → ℕ → Timer → Option ℕ → Option ℕ
set_key now j t old = if j == t.id && t.interval.positive then some (now + t.interval.ns) else old

abbrev keys_after : ℕ → ℕ → List Timer → Option ℕ → Option ℕ
keys_after now j [] old = old
keys_after now j (t ∷ ts) old = keys_after now j ts (set_key now j t old)

keys_after_other :
    (now j : ℕ) (ts : List Timer) (old : Option ℕ)
    → All (λ u. u.id ≢ j) ts
    → keys_after now j ts old ≡ old
keys_after_other now j [] old h = refl
keys_after_other now j (t ∷ ts) old (ne, h) =
    keys_after_other now j ts (set_key now j t old) h ∙ ground arith

keys_after_lem :
    (now j : ℕ) (ts : Table)
    → IsDistinct ts
    → keys_after now j (due_timers now ts) (later_key now (entry_of j ts))
      ≡ key_after now (entry_of j ts)
unfolding due_timers entry_of
keys_after_lem now j [] d = refl
keys_after_lem now j ((w, t) ∷ ts) d = elim (Bool-cases (j == t.id)) [
  | inl same ↦
      let e = (==_iff j t.id).0 same in
      let absent : key_of j ts ≡ none = ap (λ i. key_of i ts) e ∙ d.0 in
      let gone = due-absent now j ts absent in
      ground (
        arith,
        same,
        keys_after_other now j (due_timers now ts) (set_key now j t none) gone,
        keys_after_other now j (due_timers now ts) (some w) gone,
      )
  | inr other ↦ ground (arith, other, keys_after_lem now j ts d.1)
]

module _ (calls_of : ℕ → List Call) where
  abbrev count_calls : Option ℕ → ℕ
  count_calls none = 0
  count_calls (some cb) = length (calls_of cb)

  -- How many calls the callbacks of these timers make.
  abbrev pub total_calls : List Timer → ℕ
  total_calls [] = 0
  total_calls (t ∷ ts) = count_calls t.cb + total_calls ts

  -- No callback cancels the timer.
  abbrev pub NoneCancels : ℕ → Type 0
  NoneCancels j = (cb : ℕ) → All (λ c. ¬ Cancels j c) (calls_of cb)

  fire-Keeps :
      (cb : Option ℕ) (q : Timers)
      → HasIds (count_calls cb) q
      → Keeps (count_calls cb) q (fire calls_of cb q)
  fire-Keeps none q h = Keeps-self q
  fire-Keeps (some cb) q h = run_calls-Keeps (calls_of cb) q h

  fire-Leaves :
      (j : ℕ) (cb : Option ℕ) (q : Timers)
      → j < q.next_timer_id
      → NoneCancels j
      → HasIds (count_calls cb) q
      → Leaves j (count_calls cb) q (fire calls_of cb q)
  fire-Leaves j none q low quiet h = Leaves-self j q
  fire-Leaves j (some cb) q low quiet h = run_calls-Leaves j (calls_of cb) q low (quiet cb) h

  fire-IsConsistent :
      (cb : Option ℕ) (q : Timers)
      → HasIds (count_calls cb) q
      → IsConsistent q
      → IsConsistent (fire calls_of cb q)
  fire-IsConsistent none q h v = v
  fire-IsConsistent (some cb) q h v = run_calls-IsConsistent (calls_of cb) q h v

  renew-IsConsistent :
      (now : ℕ) (t : Timer) (q : Timers)
      → q.active t.id ≡ none
      → t.id < q.next_timer_id
      → IsConsistent q
      → IsConsistent (renew calls_of now t q)
  unfolding renew
  renew-IsConsistent now t q e low v =
      if_holds IsConsistent (t.interval.positive && not (contains q.canceling t.id)) _ _
        (emplaced (now + t.interval.ns) t q (sym (v.matches t.id) ∙ e) low v) v

  -- `renew` changes nothing of other timers, and no id.
  record Renews (now : ℕ) (t : Timer) (q r : Timers) : Type 0 where
    pub next : r.next_timer_id ≡ q.next_timer_id
    pub canceling : r.canceling ≡ q.canceling
    pub others : (j : ℕ) → j ≢ t.id → r.active j ≡ q.active j
    pub key : (j : ℕ) → contains q.canceling j ≡ false → r.active j ≡ set_key now j t (q.active j)

  renew-Renews : (now : ℕ) (t : Timer) (q : Timers) → Renews now t q (renew calls_of now t q)
  unfolding renew
  renew-Renews now t q = record {
    next = ground arith;
    canceling = ground arith;
    others = λ j ne. ground arith;
    key = λ j h. ground (arith, ap (contains q.canceling));
  }

  AreOut-Keeps :
      {n : ℕ} {q r : Timers} (ts : List Timer)
      → Keeps n q r
      → AreOut q.active q.next_timer_id ts
      → AreOut r.active r.next_timer_id ts
  AreOut-Keeps [] k h = tt
  AreOut-Keeps (t ∷ ts) k (out, low, ne, more) =
      (k.absent t.id low out, omega (arith, k.next_from), ne, AreOut-Keeps ts k more)

  AreOut-Renews :
      {now : ℕ} {t : Timer} {q r : Timers} (ts : List Timer)
      → Renews now t q r
      → All (λ u. u.id ≢ t.id) ts
      → AreOut q.active q.next_timer_id ts
      → AreOut r.active r.next_timer_id ts
  AreOut-Renews [] k ne h = tt
  AreOut-Renews (u ∷ ts) k (ne, nes) (out, low, distinct, more) =
      (k.others u.id ne ∙ out, omega (arith, k.next), distinct, AreOut-Renews ts k nes more)

  run_expired-IsConsistent :
      (now : ℕ) (ts : List Timer) (q : Timers)
      → AreOut q.active q.next_timer_id ts
      → HasIds (total_calls ts) q
      → IsConsistent q
      → IsConsistent (run_expired calls_of now ts q)
  unfolding run_expired
  run_expired-IsConsistent now [] q out h v = v
  run_expired-IsConsistent now (t ∷ ts) q (out, low, ne, more) h v =
      let q1 = fire calls_of t.cb q in
      let kept = fire-Keeps t.cb q (omega arith) in
      let renewed = renew-Renews now t q1 in
      run_expired-IsConsistent now ts (renew calls_of now t q1)
        (AreOut-Renews ts renewed ne (AreOut-Keeps ts kept more))
        (omega (arith, renewed.next, kept.next_to))
        (renew-IsConsistent now t q1 (kept.absent t.id low out) (omega (arith, kept.next_from))
          (fire-IsConsistent t.cb q (omega arith) v))

  run_expired-active :
      (now j : ℕ) (ts : List Timer) (q : Timers)
      → j < q.next_timer_id
      → NoneCancels j
      → contains q.canceling j ≡ false
      → HasIds (total_calls ts) q
      → (run_expired calls_of now ts q).active j ≡ keys_after now j ts (q.active j)
  unfolding run_expired
  run_expired-active now j [] q low quiet c h = refl
  run_expired-active now j (t ∷ ts) q low quiet c h =
      let q1 = fire calls_of t.cb q in
      let left = fire-Leaves j t.cb q low quiet (omega arith) in
      let renewed = renew-Renews now t q1 in
      let rest =
        run_expired-active now j ts (renew calls_of now t q1)
          (omega (arith, left.next_from, renewed.next)) quiet
          (ap (λ l. contains l j) renewed.canceling ∙ left.canceling ∙ c)
          (omega (arith, left.next_to, renewed.next)) in
      rest
      ∙ ap (keys_after now j ts)
          (renewed.key j (left.canceling ∙ c) ∙ ap (set_key now j t) left.active)

  -- The state before the alarm is set anew.
  abbrev pub ran : ℕ → Timers → Timers
  ran now q = record (run_expired calls_of now (due_timers now q.timers) (started now q)) {
    calling_expired = false;
  }

  pub handle_timerfd-ran :
      (now later : ℕ) (q : Timers)
      → IsSorted q.timers
      → handle_timerfd calls_of now later q ≡ rearm later (ran now q).timers (ran now q)
  unfolding handle_timerfd
  handle_timerfd-ran now later q h =
      ap
        (λ expired.
          let r = record (run_expired calls_of now expired (started now q)) {
            calling_expired = false;
          } in
          rearm later r.timers r)
        (take_expired_lem now q.timers q.active h).0

  -- A round keeps `timers_` and `active_` in agreement and in order, if they were, whatever its
  -- callbacks add and cancel, as long as they do not use up the 64-bit ids.
  pub handle_timerfd-IsConsistent :
      (now later : ℕ) (q : Timers)
      → HasIds (total_calls (due_timers now q.timers)) q
      → IsConsistent q
      → IsConsistent (handle_timerfd calls_of now later q)
  handle_timerfd-IsConsistent now later q h v =
      let r = run_expired calls_of now (due_timers now q.timers) (started now q) in
      let w =
        run_expired-IsConsistent now (due_timers now q.timers) (started now q)
          (started-AreOut now q v) h (started-IsConsistent now q v) in
      rw (handle_timerfd-ran now later q v.sorted) (
        rearm-IsConsistent later r.timers (record r { calling_expired = false })
          (record {
            sorted = w.sorted;
            distinct = w.distinct;
            below = w.below;
            matches = w.matches;
          }))

  -- After a round from consistent tables, whose callbacks do not use up the 64-bit ids, a timer
  -- with an id given out before that no callback cancels stands at `now` and its interval if it
  -- was due and is periodic, is gone if it was due and is not, and stands as before if it was not
  -- due.
  pub handle_timerfd-active :
      (now later j : ℕ) (q : Timers)
      → j < q.next_timer_id
      → NoneCancels j
      → HasIds (total_calls (due_timers now q.timers)) q
      → IsConsistent q
      → (handle_timerfd calls_of now later q).active j ≡ key_after now (entry_of j q.timers)
  unfolding contains
  handle_timerfd-active now later j q low quiet h v =
      ap (λ r. r.active j) (handle_timerfd-ran now later q v.sorted)
      ∙ ap (λ f. f j) (rearm-SameTables later (ran now q).timers (ran now q)).active
      ∙ run_expired-active now j (due_timers now q.timers) (started now q) low quiet refl h
      ∙ ap (keys_after now j (due_timers now q.timers)) (started-active now j q v)
      ∙ keys_after_lem now j q.timers v.distinct
