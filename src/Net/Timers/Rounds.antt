-- ===== src/Net/Timers/Rounds.antt =====
-- `HandleTimerfd`: which timers fire, and what stands in the tables afterwards.
use mini_reactor.Base.{
  ℕ, ◌<◌, ◌≡◌, ◌≢◌, refl, ap, ◌∙◌, sym, leb, ◌==◌, if◌then◌else◌, true, List, [], ◌∷◌, Option, none,
  some, arith, All, All-map, All-zip, Bool-cases, inl, inr,
}
use mini_reactor.Net.Timers.{Timer, Table, Timers, update, take_expired}
use mini_reactor.Net.Timers.Table.{key_of, From, IsSorted, IsDistinct, Below}
use mini_reactor.Net.Timers.Invariant.{IsConsistent}

-- The timers whose time has come, in the order of the table.
unfoldable pub due_timers : ℕ → Table → List Timer
due_timers now [] = []
due_timers now ((w, t) ∷ ts) = if leb w now then t ∷ due_timers now ts else due_timers now ts

unfoldable pub later_timers : ℕ → Table → Table
later_timers now [] = []
later_timers now ((w, t) ∷ ts) =
    if leb w now then later_timers now ts else (w, t) ∷ later_timers now ts

none_due :
    (now w : ℕ) (ts : Table)
    → now < w
    → From w ts
    → (due_timers now ts ≡ []) × (later_timers now ts ≡ ts)
unfolding due_timers later_timers
none_due now w [] h k = (refl, refl)
none_due now w ((u, t) ∷ ts) h k = ground (arith, none_due now w ts h k.1)

-- From a table in order, the first loop takes exactly the due timers, in order, and leaves exactly
-- the others.
pub take_expired_lem :
    (now : ℕ) (ts : Table) (active : ℕ → Option ℕ)
    → IsSorted ts
    → ((take_expired now ts active).0 ≡ due_timers now ts)
      × ((take_expired now ts active).1 ≡ later_timers now ts)
unfolding take_expired due_timers later_timers
take_expired_lem now [] active h = (refl, refl)
take_expired_lem now ((w, t) ∷ ts) active h =
    ground (arith, take_expired_lem now ts (update t.id none active) h.1, none_due now w ts)

-- The key of a timer and the timer.
unfoldable pub entry_of : ℕ → Table → Option (ℕ × Timer)
entry_of id [] = none
entry_of id ((w, t) ∷ ts) = if id == t.id then some (w, t) else entry_of id ts

entry_of-none : (j : ℕ) (ts : Table) → key_of j ts ≡ none → entry_of j ts ≡ none
unfolding entry_of key_of
entry_of-none j [] h = refl
entry_of-none j ((w, t) ∷ ts) h = ground (arith, entry_of-none j ts)

-- The key that is left to it by the first loop.
abbrev pub later_key : ℕ → Option (ℕ × Timer) → Option ℕ
later_key now none = none
later_key now (some (w, t)) = if leb w now then none else some w

later_key_all :
    (now w j : ℕ) (ts : Table) → now < w → From w ts → later_key now (entry_of j ts) ≡ key_of j ts
unfolding key_of entry_of
later_key_all now w j [] h k = refl
later_key_all now w j ((u, t) ∷ ts) h k = ground (arith, later_key_all now w j ts h k.1)

take_expired-active :
    (now j : ℕ) (ts : Table) (active : ℕ → Option ℕ)
    → IsSorted ts
    → IsDistinct ts
    → active j ≡ key_of j ts
    → (take_expired now ts active).2 j ≡ later_key now (entry_of j ts)
unfolding take_expired key_of entry_of
take_expired-active now j [] active h d e = e
take_expired-active now j ((w, t) ∷ ts) active h d e = ground (
  arith,
  take_expired-active now j ts (update t.id none active) h.1 d.1,
  later_key_all now w j ts,
  entry_of-none j ts,
)

key_of-later :
    (now j : ℕ) (ts : Table)
    → IsDistinct ts
    → key_of j (later_timers now ts) ≡ later_key now (entry_of j ts)
unfolding later_timers entry_of key_of
key_of-later now j [] d = refl
key_of-later now j ((w, t) ∷ ts) d = ground (arith, key_of-later now j ts d.1, entry_of-none j ts)

later_timers-From : (v now : ℕ) (ts : Table) → From v ts → From v (later_timers now ts)
unfolding later_timers
later_timers-From v now [] h = tt
later_timers-From v now ((w, t) ∷ ts) h = ground (arith, later_timers-From v now ts h.1)

later_timers-IsSorted : (now : ℕ) (ts : Table) → IsSorted ts → IsSorted (later_timers now ts)
unfolding later_timers
later_timers-IsSorted now [] h = tt
later_timers-IsSorted now ((w, t) ∷ ts) h =
    ground (arith, later_timers-IsSorted now ts h.1, later_timers-From w now ts h.0)

later_timers-absent :
    (now j : ℕ) (ts : Table) → key_of j ts ≡ none → key_of j (later_timers now ts) ≡ none
unfolding later_timers key_of
later_timers-absent now j [] h = refl
later_timers-absent now j ((w, t) ∷ ts) h = ground (arith, later_timers-absent now j ts)

later_timers-IsDistinct : (now : ℕ) (ts : Table) → IsDistinct ts → IsDistinct (later_timers now ts)
unfolding later_timers
later_timers-IsDistinct now [] h = tt
later_timers-IsDistinct now ((w, t) ∷ ts) h =
    ground (arith, later_timers-IsDistinct now ts h.1, later_timers-absent now t.id ts h.0)

later_timers-Below : (n now : ℕ) (ts : Table) → Below n ts → Below n (later_timers now ts)
unfolding later_timers
later_timers-Below n now [] h = tt
later_timers-Below n now ((w, t) ∷ ts) h = ground (arith, later_timers-Below n now ts h.1)

-- The state in which the second loop starts.
abbrev pub started : ℕ → Timers → Timers
started now q =
    let (expired, rest, active) = take_expired now q.timers q.active in
    record q {
      timers = rest;
      active = active;
      calling_expired = true;
      canceling = [];
      armed = none;
    }

pub started-IsConsistent : (now : ℕ) (q : Timers) → IsConsistent q → IsConsistent (started now q)
started-IsConsistent now q v =
    let e = (take_expired_lem now q.timers q.active v.sorted).1 in
    record {
      sorted = rw e (later_timers-IsSorted now q.timers v.sorted);
      distinct = rw e (later_timers-IsDistinct now q.timers v.distinct);
      below = rw e (later_timers-Below q.next_timer_id now q.timers v.below);
      matches = λ j.
          take_expired-active now j q.timers q.active v.sorted v.distinct (v.matches j)
          ∙ sym (ap (key_of j) e ∙ key_of-later now j q.timers v.distinct);
    }

pub due-absent :
    (now j : ℕ) (ts : Table) → key_of j ts ≡ none → All (λ t. t.id ≢ j) (due_timers now ts)
unfolding due_timers key_of
due-absent now j [] h = tt
due-absent now j ((w, t) ∷ ts) h = elim (Bool-cases (leb w now)) [
  | inl due ↦ rw due (ground arith, due-absent now j ts (ground arith))
  | inr later ↦ rw later (due-absent now j ts (ground arith))
]

-- The first loop leaves no key to a timer that it takes.
due-later :
    (now : ℕ) (ts : Table)
    → IsDistinct ts
    → All (λ u. later_key now (entry_of u.id ts) ≡ none) (due_timers now ts)
unfolding due_timers entry_of
due-later now [] d = tt
due-later now ((w, t) ∷ ts) d = elim (Bool-cases (leb w now)) [
  | inl due ↦ rw due (
    ground arith,
    All-map (λ u h. ground (arith, due)) (due_timers now ts) (due-later now ts d.1),
  )
  | inr later ↦ rw later (
      All-zip (λ u h ne. ground (arith, later)) (due_timers now ts) (due-later now ts d.1)
        (due-absent now t.id ts d.0))
]

-- The due timers are in neither table when the second loop starts, and each is there once.
abbrev pub AreOut : (ℕ → Option ℕ) → ℕ → List Timer → Type 0
AreOut active n [] = Unit
AreOut active n (t ∷ ts) =
    (active t.id ≡ none) × (t.id < n) × All (λ u. u.id ≢ t.id) ts × AreOut active n ts

due-AreOut :
    (now n : ℕ) (active : ℕ → Option ℕ) (ts : Table)
    → IsDistinct ts
    → Below n ts
    → All (λ u. active u.id ≡ none) (due_timers now ts)
    → AreOut active n (due_timers now ts)
unfolding due_timers
due-AreOut now n active [] d b h = tt
due-AreOut now n active ((w, t) ∷ ts) d b h = elim (Bool-cases (leb w now)) [
  | inl due ↦
      let h' = rw due at h in
      rw due (h'.0, b.0, due-absent now t.id ts d.0, due-AreOut now n active ts d.1 b.1 h'.1)
  | inr later ↦ rw later (due-AreOut now n active ts d.1 b.1 (rw later at h))
]

pub started-AreOut :
    (now : ℕ) (q : Timers)
    → IsConsistent q
    → AreOut (started now q).active q.next_timer_id (due_timers now q.timers)
started-AreOut now q v =
    due-AreOut now q.next_timer_id (started now q).active q.timers v.distinct v.below (
      All-map
        (λ u h.
          take_expired-active now u.id q.timers q.active v.sorted v.distinct (v.matches u.id) ∙ h)
        (due_timers now q.timers) (due-later now q.timers v.distinct))

pub started-active :
    (now j : ℕ) (q : Timers)
    → IsConsistent q
    → (started now q).active j ≡ later_key now (entry_of j q.timers)
started-active now j q v =
    take_expired-active now j q.timers q.active v.sorted v.distinct (v.matches j)
