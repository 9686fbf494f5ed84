-- ===== src/App/Comments/Database/Ending.antt =====
-- The end of the database thread, whatever SQLite does.
use mini_reactor.Base.{
  ℕ, zero, suc, ◌≤◌, ◌≡◌, ◌≢◌, refl, sym, ap, ◌∙◌, subst, true, false, if◌then◌else◌, List, [], ◌∷◌,
  arith,
}
use mini_reactor.App.Comments.{DbTask}
use mini_reactor.App.Comments.Database.{
  Sqlite, Worker, Waiting, awake, tested, asleep, turn, move, next_round, notify, woken, join,
  shutdown,
}

module _ (sql : Sqlite) where
  turn_once : (w : Worker sql) → w.running ≡ true → turn sql w ≡ move sql w.waiting w
  unfolding turn
  turn_once w e = ap (λ b. if b then move sql w.waiting w else w) e

  join-ended : (fuel : ℕ) (w : Worker sql) → w.running ≡ false → join sql fuel w ≡ w
  unfolding join turn
  join-ended zero w e = refl
  join-ended (suc fuel) w e =
      ap (λ b. join sql fuel (if b then move sql w.waiting w else w)) e ∙ join-ended fuel w e

  -- Two moves of the thread and more, if it has ended after two.
  join_more :
      (fuel : ℕ) (w : Worker sql)
      → 2 ≤ fuel
      → (turn sql (turn sql w)).running ≡ false
      → join sql fuel w ≡ turn sql (turn sql w)
  unfolding join
  join_more zero w h e = absurd (omega arith)
  join_more (suc zero) w h e = absurd (omega arith)
  join_more (suc (suc fuel)) w h e = join-ended fuel (turn sql (turn sql w)) e

  -- A thread that is told to stop and is awake: it writes what waits, if anything does, and ends.
  abbrev pub last_batch : List DbTask → Worker sql → Worker sql
  last_batch [] w = record w { running = false }
  last_batch (task ∷ tasks) w = record (next_round sql (task ∷ tasks) w) { running = false }

  awake_turn :
      (w : Worker sql)
      → w.running ≡ true
      → w.waiting ≡ awake
      → turn sql w ≡ next_round sql w.repo.db_queue w
  awake_turn w running wakes = turn_once w running ∙ ap (λ p. move sql p w) wakes

  -- The condition holds, and the queue is empty.
  last_turn :
      (w : Worker sql)
      → w.running ≡ true
      → w.stop_requested ≡ true
      → w.waiting ≡ awake
      → w.repo.db_queue ≡ []
      → turn sql w ≡ record w { running = false }
  last_turn w running stop wakes none_left =
      awake_turn w running wakes
      ∙ ap (λ q. next_round sql q w) none_left
      ∙ ap (λ b. if b then record w { running = false } else record w { waiting = tested }) stop

  ends_in_two :
      (w : Worker sql)
      → w.running ≡ true
      → w.stop_requested ≡ true
      → w.waiting ≡ awake
      → turn sql (turn sql w) ≡ last_batch w.repo.db_queue w
  unfolding turn
  ends_in_two w running stop wakes = by_queue w.repo.db_queue refl
    where
      by_queue :
          (queue : List DbTask)
          → w.repo.db_queue ≡ queue
          → turn sql (turn sql w) ≡ last_batch queue w
      by_queue [] e = ap (λ v. turn sql v) (last_turn w running stop wakes e)
      by_queue (task ∷ tasks) e =
          ap (λ v. turn sql v) (awake_turn w running wakes ∙ ap (λ q. next_round sql q w) e)
          ∙ last_turn (next_round sql (task ∷ tasks) w) running stop wakes refl

  -- The notice reaches a thread that is not between its test and its sleep.
  woken-awake : (p : Waiting sql) → p ≢ tested → woken sql p ≡ awake
  woken-awake awake h = refl
  woken-awake tested h = absurd (h refl)
  woken-awake asleep h = refl

  -- The thread that `Shutdown` leaves.
  pub shutdown-last_batch :
      (fuel : ℕ) (w : Worker sql)
      → 2 ≤ fuel
      → w.running ≡ true
      → w.waiting ≢ tested
      → shutdown sql fuel w
        ≡ last_batch w.repo.db_queue (notify sql (record w { stop_requested = true }))
  unfolding shutdown
  shutdown-last_batch fuel w enough running reached =
      join_more fuel told enough (ap (λ (v : Worker sql). v.running) two ∙ ends w.repo.db_queue)
      ∙ two
    where
      told : Worker sql
      told = notify sql (record w { stop_requested = true })

      two : turn sql (turn sql told) ≡ last_batch w.repo.db_queue told
      two = ends_in_two told running refl (woken-awake w.waiting reached)

      ends : (queue : List DbTask) → (last_batch queue told).running ≡ false
      ends [] = refl
      ends (task ∷ tasks) = refl

  -- `Shutdown` of a thread that runs, if it does not come between the thread's test of its
  -- condition and its sleep: within two rounds of the thread it has ended, and its queue is empty,
  -- whatever the calls of SQLite return.
  pub shutdown-ends :
      (fuel : ℕ) (w : Worker sql)
      → 2 ≤ fuel
      → w.running ≡ true
      → w.waiting ≢ tested
      → ((shutdown sql fuel w).running ≡ false) × ((shutdown sql fuel w).repo.db_queue ≡ [])
  shutdown-ends fuel w enough running reached =
      subst (λ (v : Worker sql). (v.running ≡ false) × (v.repo.db_queue ≡ []))
        (sym (shutdown-last_batch fuel w enough running reached)) (ends w.repo.db_queue refl)
    where
      told : Worker sql
      told = notify sql (record w { stop_requested = true })

      ends :
          (queue : List DbTask)
          → w.repo.db_queue ≡ queue
          → ((last_batch queue told).running ≡ false) × ((last_batch queue told).repo.db_queue ≡ [])
      ends [] e = (refl, e)
      ends (task ∷ tasks) e = (refl, refl)

  -- A thread that sleeps sleeps on.
  join-asleep :
      (fuel : ℕ) (w : Worker sql) → w.running ≡ true → w.waiting ≡ asleep → join sql fuel w ≡ w
  unfolding join
  join-asleep zero w running sleeps = refl
  join-asleep (suc fuel) w running sleeps =
      ap (λ v. join sql fuel v) (turn_once w running ∙ ap (λ p. move sql p w) sleeps)
      ∙ join-asleep fuel w running sleeps

  -- The notice that comes between the test and the sleep is lost.
  abbrev IsUnheard : Worker sql → Worker sql → Type 0
  IsUnheard w v = (v.running ≡ true) × (v.db ≡ w.db)

  shutdown-IsUnheard :
      (fuel : ℕ) (w : Worker sql)
      → w.running ≡ true
      → w.waiting ≡ tested
      → IsUnheard w (shutdown sql fuel w)
  unfolding shutdown join
  shutdown-IsUnheard zero w running found = (running, refl)
  shutdown-IsUnheard (suc fuel) w running found =
      subst (λ v. IsUnheard w (join sql fuel v)) (sym slept)
        (subst (IsUnheard w) (sym (join-asleep fuel sleeper running refl)) (running, refl))
    where
      told : Worker sql
      told = notify sql (record w { stop_requested = true })

      sleeper : Worker sql
      sleeper = record told { waiting = asleep }

      slept : turn sql told ≡ sleeper
      slept = turn_once told running ∙ ap (λ p. move sql (woken sql p) told) found

  pub shutdown-unheard_db :
      (fuel : ℕ) (w : Worker sql)
      → w.running ≡ true
      → w.waiting ≡ tested
      → (shutdown sql fuel w).db ≡ w.db
  shutdown-unheard_db fuel w running found = (shutdown-IsUnheard fuel w running found).1

  -- A thread that is awake finds its queue empty and is not told to stop: if `Shutdown` comes
  -- before it sleeps, the notice is lost, and `join` does not return, however long the thread goes
  -- on.
  pub shutdown-hangs :
      (fuel : ℕ) (w : Worker sql)
      → w.running ≡ true
      → w.stop_requested ≡ false
      → w.waiting ≡ awake
      → w.repo.db_queue ≡ []
      → (shutdown sql fuel (turn sql w)).running ≡ true
  shutdown-hangs fuel w running go wakes none_left =
      subst (λ v. (shutdown sql fuel v).running ≡ true) (sym waits)
        (shutdown-IsUnheard fuel (record w { waiting = tested }) running refl).0
    where
      waits : turn sql w ≡ record w { waiting = tested }
      waits =
          awake_turn w running wakes
          ∙ ap (λ q. next_round sql q w) none_left
          ∙ ap (λ b. if b then record w { running = false } else record w { waiting = tested }) go
