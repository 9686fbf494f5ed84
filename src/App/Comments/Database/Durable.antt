-- ===== src/App/Comments/Database/Durable.antt =====
-- A restart after a shutdown finds every comment.
use mini_reactor.Base.{
  ℕ, Bool, ◌%◌, ◌==◌, ◌+◌, ◌^◌, ◌<◌, if◌then◌else◌, if_holds, ◌≤◌, ◌≡◌, ◌≢◌, ◌⊎◌, inl, inr, refl,
  sym, ap, ◌∙◌, subst, true, false, List, [], ◌∷◌, ◌++◌, map, Option, none, length, get_elem?,
  length-append, length-set, All, arith,
}
use mini_reactor.App.Comments.{
  Text, Repository, DbTask, empty, initialize, push_comment, erase_comment, max_mem_comments, next,
}
use mini_reactor.App.Comments.History.{Comment, Holds, empty-Holds, push_comment-Holds}
use mini_reactor.App.Comments.Erasing.{recent, redact, redact_found, hidden, erase_comment-Holds}
use mini_reactor.App.Comments.Restart.{initialize-Holds}
use mini_reactor.App.Comments.Database.{
  Sqlite, Worker, Step, posts, erases, turns, turn, next_round, step, run, shutdown, Waiting, awake,
  tested, asleep, move, woken, unlocked, notify, after_task, after_erasure,
}
use mini_reactor.App.Comments.Database.Laws.{IsSqlite, IsReliable}
use mini_reactor.App.Comments.Database.Batches.{apply_all, write_batch-writes}
use mini_reactor.App.Comments.Database.Ending.{
  last_batch, shutdown-last_batch, shutdown-ends, shutdown-unheard_db,
}
use mini_reactor.App.Comments.Database.Writing.{
  cut, Backs, length-map, push_comment-Backs, erase_comment-Backs,
}

-- What a search without a result leaves.
abbrev LeavesIfNone : {A B : Type 0} → B → Option A × B → Type 0
LeavesIfNone y (found, left) = found ≡ none → left ≡ y

if_none :
    {A B : Type 0} (b : Bool) (a : A) (x y : B)
    → LeavesIfNone y (if b then (Option.some a, x) else (none, y))
if_none true a x y e = absurd (cc)
if_none false a x y e = refl

erase_comment-none :
    (seq : ℕ) (repo : Repository)
    → (erase_comment seq repo).0 ≡ none
    → (erase_comment seq repo).1 ≡ repo
unfolding erase_comment
erase_comment-none seq repo e =
    if_none ((repo.ring (seq % max_mem_comments)).sequence == next seq) _ _ repo e

module _ (sql : Sqlite) where
  -- The history that the callers mean.
  abbrev pub grow : Step sql → List Comment → List Comment
  grow (posts nickname content ip) h =
      h ++ (record { nickname = nickname; content = content; ip = ip } ∷ [])
  grow (erases seq) h = redact seq h
  grow turns h = h

  abbrev pub grow_all : List (Step sql) → List Comment → List Comment
  grow_all [] h = h
  grow_all (s ∷ steps) h = grow_all steps (grow s h)

  -- No number that wraps is erased.
  abbrev pub IsUsual : Step sql → Type 0
  IsUsual (posts nickname content ip) = Unit
  IsUsual (erases seq) = seq + 1 < 2 ^ 64
  IsUsual turns = Unit

  length-redact : (seq : ℕ) (h : List Comment) → length (redact seq h) ≡ length h
  length-redact seq h = by_recent (recent seq h)
    where
      by_recent : (o : Option Comment) → length (redact_found seq o h) ≡ length h
      by_recent none = refl
      by_recent (Option.some c) = length-set h seq (hidden c)

  module _ (laws : IsSqlite sql) (reliable : IsReliable sql laws) where
    open laws use {on_disk, is_open}

    -- The memory holds the newest of the history, and the disk with the queue all of it.
    pub record Keeps (h : List Comment) (w : Worker sql) : Type 0 where
      pub holds : Holds h w.repo
      pub backs : Backs h w.repo.db_queue (on_disk w.db)
      pub running : w.running ≡ true
      pub closed : is_open w.db ≡ false
      pub idle : w.waiting ≡ tested → w.repo.db_queue ≡ []

    emptied-Holds :
        (h : List Comment) (repo : Repository)
        → Holds h repo
        → Holds h (record repo { db_queue = [] })
    emptied-Holds h repo v = record {
      count = v.count;
      fits = v.fits;
      recent = v.recent;
      below = v.below;
    }

    next_round-Keeps :
        (h : List Comment) (w : Worker sql)
        → w.stop_requested ≡ false
        → Keeps h w
        → (queue : List DbTask) → w.repo.db_queue ≡ queue
        → Keeps h (next_round sql queue w) × ((next_round sql queue w).stop_requested ≡ false)
    next_round-Keeps h w go k [] e =
        subst
          (λ b.
            let v : Worker sql =
              if b then record w { running = false } else record w { waiting = tested } in
            Keeps h v × (v.stop_requested ≡ false))
          (sym go)
          (
            record {
              holds = k.holds;
              backs = k.backs;
              running = k.running;
              closed = k.closed;
              idle = λ now. e;
            },
            go,
          )
    next_round-Keeps h w go k (task ∷ tasks) e = (
      record {
        holds = emptied-Holds h w.repo k.holds;
        backs = λ seq.
            ap (λ t. t seq)
              ((write_batch-writes sql laws reliable (task ∷ tasks) w.db k.closed).0
                ∙ ap (λ q. apply_all q (on_disk w.db)) (sym e))
            ∙ k.backs seq;
        running = k.running;
        closed = (write_batch-writes sql laws reliable (task ∷ tasks) w.db k.closed).1;
        idle = λ now. refl;
      },
      go,
    )

    move-Keeps :
        (p : Waiting sql) (h : List Comment) (w : Worker sql)
        → w.stop_requested ≡ false
        → Keeps h w
        → Keeps h (move sql p w) × ((move sql p w).stop_requested ≡ false)
    move-Keeps awake h w go k = next_round-Keeps h w go k w.repo.db_queue refl
    move-Keeps tested h w go k = (
      record {
        holds = k.holds;
        backs = k.backs;
        running = k.running;
        closed = k.closed;
        idle = λ now. absurd (cc);
      },
      go,
    )
    move-Keeps asleep h w go k = (k, go)

    turn-Keeps :
        (h : List Comment) (w : Worker sql)
        → w.stop_requested ≡ false
        → Keeps h w
        → Keeps h (turn sql w) × ((turn sql w).stop_requested ≡ false)
    unfolding turn
    turn-Keeps h w go k =
        if_holds (λ (v : Worker sql). Keeps h v × (v.stop_requested ≡ false)) w.running
          (move sql w.waiting w) w (move-Keeps w.waiting h w go k) (k, go)

    -- Whoever queues a task leaves the thread awake.
    never_tested : (p : Waiting sql) → woken sql (unlocked sql p) ≡ tested → ⊥
    never_tested awake e = cc
    never_tested tested e = cc
    never_tested asleep e = cc

    after_task-Keeps :
        (h : List Comment) (repo : Repository) (w : Worker sql)
        → Holds h repo
        → Backs h repo.db_queue (on_disk w.db)
        → w.running ≡ true
        → is_open w.db ≡ false
        → Keeps h (after_task sql repo w)
    after_task-Keeps h repo w holds backs running closed = record {
      holds = holds;
      backs = backs;
      running = running;
      closed = closed;
      idle = λ now. absurd (never_tested w.waiting now);
    }

    after_erasure-Keeps :
        (h : List Comment) (r : Option (Text × Text) × Repository) (w : Worker sql)
        → w.stop_requested ≡ false
        → Holds h r.1
        → Backs h r.1.db_queue (on_disk w.db)
        → w.running ≡ true
        → is_open w.db ≡ false
        → (r.0 ≡ none → w.waiting ≡ tested → r.1.db_queue ≡ [])
        → Keeps h (after_erasure sql r w) × ((after_erasure sql r w).stop_requested ≡ false)
    after_erasure-Keeps h (none, repo) w go holds backs running closed idle = (
      record {
        holds = holds;
        backs = backs;
        running = running;
        closed = closed;
        idle = λ now. idle refl now;
      },
      go,
    )
    after_erasure-Keeps h (Option.some author, repo) w go holds backs running closed idle =
        (after_task-Keeps h repo w holds backs running closed, go)

    step-Keeps :
        (s : Step sql) (h : List Comment) (w : Worker sql)
        → IsUsual s
        → length h + 1 < 2 ^ 63
        → w.stop_requested ≡ false
        → Keeps h w
        → Keeps (grow s h) (step sql s w) × ((step sql s w).stop_requested ≡ false)
    unfolding step
    step-Keeps (posts nickname content ip) h w usual fits go k = (
      after_task-Keeps (grow (posts nickname content ip) h)
          (push_comment nickname content ip w.repo) w
          (push_comment-Holds nickname content ip h w.repo (omega arith) k.holds)
          (push_comment-Backs (record { nickname = nickname; content = content; ip = ip }) h w.repo
            (on_disk w.db) k.holds k.backs)
          k.running k.closed,
      go,
    )
    step-Keeps (erases seq) h w usual fits go k =
        after_erasure-Keeps (redact seq h) (erase_comment seq w.repo) w go
          (erase_comment-Holds seq h w.repo usual k.holds).1
          (erase_comment-Backs seq h w.repo (on_disk w.db) usual k.holds k.backs) k.running k.closed
          (λ missing now.
            ap (λ (r : Repository). r.db_queue) (erase_comment-none seq w.repo missing)
            ∙ k.idle now)
    step-Keeps turns h w usual fits go k = turn-Keeps h w go k

    length-grow-le : (s : Step sql) (h : List Comment) → length (grow s h) ≤ length h + 1
    length-grow-le (posts nickname content ip) h = omega (arith, length-append h (c ∷ []))
      where
        c : Comment
        c = record { nickname = nickname; content = content; ip = ip }
    length-grow-le (erases seq) h = omega (arith, length-redact seq h)
    length-grow-le turns h = omega arith

    run-Keeps :
        (steps : List (Step sql)) (h : List Comment) (w : Worker sql)
        → All IsUsual steps
        → length h + length steps < 2 ^ 63
        → w.stop_requested ≡ false
        → Keeps h w
        → Keeps (grow_all steps h) (run sql steps w) × (length (grow_all steps h) < 2 ^ 63)
    unfolding run
    run-Keeps [] h w usual fits go k = (k, omega arith)
    run-Keeps (s ∷ steps) h w usual fits go k =
        let (k', go') = step-Keeps s h w usual.0 (omega arith) go k in
        run-Keeps steps (grow s h) (step sql s w) usual.1 (omega (arith, length-grow-le s h)) go' k'

    abbrev HasRows : List Comment → Worker sql → Type 0
    HasRows h w = (seq : ℕ) → on_disk w.db seq ≡ get_elem? (map cut h) seq

    -- The thread has ended, or has not heard the notice, and the disk has the history.
    abbrev pub IsDone : ℕ → List Comment → Worker sql → Type 0
    IsDone fuel h w =
        (((shutdown sql fuel w).running ≡ false) ⊎ (w.waiting ≡ tested))
        × HasRows h (shutdown sql fuel w)

    last_batch-HasRows :
        (h : List Comment) (w : Worker sql) (queue : List DbTask)
        → Keeps h w
        → w.repo.db_queue ≡ queue
        → HasRows h (last_batch sql queue (notify sql (record w { stop_requested = true })))
    last_batch-HasRows h w [] k e =
        λ seq. ap (λ q. apply_all q (on_disk w.db) seq) (sym e) ∙ k.backs seq
    last_batch-HasRows h w (task ∷ tasks) k e = λ seq.
        ap (λ t. t seq)
          ((write_batch-writes sql laws reliable (task ∷ tasks) w.db k.closed).0
            ∙ ap (λ q. apply_all q (on_disk w.db)) (sym e))
        ∙ k.backs seq

    shutdown-IsDone :
        (fuel : ℕ) (h : List Comment) (w : Worker sql) → 2 ≤ fuel → Keeps h w → IsDone fuel h w
    shutdown-IsDone fuel h w enough k = by_waiting w.waiting refl
      where
        reached : w.waiting ≢ tested → IsDone fuel h w
        reached ne = (
          inl (shutdown-ends sql fuel w enough k.running ne).0,
          subst (HasRows h) (sym (shutdown-last_batch sql fuel w enough k.running ne))
              (last_batch-HasRows h w w.repo.db_queue k refl),
        )

        by_waiting : (p : Waiting sql) → w.waiting ≡ p → IsDone fuel h w
        by_waiting awake e = reached (λ t. cc)
        by_waiting asleep e = reached (λ t. cc)
        by_waiting tested e = (
          inr e,
          λ seq.
              ap (λ d. on_disk d seq) (shutdown-unheard_db sql fuel w k.running e)
              ∙ ap (λ q. apply_all q (on_disk w.db) seq) (sym (k.idle e))
              ∙ k.backs seq,
        )

    -- At the start of the program, on a database without rows.
    abbrev pub started : sql.Db → Worker sql
    started db = record {
      repo = empty;
      db = db;
      stop_requested = false;
      running = true;
      waiting = awake;
    }

    -- If no call of SQLite fails: on a database without rows and with no open transaction, after
    -- any fewer than 2^63 steps of the threads that erase no number that wraps, of which each post
    -- and each erasure is one step: `Shutdown` ends the database thread within two rounds, unless
    -- it comes between the thread's test of its condition and its sleep; and in both cases an
    -- `Initialize` on the newest rows then fills the memory with the history that was posted and
    -- erased, each text up to its first null byte.
    pub initialize-shutdown :
        (db : sql.Db) (steps : List (Step sql)) (fuel : ℕ)
        → ((seq : ℕ) → on_disk db seq ≡ none)
        → is_open db ≡ false
        → All IsUsual steps
        → length steps < 2 ^ 63
        → 2 ≤ fuel
        → (((shutdown sql fuel (run sql steps (started db))).running ≡ false)
            ⊎ ((run sql steps (started db)).waiting ≡ tested))
          × Holds (map cut (grow_all steps [])) (
              initialize
                (sql.select_newest (shutdown sql fuel (run sql steps (started db))).db)
                empty)
    initialize-shutdown db steps fuel none_stored closed usual few enough =
        let (k, fits) = run-Keeps steps [] (started db) usual (omega arith) refl fresh in
        let (ended, rows) = shutdown-IsDone fuel h _ enough k in
        let short : length (map cut h) < 2 ^ 63 = omega (arith, fits, length-map cut h) in
        (
          ended,
          subst (λ r. Holds (map cut h) (initialize r empty))
              (sym (laws.select_rows _ (map cut h) short rows))
              (initialize-Holds (map cut h) (omega (arith, short))),
        )
      where
        h : List Comment
        h = grow_all steps []

        fresh : Keeps [] (started db)
        fresh = record {
          holds = empty-Holds;
          backs = none_stored;
          running = refl;
          closed = closed;
          idle = λ now. refl;
        }
