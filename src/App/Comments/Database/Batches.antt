-- ===== src/App/Comments/Database/Batches.antt =====
-- A batch is written as a whole or not at all.
use mini_reactor.Base.{
  ◌≡◌, ◌⊎◌, refl, ap, ap₂, if_holds, ◌∙◌, inl, inr, Bool, true, false, ◌&&◌, List, [], ◌∷◌,
  Bool-cases, Option, none, some,
}
use mini_reactor.App.Comments.{Text, Repository, DbTask, DbAction, insert, update, erase_comment}
use mini_reactor.App.Comments.Database.{
  Sqlite, c_str, execute, execute_task_to_sqlite, execute_all, end_transaction, write_tasks,
  write_batch, Worker, Step, turns, posts, erases, turn, step, run, next_round, Waiting, awake,
  tested, asleep, move, after_erasure,
}
use mini_reactor.App.Comments.Database.Laws.{
  Table, put_row, update_row, IsSqlite, IsPatient, IsReliable, reliable-IsPatient,
}

-- A task on the table.
abbrev pub apply_as : DbAction → DbTask → Table → Table
apply_as insert task =
    put_row task.sequence
      (record { nickname = c_str task.nickname; content = c_str task.content; ip = c_str task.ip })
apply_as update task = update_row (c_str task.nickname) (c_str task.content) task.sequence

abbrev pub apply_task : DbTask → Table → Table
apply_task task = apply_as task.action task

abbrev pub apply_all : List DbTask → Table → Table
apply_all [] t = t
apply_all (task ∷ tasks) t = apply_all tasks (apply_task task t)

and_true : (a b : Bool) → (a && b) ≡ true → (a ≡ true) × (b ≡ true)
and_true true b h = (refl, h)
and_true false b h = absurd (cc)

module _ (sql : Sqlite) (laws : IsSqlite sql) where
  open laws use {seen, on_disk, is_open}

  execute-done :
      (action : DbAction) (task : DbTask) (d : sql.Db)
      → (execute sql action task d).0 ≡ true
      → seen (execute sql action task d).1 ≡ apply_as action task (seen d)
  execute-done insert task d h = (laws.insert_done task.sequence _ _ _ d h).1
  execute-done update task d h = (laws.update_done _ _ task.sequence d h).1

  execute_all-done :
      (tasks : List DbTask) (st : Bool × sql.Db)
      → (execute_all sql tasks st).0 ≡ true
      → (st.0 ≡ true) × (seen (execute_all sql tasks st).1 ≡ apply_all tasks (seen st.1))
  unfolding execute_all execute_task_to_sqlite
  execute_all-done [] st h = (h, refl)
  execute_all-done (task ∷ tasks) (ok, d) h =
      let (both, rest) = execute_all-done tasks _ h in
      let (before, now) = and_true ok _ both in
      (before, rest ∙ ap (apply_all tasks) (execute-done task.action task d now))

  -- The transaction is still open, and the disk as it was.
  abbrev IsStuck : sql.Db → sql.Db → Type 0
  IsStuck d d' = (is_open d' ≡ true) × (on_disk d' ≡ on_disk d)

  write_batch-IsStuck :
      (tasks : List DbTask) (d : sql.Db) → is_open d ≡ true → IsStuck d (write_batch sql tasks d)
  unfolding write_batch
  write_batch-IsStuck tasks d open_ =
      by_begin (sql.begin_transaction d) (laws.begin_nested d open_) (laws.begin_keeps d)
    where
      by_begin :
          (st : Bool × sql.Db)
          → (st.0 ≡ false) × (is_open st.1 ≡ true)
          → on_disk st.1 ≡ on_disk d
          → IsStuck d (write_tasks sql tasks st)
      by_begin (false, e) (_, still) old = (still, old)
      by_begin (true, e) (started, still) old = absurd (cc)

  next_round-IsStuck :
      (tasks : List DbTask) (w : Worker sql)
      → is_open w.db ≡ true
      → IsStuck w.db (next_round sql tasks w).db
  next_round-IsStuck [] w open_ =
      if_holds (λ (v : Worker sql). IsStuck w.db v.db) w.stop_requested
        (record w { running = false }) (record w { waiting = tested }) (open_, refl) (open_, refl)
  next_round-IsStuck (task ∷ tasks) w open_ = write_batch-IsStuck (task ∷ tasks) w.db open_

  move-IsStuck :
      (p : Waiting sql) (w : Worker sql) → is_open w.db ≡ true → IsStuck w.db (move sql p w).db
  move-IsStuck awake w open_ = next_round-IsStuck w.repo.db_queue w open_
  move-IsStuck tested w open_ = (open_, refl)
  move-IsStuck asleep w open_ = (open_, refl)

  step-IsStuck :
      (s : Step sql) (w : Worker sql) → is_open w.db ≡ true → IsStuck w.db (step sql s w).db
  unfolding step turn
  step-IsStuck (posts nickname content ip) w open_ = (open_, refl)
  step-IsStuck (erases seq) w open_ = by_author (erase_comment seq w.repo)
    where
      by_author : (r : Option (Text × Text) × Repository) → IsStuck w.db (after_erasure sql r w).db
      by_author (none, repo) = (open_, refl)
      by_author (some author, repo) = (open_, refl)
  step-IsStuck turns w open_ =
      if_holds (λ (v : Worker sql). IsStuck w.db v.db) w.running (move sql w.waiting w) w
        (move-IsStuck w.waiting w open_) (open_, refl)

  -- From a COMMIT on that failed and left its transaction open, the table on disk stays as it is,
  -- whatever is posted and erased and however often the thread writes.
  pub run-IsStuck :
      (steps : List (Step sql)) (w : Worker sql)
      → is_open w.db ≡ true
      → on_disk (run sql steps w).db ≡ on_disk w.db
  unfolding run
  run-IsStuck [] w open_ = refl
  run-IsStuck (s ∷ steps) w open_ =
      let (still, old) = step-IsStuck s w open_ in run-IsStuck steps (step sql s w) still ∙ old

  module _ (patient : IsPatient sql laws) where
    -- In an open transaction the disk stays, and the transaction is still open.
    execute-keeps :
        (action : DbAction) (task : DbTask) (d : sql.Db)
        → is_open d ≡ true
        → IsStuck d (execute sql action task d).1
    execute-keeps insert task d h =
        (patient.insert_stays task.sequence _ _ _ d h, laws.insert_keeps task.sequence _ _ _ d h)
    execute-keeps update task d h =
        (patient.update_stays _ _ task.sequence d h, laws.update_keeps _ _ task.sequence d h)

    execute_all-keeps :
        (tasks : List DbTask) (st : Bool × sql.Db)
        → is_open st.1 ≡ true
        → IsStuck st.1 (execute_all sql tasks st).1
    unfolding execute_all execute_task_to_sqlite
    execute_all-keeps [] st h = (h, refl)
    execute_all-keeps (task ∷ tasks) (ok, d) h =
        let (still, old) = execute-keeps task.action task d h in
        let (open_, older) = execute_all-keeps tasks _ still in (open_, older ∙ old)

    -- The disk has the old table or the new one.
    abbrev pub IsAtomic : List DbTask → sql.Db → sql.Db → Type 0
    IsAtomic tasks d d' = (on_disk d' ≡ on_disk d) ⊎ (on_disk d' ≡ apply_all tasks (on_disk d))

    commit-IsAtomic :
        (tasks : List DbTask) (d e : sql.Db)
        → on_disk e ≡ on_disk d
        → seen e ≡ apply_all tasks (on_disk d)
        → IsAtomic tasks d (sql.commit e).1
    commit-IsAtomic tasks d e old new = elim (Bool-cases (sql.commit e).0) [
      | inl done ↦ inr ((laws.commit_done e done).0 ∙ new)
      | inr fails ↦ inl (laws.commit_fails e fails ∙ old)
    ]

    end_transaction-IsAtomic :
        (tasks : List DbTask) (d : sql.Db) (st : Bool × sql.Db)
        → on_disk st.1 ≡ on_disk d
        → ((st.0 ≡ true) → seen st.1 ≡ apply_all tasks (on_disk d))
        → IsAtomic tasks d (end_transaction sql st)
    end_transaction-IsAtomic tasks d (true, e) old new = commit-IsAtomic tasks d e old (new refl)
    end_transaction-IsAtomic tasks d (false, e) old new = inl (laws.rollback_keeps e ∙ old)

    -- Whatever calls of SQLite fail, if no error of a statement ends the transaction, then after a batch the table on disk is the one before, or has all
    -- tasks of the batch in their order.
    pub write_batch-IsAtomic :
        (tasks : List DbTask) (d : sql.Db) → IsAtomic tasks d (write_batch sql tasks d)
    unfolding write_batch
    write_batch-IsAtomic tasks d =
        by_begin (sql.begin_transaction d) (laws.begin_keeps d) (laws.begin_starts d)
      where
        by_begin :
            (st : Bool × sql.Db)
            → on_disk st.1 ≡ on_disk d
            → ((st.0 ≡ true) → (seen st.1 ≡ on_disk d) × (is_open st.1 ≡ true))
            → IsAtomic tasks d (write_tasks sql tasks st)
        by_begin (false, e) old new = inl old
        by_begin (true, e) old new =
            end_transaction-IsAtomic tasks d (execute_all sql tasks (true, e))
              ((execute_all-keeps tasks (true, e) (new refl).1).1 ∙ old)
              (λ h. (execute_all-done tasks (true, e) h).1 ∙ ap (apply_all tasks) (new refl).0)

  module _ (reliable : IsReliable sql laws) where
    execute-ok :
        (action : DbAction) (task : DbTask) (d : sql.Db) → (execute sql action task d).0 ≡ true
    execute-ok insert task d = reliable.inserts task.sequence _ _ _ d
    execute-ok update task d = reliable.updates _ _ task.sequence d

    execute_all-ok :
        (tasks : List DbTask) (st : Bool × sql.Db)
        → st.0 ≡ true
        → (execute_all sql tasks st).0 ≡ true
    unfolding execute_all execute_task_to_sqlite
    execute_all-ok [] st h = h
    execute_all-ok (task ∷ tasks) (ok, d) h =
        execute_all-ok tasks _ (ap₂ (λ a b. a && b) h (execute-ok task.action task d))

    -- If no call fails, the table has the batch, and the transaction is over.
    pub write_batch-writes :
        (tasks : List DbTask) (d : sql.Db)
        → is_open d ≡ false
        → (on_disk (write_batch sql tasks d) ≡ apply_all tasks (on_disk d))
          × (is_open (write_batch sql tasks d) ≡ false)
    unfolding write_batch
    write_batch-writes tasks d closed =
        by_begin (sql.begin_transaction d) (reliable.begins d closed) (laws.begin_starts d)
      where
        by_end :
            (st : Bool × sql.Db)
            → st.0 ≡ true
            → is_open st.1 ≡ true
            → (on_disk (end_transaction sql st) ≡ seen st.1)
              × (is_open (end_transaction sql st) ≡ false)
        by_end (true, e) ok open_ = laws.commit_done e (reliable.commits e open_)
        by_end (false, e) ok open_ = absurd (cc)

        by_begin :
            (st : Bool × sql.Db)
            → st.0 ≡ true
            → ((st.0 ≡ true) → (seen st.1 ≡ on_disk d) × (is_open st.1 ≡ true))
            → (on_disk (write_tasks sql tasks st) ≡ apply_all tasks (on_disk d))
              × (is_open (write_tasks sql tasks st) ≡ false)
        by_begin (false, e) ok new = absurd (cc)
        by_begin (true, e) ok new =
            let (view, open_) = new refl in
            let all_ok = execute_all-ok tasks (true, e) refl in
            let (still, _) =
              execute_all-keeps (reliable-IsPatient sql laws reliable) tasks (true, e) open_ in
            let (written, closed') = by_end (execute_all sql tasks (true, e)) all_ok still in
            (
              written ∙ (execute_all-done tasks (true, e) all_ok).1 ∙ ap (apply_all tasks) view,
              closed',
            )
