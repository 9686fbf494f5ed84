-- ===== src/App/Comments/Database.antt =====
-- The database thread of the comments: DBWorkerLoop, ExecuteTaskToSqlite and Shutdown of
-- app/repository/CommentRepository.cpp. SQLite is a parameter: a call gives its success and the
-- database after it. A batch runs as a whole, as the thread takes the queue under its lock. The
-- condition variable is a state of the thread; one that ends a wait without a notice is left out.
-- A post and an erasure are one step each (App.Comments says what that leaves out).
pub mod Laws
pub mod Writing
pub mod Ending
pub mod Durable
pub mod Batches
mod Sample
mod Examples
use mini_reactor.Base.{
  ℕ, zero, suc, Bool, true, false, ◌==◌, if◌then◌else◌, List, [], ◌∷◌, ◌&&◌, Option, none, some,
}
use mini_reactor.App.Comments.{
  Text, Repository, MemoryComment, DbTask, DbAction, insert, update, push_comment, erase_comment,
}

-- The statements that the thread runs, in the order of their parameters, and the query for the
-- newest 50 rows.
pub record Sqlite : Type 1 where
  pub Db : Type 0
  pub begin_transaction : Db → Bool × Db
  pub commit : Db → Bool × Db
  pub rollback : Db → Bool × Db
  pub insert_or_replace : ℕ → Text → Text → Text → Db → Bool × Db
  pub update_where : Text → Text → ℕ → Db → Bool × Db
  pub select_newest : Db → List MemoryComment

-- A text up to its first null byte: `c_str()` with the length -1.
unfoldable pub c_str : Text → Text
c_str [] = []
c_str (c ∷ s) = if c == 0 then [] else c ∷ c_str s

module _ (sql : Sqlite) where
  open sql use {Db, begin_transaction, commit, rollback, insert_or_replace, update_where}

  -- The thread holds the lock and is about to test its condition, or has found it false and is
  -- about to sleep, or sleeps and has let the lock go.
  pub data Waiting : Type 0 where
    awake tested asleep : Waiting

  -- The repository with its queue, the database, `m_stop_requested`, whether the thread runs, and
  -- how it waits.
  pub record Worker : Type 0 where
    pub repo : Repository
    pub db : Db
    pub stop_requested : Bool
    pub running : Bool
    pub waiting : Waiting

  abbrev pub execute : DbAction → DbTask → Db → Bool × Db
  execute insert task db =
      insert_or_replace task.sequence (c_str task.nickname) (c_str task.content) (c_str task.ip) db
  execute update task db = update_where (c_str task.nickname) (c_str task.content) task.sequence db

  unfoldable pub execute_task_to_sqlite : DbTask → Db → Bool × Db
  unfolding c_str
  execute_task_to_sqlite task db = execute task.action task db

  -- The loop over `local_queue`, with `all_ok`.
  unfoldable pub execute_all : List DbTask → Bool × Db → Bool × Db
  unfolding execute_task_to_sqlite
  execute_all [] st = st
  execute_all (task ∷ tasks) (all_ok, db) =
      let (ok, db') = execute_task_to_sqlite task db in execute_all tasks (all_ok && ok, db')

  abbrev pub end_transaction : Bool × Db → Db
  end_transaction (true, db) = (commit db).1
  end_transaction (false, db) = (rollback db).1

  -- A batch; if the transaction does not start, it is skipped.
  abbrev pub write_tasks : List DbTask → Bool × Db → Db
  write_tasks tasks (true, db) = end_transaction (execute_all tasks (true, db))
  write_tasks tasks (false, db) = db

  unfoldable pub write_batch : List DbTask → Db → Db
  unfolding execute_all
  write_batch tasks db = write_tasks tasks (begin_transaction db)

  -- From the test of the condition on: a batch, the end, or a wait.
  abbrev pub next_round : List DbTask → Worker → Worker
  next_round [] w =
      if w.stop_requested then record w { running = false } else record w { waiting = tested }
  next_round (task ∷ tasks) w = record w {
    repo = record (w.repo) { db_queue = [] };
    db = write_batch (task ∷ tasks) w.db;
  }

  abbrev pub move : Waiting → Worker → Worker
  move awake w = next_round w.repo.db_queue w
  move tested w = record w { waiting = asleep }
  move asleep w = w

  -- What `DBWorkerLoop` does next.
  unfoldable pub turn : Worker → Worker
  unfolding write_batch
  turn w = if w.running then move w.waiting w else w

  -- `notify_one`: a thread that is still awake does not hear it.
  abbrev pub woken : Waiting → Waiting
  woken awake = awake
  woken tested = tested
  woken asleep = awake

  abbrev pub notify : Worker → Worker
  notify w = record w { waiting = woken w.waiting }

  -- Who wants the lock of the queue gets it when the thread sleeps.
  abbrev pub unlocked : Waiting → Waiting
  unlocked awake = awake
  unlocked tested = asleep
  unlocked asleep = asleep

  -- A task is queued under the lock, and the thread is notified.
  abbrev pub after_task : Repository → Worker → Worker
  after_task repo w = notify (record w { repo = repo; waiting = unlocked w.waiting })

  -- An erasure that finds nothing queues nothing.
  abbrev pub after_erasure : Option (Text × Text) × Repository → Worker → Worker
  after_erasure (none, repo) w = record w { repo = repo }
  after_erasure (some author, repo) w = after_task repo w

  -- What the threads do.
  pub data Step : Type 0 where
    posts : Text → Text → Text → Step
    erases : ℕ → Step
    turns : Step

  unfoldable pub step : Step → Worker → Worker
  unfolding push_comment erase_comment turn
  step (posts nickname content ip) w = after_task (push_comment nickname content ip w.repo) w
  step (erases seq) w = after_erasure (erase_comment seq w.repo) w
  step turns w = turn w

  unfoldable pub run : List Step → Worker → Worker
  unfolding step
  run [] w = w
  run (s ∷ steps) w = run steps (step s w)

  -- `join`, while the thread goes on so many times.
  unfoldable pub join : ℕ → Worker → Worker
  unfolding turn
  join zero w = w
  join (suc fuel) w = join fuel (turn w)

  -- The thread is told to stop and notified, both without the lock of the queue. It is one that
  -- was started; the calls that close the database are left out.
  unfoldable pub shutdown : ℕ → Worker → Worker
  unfolding join
  shutdown fuel w = join fuel (notify (record w { stop_requested = true }))
