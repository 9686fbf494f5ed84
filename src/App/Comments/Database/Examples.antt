-- ===== src/App/Comments/Database/Examples.antt =====
-- Comments that reach the table.
use mini_reactor.Base.{◌≡◌, ◌⊎◌, refl, true, false, List, [], ◌∷◌, map, none, arith}
use mini_reactor.Base.Bytes.{codes}
use mini_reactor.App.Comments.{DbTask, insert, empty, initialize}
use mini_reactor.App.Comments.History.{Holds}
use mini_reactor.App.Comments.Database.{
  Worker, Step, posts, erases, turns, turn, shutdown, run, write_batch, awake, tested,
}
use mini_reactor.App.Comments.Database.Laws.{IsPatient, reliable-IsPatient}
use mini_reactor.App.Comments.Database.Batches.{IsAtomic, write_batch-IsAtomic, run-IsStuck}
use mini_reactor.App.Comments.Database.Ending.{shutdown-ends, shutdown-hangs}
use mini_reactor.App.Comments.Database.Writing.{cut}
use mini_reactor.App.Comments.Database.Durable.{grow_all, started, initialize-shutdown}
use mini_reactor.App.Comments.Database.Sample.{
  Rows, Memory, memory, memory-IsSqlite, memory-IsReliable, hanging,
}

abbrev blank : Rows
blank = record { table = λ seq. none; bound = 0; beyond = λ seq h. refl }

abbrev new_db : Memory
new_db = record { disk = blank; view = blank; in_transaction = false }

-- Two comments; the second is erased while the first is on disk already.
abbrev day : List (Step memory)
day =
    posts (codes "ann") (codes "hi") (codes "10.0.0.1")
    ∷ turns
    ∷ posts (codes "bob") (codes "spam") []
    ∷ erases 1
    ∷ turns
    ∷ []

abbrev at_night : Worker memory
at_night = run memory day (started memory memory-IsSqlite memory-IsReliable new_db)

initialize-shutdown_example :
    (((shutdown memory 3 at_night).running ≡ false) ⊎ (at_night.waiting ≡ tested))
    × Holds
        (map cut (grow_all memory day []))
        (initialize (memory.select_newest (shutdown memory 3 at_night).db) empty)
initialize-shutdown_example =
    initialize-shutdown memory memory-IsSqlite memory-IsReliable new_db day 3 (λ seq. refl) refl
      (tt, (tt, (tt, (omega arith, (tt, tt))))) (omega arith) (omega arith)

memory-IsPatient : IsPatient memory memory-IsSqlite
memory-IsPatient = reliable-IsPatient memory memory-IsSqlite memory-IsReliable

abbrev task : DbTask
task = record {
  action = insert;
  sequence = 0;
  nickname = codes "ann";
  content = codes "hi";
  ip = [];
}

write_batch-IsAtomic_example :
    IsAtomic memory memory-IsSqlite memory-IsPatient
      (task ∷ [])
      new_db
      (write_batch memory (task ∷ []) new_db)
write_batch-IsAtomic_example =
    write_batch-IsAtomic memory memory-IsSqlite memory-IsPatient (task ∷ []) new_db

abbrev hung : Worker hanging
hung = record { repo = empty; db = tt; stop_requested = false; running = true; waiting = awake }

abbrev lost_day : List (Step hanging)
lost_day = posts (codes "ann") (codes "hi") [] ∷ turns ∷ []

-- A database that keeps what it is given, with a transaction that a COMMIT left open.
abbrev left_open : Worker memory
left_open = record {
  repo = empty;
  db = record new_db { in_transaction = true };
  stop_requested = false;
  running = true;
  waiting = awake;
}

run-IsStuck_example :
    memory-IsSqlite.on_disk (run memory day left_open).db ≡ memory-IsSqlite.on_disk left_open.db
run-IsStuck_example = run-IsStuck memory memory-IsSqlite day left_open refl

-- The task has left the queue, and is nowhere.
lost_comment : (run hanging lost_day hung).repo.db_queue ≡ []
unfolding run
lost_comment = refl

shutdown-ends_example :
    ((shutdown hanging 2 (run hanging lost_day hung)).running ≡ false)
    × ((shutdown hanging 2 (run hanging lost_day hung)).repo.db_queue ≡ [])
unfolding run
shutdown-ends_example =
    shutdown-ends hanging 2 (run hanging lost_day hung) (omega arith) refl (λ e. cc)

shutdown-hangs_example :
    (shutdown memory 9
      (turn memory (started memory memory-IsSqlite memory-IsReliable new_db))).running
    ≡ true
shutdown-hangs_example =
    shutdown-hangs memory 9 (started memory memory-IsSqlite memory-IsReliable new_db) refl refl refl
      refl
