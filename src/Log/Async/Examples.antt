-- ===== src/Log/Async/Examples.antt =====
-- Two lines around a round of the back end.
use mini_reactor.Base.{List, [], ◌∷◌, arith}
use mini_reactor.Log.Async.{Step, line, backend, started}
use mini_reactor.Log.Async.Lossless.Rounds.{Keeps, run-Keeps, started-IsSound}

abbrev steps : List Step
steps = line (1 ∷ 2 ∷ []) ∷ backend ∷ line (3 ∷ []) ∷ backend ∷ line (4 ∷ []) ∷ []

run-Keeps_example : Keeps steps started
run-Keeps_example =
    run-Keeps steps started (omega arith, (tt, (omega arith, (tt, (omega arith, tt)))))
      started-IsSound
