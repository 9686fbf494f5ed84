-- ===== src/Net/Server/Examples.antt =====
-- A server with two threads: two connections, of which one ends while the other goes on, and a third
-- that gets the descriptor of the first.
use mini_reactor.Base.{◌≡◌, refl, List, [], ◌∷◌, arith}
use mini_reactor.Net.Server.{
  main_loop, sub_loop, TcpServer, started, accepted, interrupted, would_block, Step, readable,
  hangs_up, runs, step,
}
use mini_reactor.Net.Server.Rounds.{IsFair, next_loops, next_loops-IsFair}
use mini_reactor.Net.Server.{start_pool}
use mini_reactor.Net.Server.Descriptors.{Owns}
use mini_reactor.Net.Server.Descriptors.Steps.{Reaches, at_start, then_step, Reaches-Owns}

abbrev run_all : List Step → TcpServer → TcpServer
run_all [] s = s
run_all (st ∷ steps) s = run_all steps (step st s)

abbrev first_steps : List Step
first_steps =
    readable (accepted 5 ∷ interrupted ∷ accepted 6 ∷ would_block ∷ [])
    ∷ runs (sub_loop 0)
    ∷ hangs_up 5
    ∷ runs main_loop
    ∷ runs (sub_loop 0)
    ∷ readable (accepted 5 ∷ [])
    ∷ []

reached : Reaches 2 (run_all first_steps (started 2))
unfolding step
reached =
    then_step (readable (accepted 5 ∷ [])) _
      (then_step (runs (sub_loop 0)) _
        (then_step (runs main_loop) _
          (then_step (hangs_up 5) _
            (then_step (runs (sub_loop 0)) _
              (then_step (readable (accepted 5 ∷ interrupted ∷ accepted 6 ∷ would_block ∷ [])) _
                at_start (refl, (refl, tt)))
              tt)
            tt)
          tt)
        tt)
      (refl, tt)

Reaches-Owns_example : Owns (run_all first_steps (started 2))
Reaches-Owns_example = Reaches-Owns 2 (run_all first_steps (started 2)) reached

open_at_last : (run_all first_steps (started 2)).open_fds ≡ 5 ∷ 6 ∷ []
unfolding step
open_at_last = refl

next_loops-IsFair_example : IsFair 3 (next_loops 7 (start_pool 3))
next_loops-IsFair_example = next_loops-IsFair 7 3 (omega arith)
