-- ===== src/Proxy/Examples.antt =====
-- A session whose client sends before the upstream is there, and whose upstream answers and leaves.
use mini_reactor.Base.{Bool, ◌≡◌, ◌++◌, refl, true, false, List, [], ◌∷◌, arith}
use mini_reactor.Net.Buffer.{Buffer}
use mini_reactor.Net.Connection.{StateE, connecting, connected, Connection, accepted, would_block}
use mini_reactor.Net.Connection.Stream.{writes, DropsNothing}
use mini_reactor.Proxy.{
  upstream, downstream, Step, connects, hangs_up, data_from, writable, runs_functor, run, start,
}
use mini_reactor.Proxy.Streams.{effects, bytes_from}
use mini_reactor.Proxy.Streams.Running.{waiting, run-start_forwards}
use mini_reactor.Proxy.Flow.Running.{BothAreControlled, run-start_controls}
use mini_reactor.Proxy.Flow.Before.{IsIdle}

abbrev vacant : Buffer
vacant = record { buffer = 0 ∷ 0 ∷ []; read_index = 0; write_index = 0 }

abbrev peer : StateE → Bool → Connection
peer s reads = record {
  state = s;
  channel = record { reading = reads; writing = false; edge = true };
  input_buffer = vacant;
  output_buffer = vacant;
  high_water_mark = 0;
  write_complete_callback = false;
  high_water_mark_callback = false;
}

abbrev events : List Step
events =
    data_from downstream (1 ∷ 2 ∷ []) would_block
    ∷ connects (accepted 1)
    ∷ data_from downstream (3 ∷ []) would_block
    ∷ data_from upstream (7 ∷ 8 ∷ []) (accepted 2)
    ∷ writable upstream (accepted 1)
    ∷ runs_functor
    ∷ hangs_up upstream
    ∷ []

events_DropsNothing :
    DropsNothing
      (effects upstream (run events (start (peer connecting false) (peer connected true))).0)
unfolding run start
events_DropsNothing = (tt, (tt, (tt, (tt, (tt, (tt, (tt, tt)))))))

run-start_forwards_example :
    writes (effects upstream (run events (start (peer connecting false) (peer connected true))).0)
      ++ waiting upstream (run events (start (peer connecting false) (peer connected true))).1
    ≡ bytes_from downstream (run events (start (peer connecting false) (peer connected true))).0
run-start_forwards_example =
    run-start_forwards upstream events (peer connecting false) (peer connected true) (omega arith)
      (omega arith) refl refl (tt, (tt, (tt, (tt, (tt, (tt, (tt, tt))))))) events_DropsNothing

events_bytes :
    bytes_from downstream (run events (start (peer connecting false) (peer connected true))).0
    ≡ 1 ∷ 2 ∷ 3 ∷ []
unfolding run start
events_bytes = refl

events_taken :
    writes (effects upstream (run events (start (peer connecting false) (peer connected true))).0)
    ≡ 1 ∷ 2 ∷ []
unfolding run start
events_taken = refl

-- Without the last step.
abbrev talk : List Step
talk =
    data_from downstream (1 ∷ 2 ∷ []) would_block
    ∷ connects (accepted 1)
    ∷ data_from upstream (7 ∷ 8 ∷ []) would_block
    ∷ writable upstream (accepted 1)
    ∷ writable downstream (accepted 1)
    ∷ runs_functor
    ∷ []

idle : (s : StateE) (b : Bool) → IsIdle (peer s b)
idle s b = record { valid = omega arith; empty = refl; silent = refl }

talk_held : (run talk (start (peer connecting false) (peer connected true))).1.up.held ≡ true
unfolding run start
talk_held = refl

run-start_controls_example :
    BothAreControlled (run talk (start (peer connecting false) (peer connected true))).1
run-start_controls_example =
    run-start_controls talk (peer connecting false) (peer connected true) (idle connecting false)
      (idle connected true) refl refl (tt, (tt, (tt, (tt, (tt, (tt, tt)))))) talk_held
