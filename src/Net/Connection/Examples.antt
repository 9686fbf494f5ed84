-- ===== src/Net/Connection/Examples.antt =====
-- A connection whose peer takes two of four bytes, and the rest later.
use mini_reactor.Base.{◌++◌, ◌≡◌, refl, true, false, List, [], ◌∷◌, arith}
use mini_reactor.Net.Buffer.{contents, Buffer, received}
use mini_reactor.Net.Connection.{
  Connection, written, requested, connected, accepted, Act, send, shut, Step, writable, readable,
  hung_up, run, shutdown_write, queue_write_complete, message_callback,
}
use mini_reactor.Net.Connection.Stream.{requests, writes}
use mini_reactor.Net.Connection.Stream.Running.{run-writes}
use mini_reactor.Net.Buffer.Contents.{IsValid}
use mini_reactor.Net.Connection.Closing.{Spends}
use mini_reactor.Net.Connection.Closing.Running.{run-Spends}

abbrev empty : Buffer
empty = record { buffer = 0 ∷ 0 ∷ 0 ∷ 0 ∷ []; read_index = 0; write_index = 0 }

abbrev talking : Connection
talking = record {
  state = connected;
  channel = record { reading = true; writing = false; edge = true };
  input_buffer = empty;
  output_buffer = empty;
  high_water_mark = 2;
  write_complete_callback = true;
  high_water_mark_callback = false;
}

-- The callback echoes a fixed reply and shuts the connection down.
abbrev reply : Buffer → Buffer × List Act
reply b = (empty, send (5 ∷ 6 ∷ 7 ∷ 8 ∷ []) (accepted 2) ∷ shut ∷ [])

abbrev steps : List Step
steps = readable (received (1 ∷ []) ∷ []) ∷ writable (accepted 2) ∷ hung_up ∷ []

effects :
    (run reply steps talking).0
    ≡ message_callback
      ∷ requested (5 ∷ 6 ∷ 7 ∷ 8 ∷ [])
      ∷ written (5 ∷ 6 ∷ [])
      ∷ written (7 ∷ 8 ∷ [])
      ∷ queue_write_complete
      ∷ shutdown_write
      ∷ []
unfolding run
effects = refl

run-writes_example :
    IsValid (run reply steps talking).1.output_buffer
    × (writes (run reply steps talking).0 ++ contents (run reply steps talking).1.output_buffer
        ≡ contents talking.output_buffer ++ requests (run reply steps talking).0)
unfolding run
run-writes_example =
    run-writes reply steps talking (omega arith) (tt, (tt, (tt, (tt, (tt, (tt, tt))))))

run-Spends_example : Spends connected (run reply steps talking)
run-Spends_example = run-Spends reply steps talking
