-- ===== src/Net/Connector/Examples.antt =====
-- A connector whose first attempt is refused, and one that is stopped and started in one turn.
use mini_reactor.Base.{◌≡◌, refl, List, [], ◌∷◌, none, arith}
use mini_reactor.Net.Connector.{
  Connector, connecting, init, Step, starts, timer, writable, again, in_progress, success, failure,
  run, opened, closed, handed, error_callback, run_after, start, stop, reset_channel, turn,
}
use mini_reactor.Net.Connector.Descriptors.{IsSettled, Balances}
use mini_reactor.Net.Connector.Descriptors.Turns.{run-Balances}

abbrev steps : List Step
steps =
    starts (again 7)
    ∷ timer (in_progress 8)
    ∷ writable failure
    ∷ timer (in_progress 9)
    ∷ writable success
    ∷ []

effects :
    (run steps init).0
    ≡ opened 7
      ∷ closed 7
      ∷ error_callback
      ∷ run_after 1
      ∷ opened 8
      ∷ closed 8
      ∷ error_callback
      ∷ run_after 2
      ∷ opened 9
      ∷ handed 9
      ∷ []
unfolding run
effects = refl

init-IsSettled : IsSettled init
init-IsSettled = record {
  channel = refl;
  resets = refl;
  some_delay = omega arith;
  bounded = omega arith;
}

run-Balances_example : Balances 8 init (run steps init)
run-Balances_example = run-Balances 8 steps init init-IsSettled

-- `Stop` and then `Start` before the functors run: the queued reset takes the new channel away, and
-- the connector is connecting for ever, its descriptor open.
abbrev restarted : Connector
restarted = reset_channel (start (in_progress 6) (stop (turn (starts (in_progress 5)) init).1).1).1

lost_channel : (restarted.state ≡ connecting) × (restarted.channel ≡ none)
unfolding turn start stop reset_channel
lost_channel = (refl, refl)
