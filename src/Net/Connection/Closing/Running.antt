-- ===== src/Net/Connection/Closing/Running.antt =====
-- The close callback over every step of a connection.
use mini_reactor.Base.{◌==◌, ◌≡◌, refl, not, List, [], ◌∷◌, if_holds, arith}
use mini_reactor.Net.Buffer.{Buffer, ReadResult, received, failed}
use mini_reactor.Net.Connection.{
  Connection, shutdown_write, message_callback, also, send_in_loop, shutdown, shutdown_from,
  handle_write, handle_close, close_from, connection_destroyed, StateE, connecting, connected,
  disconnecting, disconnected, Act, send, shut, start_reading, stop_reading, act, act_all, message,
  fill, handle_read, Step, owner, writable, readable, hung_up, destroyed, step, run,
}
use mini_reactor.Net.Connection.Closing.{
  Spends, Spends-then, effect_if-closes, IsQuiet-Spends, send_in_loop-IsQuiet, handle_write-IsQuiet,
}

shutdown_from-Spends : (s : StateE) (c : Connection) → c.state ≡ s → Spends s (shutdown_from s c)
shutdown_from-Spends connecting c e = rw e (omega arith)
shutdown_from-Spends connected c e =
    omega (arith, effect_if-closes (not c.channel.writing) shutdown_write refl)
shutdown_from-Spends disconnecting c e = rw e (omega arith)
shutdown_from-Spends disconnected c e = rw e (omega arith)

close_from-Spends : (s : StateE) (c : Connection) → c.state ≡ s → Spends s (close_from s c)
close_from-Spends connecting c e = omega arith
close_from-Spends connected c e = omega arith
close_from-Spends disconnecting c e = rw e (omega arith)
close_from-Spends disconnected c e = rw e (omega arith)

handle_close-Spends : (c : Connection) → Spends c.state (handle_close c)
unfolding handle_close
handle_close-Spends c = close_from-Spends c.state c refl

act-Spends : (a : Act) (c : Connection) → Spends c.state (act a c)
unfolding act shutdown
act-Spends (send asked w) c =
    IsQuiet-Spends c.state (send_in_loop asked w c) (send_in_loop-IsQuiet asked w c)
act-Spends shut c = shutdown_from-Spends c.state c refl
act-Spends start_reading c = omega arith
act-Spends stop_reading c = omega arith

act_all-Spends : (acts : List Act) (c : Connection) → Spends c.state (act_all acts c)
unfolding act_all
act_all-Spends [] c = omega arith
act_all-Spends (a ∷ acts) c =
    Spends-then c.state (act a c).0 (act a c).1 (act_all acts (act a c).1) (act-Spends a c)
      (act_all-Spends acts (act a c).1)

module _ (on_message : Buffer → Buffer × List Act) where
  message-Spends : (c : Connection) → Spends c.state (message on_message c)
  unfolding message
  message-Spends c =
      let c' = record c { input_buffer = (on_message c.input_buffer).0 } in
      Spends-then c.state (message_callback ∷ []) c' (act_all (on_message c.input_buffer).1 c')
        (omega arith) (act_all-Spends (on_message c.input_buffer).1 c')

  handle_read-Spends :
      (rs : List ReadResult) (c : Connection) → Spends c.state (handle_read on_message rs c)
  unfolding handle_read
  handle_read-Spends [] c = omega arith
  handle_read-Spends (failed e ∷ rs) c =
      if_holds (Spends c.state) (e == 11) ([], c) (handle_close (fill on_message (failed e) c))
        (omega arith) (handle_close-Spends (fill on_message (failed e) c))
  handle_read-Spends (received [] ∷ rs) c = handle_close-Spends (fill on_message (received []) c)
  handle_read-Spends (received (x ∷ xs) ∷ rs) c =
      let r = message on_message (fill on_message (received (x ∷ xs)) c) in
      let first = message-Spends (fill on_message (received (x ∷ xs)) c) in
      if_holds (Spends c.state) r.1.channel.reading (also r.0 (handle_read on_message rs r.1)) r
        (Spends-then c.state r.0 r.1 (handle_read on_message rs r.1) first
          (handle_read-Spends rs r.1))
        first

  step-Spends : (s : Step) (c : Connection) → Spends c.state (step on_message s c)
  unfolding step connection_destroyed
  step-Spends (owner a) c = act-Spends a c
  step-Spends (writable w) c = IsQuiet-Spends c.state (handle_write w c) (handle_write-IsQuiet w c)
  step-Spends (readable rs) c = handle_read-Spends rs c
  step-Spends hung_up c = handle_close-Spends c
  step-Spends destroyed c = omega arith

  -- Over any steps the close callback is called at most once; and never from `kDisconnecting` or
  -- `kDisconnected` on.
  pub run-Spends : (ss : List Step) (c : Connection) → Spends c.state (run on_message ss c)
  unfolding run
  run-Spends [] c = omega arith
  run-Spends (s ∷ ss) c =
      Spends-then c.state (step on_message s c).0 (step on_message s c).1
        (run on_message ss (step on_message s c).1) (step-Spends s c)
        (run-Spends ss (step on_message s c).1)
