-- ===== src/Net/Connection/Stream/Running.antt =====
-- The byte stream over every step of a connection.
use mini_reactor.Base.{◌≡◌, ◌++◌, ◌==◌, refl, List, [], ◌∷◌, if_holds, not}
use mini_reactor.Net.Buffer.{contents, Buffer, ReadResult, received, failed}
use mini_reactor.Net.Buffer.Contents.{IsValid}
use mini_reactor.Net.Connection.{
  Connection, shutdown_write, connection_callback, close_callback, message_callback, close_fd,
  effect_if, shutdown, shutdown_from, handle_close, close, close_from, connection_destroyed, StateE,
  connecting, connected, disconnecting, disconnected, Act, send, shut, start_reading, stop_reading,
  act, act_all, message, fill, handle_read, Step, owner, writable, readable, hung_up, destroyed,
  step, run,
}
use mini_reactor.Net.Connection.Stream.{
  requests, writes, DropsNothing, CarriesTo, Carries-still, Carries-then, effect_if-IsStill,
}
use mini_reactor.Net.Connection.Stream.Sending.{send_in_loop-Carries, handle_write-Carries}

pub shutdown_from-Carries :
    (s : StateE) (c : Connection)
    → IsValid c.output_buffer
    → CarriesTo c.output_buffer (shutdown_from s c)
shutdown_from-Carries connecting c v = Carries-still c.output_buffer [] v tt
shutdown_from-Carries connected c v =
    Carries-still c.output_buffer (effect_if (not c.channel.writing) shutdown_write) v
      (effect_if-IsStill (not c.channel.writing) shutdown_write (refl, refl))
shutdown_from-Carries disconnecting c v = Carries-still c.output_buffer [] v tt
shutdown_from-Carries disconnected c v = Carries-still c.output_buffer [] v tt

close-Carries : (c : Connection) → IsValid c.output_buffer → CarriesTo c.output_buffer (close c)
close-Carries c v =
    Carries-still c.output_buffer (connection_callback ∷ close_callback ∷ []) v
      ((refl, refl), ((refl, refl), tt))

close_from-Carries :
    (s : StateE) (c : Connection)
    → IsValid c.output_buffer
    → CarriesTo c.output_buffer (close_from s c)
close_from-Carries connecting c v = close-Carries c v
close_from-Carries connected c v = close-Carries c v
close_from-Carries disconnecting c v = Carries-still c.output_buffer [] v tt
close_from-Carries disconnected c v = Carries-still c.output_buffer [] v tt

pub handle_close-Carries :
    (c : Connection) → IsValid c.output_buffer → CarriesTo c.output_buffer (handle_close c)
unfolding handle_close
handle_close-Carries c v = close_from-Carries c.state c v

act-Carries :
    (a : Act) (c : Connection) → IsValid c.output_buffer → CarriesTo c.output_buffer (act a c)
unfolding act shutdown
act-Carries (send asked w) c v = send_in_loop-Carries asked w c v
act-Carries shut c v = shutdown_from-Carries c.state c v
act-Carries start_reading c v = Carries-still c.output_buffer [] v tt
act-Carries stop_reading c v = Carries-still c.output_buffer [] v tt

act_all-Carries :
    (acts : List Act) (c : Connection)
    → IsValid c.output_buffer
    → CarriesTo c.output_buffer (act_all acts c)
unfolding act_all
act_all-Carries [] c v = Carries-still c.output_buffer [] v tt
act_all-Carries (a ∷ acts) c v =
    let first = act-Carries a c v in
    Carries-then c.output_buffer (act a c).1.output_buffer (act a c).0 (act_all acts (act a c).1)
      first (act_all-Carries acts (act a c).1 first.valid)

module _ (on_message : Buffer → Buffer × List Act) where
  message-Carries :
      (c : Connection) → IsValid c.output_buffer → CarriesTo c.output_buffer (message on_message c)
  unfolding message
  message-Carries c v =
      Carries-then c.output_buffer c.output_buffer (message_callback ∷ [])
        (act_all (on_message c.input_buffer).1
          (record c { input_buffer = (on_message c.input_buffer).0 }))
        (Carries-still c.output_buffer (message_callback ∷ []) v ((refl, refl), tt))
        (act_all-Carries (on_message c.input_buffer).1
          (record c { input_buffer = (on_message c.input_buffer).0 }) v)

  handle_read-Carries :
      (rs : List ReadResult) (c : Connection)
      → IsValid c.output_buffer
      → CarriesTo c.output_buffer (handle_read on_message rs c)
  unfolding handle_read
  handle_read-Carries [] c v = Carries-still c.output_buffer [] v tt
  handle_read-Carries (failed e ∷ rs) c v =
      if_holds (CarriesTo c.output_buffer) (e == 11) ([], c) _
        (Carries-still c.output_buffer [] v tt)
        (handle_close-Carries (fill on_message (failed e) c) v)
  handle_read-Carries (received [] ∷ rs) c v =
      handle_close-Carries (fill on_message (received []) c) v
  handle_read-Carries (received (x ∷ xs) ∷ rs) c v =
      let (es, c') = message on_message (fill on_message (received (x ∷ xs)) c) in
      let first = message-Carries (fill on_message (received (x ∷ xs)) c) v in
      if_holds (CarriesTo c.output_buffer) c'.channel.reading _ (es, c')
        (Carries-then c.output_buffer c'.output_buffer es (handle_read on_message rs c') first
          (handle_read-Carries rs c' first.valid))
        first

  step-Carries :
      (s : Step) (c : Connection)
      → IsValid c.output_buffer
      → CarriesTo c.output_buffer (step on_message s c)
  unfolding step connection_destroyed
  step-Carries (owner a) c v = act-Carries a c v
  step-Carries (writable w) c v = handle_write-Carries w c v
  step-Carries (readable rs) c v = handle_read-Carries rs c v
  step-Carries hung_up c v = handle_close-Carries c v
  step-Carries destroyed c v = Carries-still c.output_buffer (close_fd ∷ []) v ((refl, refl), tt)

  run-Carries :
      (ss : List Step) (c : Connection)
      → IsValid c.output_buffer
      → CarriesTo c.output_buffer (run on_message ss c)
  unfolding run
  run-Carries [] c v = Carries-still c.output_buffer [] v tt
  run-Carries (s ∷ ss) c v =
      let first = step-Carries s c v in
      Carries-then c.output_buffer (step on_message s c).1.output_buffer (step on_message s c).0
        (run on_message ss (step on_message s c).1) first
        (run-Carries ss (step on_message s c).1 first.valid)

  -- Over any steps of a connection whose output buffer has its cursors in order, whatever the
  -- kernel takes of each write and whatever the message callback does: the cursors stay in order,
  -- and if no byte was dropped, then the bytes that the kernel took and behind them those that
  -- still wait are the bytes that waited before and behind them those given to `Send`, in order and
  -- each once.
  pub run-writes :
      (ss : List Step) (c : Connection)
      → IsValid c.output_buffer
      → DropsNothing (run on_message ss c).0
      → IsValid (run on_message ss c).1.output_buffer
        × (writes (run on_message ss c).0 ++ contents (run on_message ss c).1.output_buffer
            ≡ contents c.output_buffer ++ requests (run on_message ss c).0)
  run-writes ss c v kept = let r = run-Carries ss c v in (r.valid, r.stream kept)
