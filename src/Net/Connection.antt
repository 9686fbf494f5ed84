-- ===== src/Net/Connection.antt =====
-- One connection: include/reactor/net/TcpConnection.h and src/net/TcpConnection.cpp, in its loop's
-- thread, where `RunInLoop` calls at once. What a system call gives is an argument of the step
-- that makes it; what the code asks of the system and of its callbacks is a list of effects.
pub mod Stream
pub mod Closing
mod Examples
use mini_reactor.Base.{
  ℕ, zero, suc, ◌+◌, ltb, leb, ◌==◌, if◌then◌else◌, Bool, true, false, not, ◌&&◌, List, [], ◌∷◌,
  ◌++◌, length, take, drop,
}
use mini_reactor.Net.Buffer.{
  Buffer, readable_bytes, contents, append, retrieve, ReadResult, received, failed, read_fd,
}
use mini_reactor.Net.Channel.{
  Events, no_events, set_events, enable_reading, disable_reading, enable_writing, disable_writing,
  disable_all,
}

pub data StateE : Type 0 where
  connecting connected disconnecting disconnected : StateE

-- The two flags say whether the callback is set.
pub record Connection : Type 0 where
  pub state : StateE
  pub channel : Events
  pub input_buffer : Buffer
  pub output_buffer : Buffer
  pub high_water_mark : ℕ
  pub write_complete_callback : Bool
  pub high_water_mark_callback : Bool

pub data Effect : Type 0 where
  -- `Send` was called with these bytes, and the kernel took or the connection dropped these.
  requested written dropped : List ℕ → Effect
  queue_write_complete : Effect
  high_water : ℕ → Effect
  shutdown_write : Effect
  connection_callback close_callback message_callback : Effect
  close_fd : Effect

-- What `write` returns: a count, EAGAIN, or another error.
pub data WriteResult : Type 0 where
  accepted : ℕ → WriteResult
  would_block write_error : WriteResult

abbrev pub effect_if : Bool → Effect → List Effect
effect_if true e = e ∷ []
effect_if false e = []

-- What is left of a `Send`, at the end of the output buffer.
unfoldable pub store : List ℕ → Connection → List Effect × Connection
unfolding append set_events
store rest c =
    let old_len = readable_bytes c.output_buffer in
    let len = old_len + length rest in
    let cross_high_water =
      ltb old_len c.high_water_mark && leb c.high_water_mark len && c.high_water_mark_callback in
    (
      effect_if cross_high_water (high_water len),
      record c {
        output_buffer = append rest c.output_buffer;
        channel = if c.channel.writing then c.channel else set_events enable_writing c.channel;
      },
    )

abbrev pub store_rest : List ℕ → Connection → List Effect × Connection
store_rest rest c = if ltb 0 (length rest) then store rest c else ([], c)

abbrev pub also : List Effect → List Effect × Connection → List Effect × Connection
also es (fs, c) = (es ++ fs, c)

-- The write that `SendInLoop` tries if nothing waits.
abbrev pub direct : List ℕ → WriteResult → Connection → List Effect × Connection
direct data_ (accepted n) c =
    also
      (written (take n data_)
        ∷ effect_if (length (drop n data_) == 0 && c.write_complete_callback) queue_write_complete)
      (store_rest (drop n data_) c)
direct data_ would_block c = store_rest data_ c
direct data_ write_error c = (dropped data_ ∷ [], c)

abbrev pub is_disconnected : StateE → Bool
is_disconnected disconnected = true
is_disconnected _ = false

unfoldable pub send_in_loop : List ℕ → WriteResult → Connection → List Effect × Connection
unfolding store
send_in_loop data_ w c = also (requested data_ ∷ []) (
    if is_disconnected c.state
    then (dropped data_ ∷ [], c)
    else if readable_bytes c.output_buffer == 0
    then direct data_ w c
    else store_rest data_ c)

abbrev pub is_disconnecting : StateE → Bool
is_disconnecting disconnecting = true
is_disconnecting _ = false

-- `HandleWrite` after `n` bytes went out.
unfoldable pub wrote : ℕ → Connection → List Effect × Connection
unfolding retrieve set_events
wrote n c =
    let out = retrieve n c.output_buffer in
    if readable_bytes out == 0
    then (
      written (take n (contents c.output_buffer))
            ∷ effect_if c.write_complete_callback queue_write_complete
          ++ effect_if (is_disconnecting c.state) shutdown_write,
      record c { output_buffer = out; channel = set_events disable_writing c.channel },
    )
    else (written (take n (contents c.output_buffer)) ∷ [], record c { output_buffer = out })

abbrev pub wrote_result : WriteResult → Connection → List Effect × Connection
wrote_result (accepted zero) c = ([], c)
wrote_result (accepted (suc n)) c = wrote (suc n) c
wrote_result would_block c = ([], c)
wrote_result write_error c = ([], c)

unfoldable pub handle_write : WriteResult → Connection → List Effect × Connection
unfolding wrote
handle_write w c = if c.channel.writing then wrote_result w c else ([], c)

abbrev pub shutdown_from : StateE → Connection → List Effect × Connection
shutdown_from connected c =
    (effect_if (not c.channel.writing) shutdown_write, record c { state = disconnecting })
shutdown_from _ c = ([], c)

unfoldable pub shutdown : Connection → List Effect × Connection
shutdown c = shutdown_from c.state c

abbrev pub close : Connection → List Effect × Connection
close c = (
  connection_callback ∷ close_callback ∷ [],
  record c { state = disconnecting; channel = set_events disable_all c.channel },
)

abbrev pub close_from : StateE → Connection → List Effect × Connection
close_from disconnecting c = ([], c)
close_from disconnected c = ([], c)
close_from connecting c = close c
close_from connected c = close c

unfoldable pub handle_close : Connection → List Effect × Connection
unfolding set_events
handle_close c = close_from c.state c

unfoldable pub connection_established : Connection → List Effect × Connection
unfolding set_events
connection_established c = (
  connection_callback ∷ [],
  record c { state = connected; channel = set_events enable_reading c.channel },
)

-- The channel's mask stays as it is; its descriptor leaves the epoll set.
unfoldable pub connection_destroyed : Connection → List Effect × Connection
connection_destroyed c = (close_fd ∷ [], record c { state = disconnected })

-- What the owner of a connection does to it.
pub data Act : Type 0 where
  send : List ℕ → WriteResult → Act
  shut start_reading stop_reading : Act

unfoldable pub act : Act → Connection → List Effect × Connection
unfolding send_in_loop shutdown set_events
act (send data_ w) c = send_in_loop data_ w c
act shut c = shutdown c
act start_reading c = ([], record c { channel = set_events enable_reading c.channel })
act stop_reading c = ([], record c { channel = set_events disable_reading c.channel })

unfoldable pub act_all : List Act → Connection → List Effect × Connection
unfolding act
act_all [] c = ([], c)
act_all (a ∷ rest) c = let (es, c') = act a c in also es (act_all rest c')

-- The steps of the loop's thread.
pub data Step : Type 0 where
  owner : Act → Step
  writable : WriteResult → Step
  readable : List ReadResult → Step
  hung_up destroyed : Step

-- `message_callback_`: what it takes from the input buffer and does to the connection.
module _ (on_message : Buffer → Buffer × List Act) where
  unfoldable pub message : Connection → List Effect × Connection
  unfolding act_all
  message c =
      let (rest, acts) = on_message c.input_buffer in
      also (message_callback ∷ []) (act_all acts (record c { input_buffer = rest }))

  abbrev pub fill : ReadResult → Connection → Connection
  fill r c = record c { input_buffer = (read_fd r c.input_buffer).1 }

  -- The results of `ReadFd` in order; behind the last it gives EAGAIN. An errno of 11 is EAGAIN,
  -- which is EWOULDBLOCK on Linux.
  unfoldable pub handle_read : List ReadResult → Connection → List Effect × Connection
  unfolding read_fd message handle_close
  handle_read [] c = ([], c)
  handle_read (failed e ∷ rs) c = if e == 11 then ([], c) else handle_close (fill (failed e) c)
  handle_read (received [] ∷ rs) c = handle_close (fill (received []) c)
  handle_read (received (x ∷ xs) ∷ rs) c =
      let (es, c') = message (fill (received (x ∷ xs)) c) in
      let more = handle_read rs c' in if c'.channel.reading then also es more else (es, c')

  unfoldable pub step : Step → Connection → List Effect × Connection
  unfolding act handle_write handle_read handle_close connection_destroyed
  step (owner a) c = act a c
  step (writable w) c = handle_write w c
  step (readable rs) c = handle_read rs c
  step hung_up c = handle_close c
  step destroyed c = connection_destroyed c

  unfoldable pub run : List Step → Connection → List Effect × Connection
  unfolding step
  run [] c = ([], c)
  run (s ∷ ss) c = let (es, c') = step s c in also es (run ss c')
