-- ===== src/Net/Connector.antt =====
-- The client's connector: include/reactor/net/Connector.h and src/net/Connector.cpp, in its loop's
-- thread. Delays are in half seconds. What a system call gives is an argument of the step that makes
-- it; what the code asks for is a list of effects. The calls of `ResetChannel` that
-- `RemoveAndResetChannel` queues are counted.
pub mod Descriptors
mod Examples
use mini_reactor.Base.{
  ℕ, zero, suc, ◌+◌, ◌*◌, ltb, if◌then◌else◌, Bool, true, false, not, List, [], ◌∷◌, ◌++◌, Option,
  none, some,
}

pub data State : Type 0 where
  disconnected connecting connected : State

pub record Connector : Type 0 where
  pub state : State
  pub connect : Bool
  pub channel : Option ℕ
  pub retry_delay : ℕ
  pub retry_timer : Bool
  pub new_connection_callback : Bool
  pub queued_resets : ℕ

abbrev pub k_init_retry_delay : ℕ
k_init_retry_delay = 1

abbrev pub k_max_retry_delay : ℕ
k_max_retry_delay = 60

abbrev pub init : Connector
init = record {
  state = disconnected;
  connect = false;
  channel = none;
  retry_delay = k_init_retry_delay;
  retry_timer = false;
  new_connection_callback = true;
  queued_resets = 0;
}

pub data Effect : Type 0 where
  -- `socket` gave this descriptor, it was closed, or it was handed over.
  opened closed handed : ℕ → Effect
  error_callback cancel_timer : Effect
  run_after : ℕ → Effect

-- How `Connect` ends: no socket; an illegal address; and the three groups of errno.
pub data Outcome : Type 0 where
  no_socket : Outcome
  bad_address in_progress again fatal : ℕ → Outcome

abbrev pub also : List Effect → List Effect × Connector → List Effect × Connector
also es (fs, c) = (es ++ fs, c)

abbrev pub capped : ℕ → ℕ
capped delay = if ltb k_max_retry_delay delay then k_max_retry_delay else delay

unfoldable pub retry : ℕ → Connector → List Effect × Connector
retry fd c = also (closed fd ∷ []) (
    if c.connect
    then (
      error_callback ∷ run_after c.retry_delay ∷ [],
      record c {
        state = disconnected;
        retry_timer = true;
        retry_delay = capped (c.retry_delay * 2);
      },
    )
    else ([], record c { state = disconnected }))

unfoldable pub connect_ : Outcome → Connector → List Effect × Connector
unfolding retry
connect_ no_socket c = (error_callback ∷ [], c)
connect_ (bad_address fd) c = (opened fd ∷ closed fd ∷ error_callback ∷ [], c)
connect_ (in_progress fd) c = (opened fd ∷ [], record c { state = connecting; channel = some fd })
connect_ (again fd) c = also (opened fd ∷ []) (retry fd c)
connect_ (fatal fd) c = (opened fd ∷ closed fd ∷ error_callback ∷ [], c)

abbrev pub is_disconnected : State → Bool
is_disconnected disconnected = true
is_disconnected _ = false

unfoldable pub start_in_loop : Outcome → Connector → List Effect × Connector
unfolding connect_
start_in_loop o c =
    if c.connect then (if is_disconnected c.state then connect_ o c else ([], c)) else ([], c)

unfoldable pub start : Outcome → Connector → List Effect × Connector
unfolding start_in_loop
start o c = start_in_loop o (record c { connect = true })

-- The channel goes when the queued `ResetChannel` runs.
abbrev pub drop_connecting : State → Option ℕ → Connector → List Effect × Connector
drop_connecting connecting (some fd) c =
    (closed fd ∷ [], record c { state = disconnected; queued_resets = c.queued_resets + 1 })
drop_connecting _ _ c = ([], c)

unfoldable pub stop_in_loop : Connector → List Effect × Connector
stop_in_loop c =
    also (if c.retry_timer then cancel_timer ∷ [] else [])
      (drop_connecting c.state c.channel (record c { retry_timer = false }))

unfoldable pub stop : Connector → List Effect × Connector
unfolding stop_in_loop
stop c = stop_in_loop (record c { connect = false })

-- What SO_ERROR and the two addresses tell.
pub data Verdict : Type 0 where
  success failure self_connect : Verdict

abbrev pub hand_over : ℕ → Connector → List Effect
hand_over fd c =
    if c.connect
    then (if c.new_connection_callback then handed fd ∷ [] else closed fd ∷ [])
    else closed fd ∷ []

abbrev pub conclude : Verdict → ℕ → Connector → List Effect × Connector
conclude success fd c =
    (hand_over fd c, record c { state = connected; retry_delay = k_init_retry_delay })
conclude failure fd c = retry fd c
conclude self_connect fd c = retry fd c

-- With a null channel in `kConnecting` there is no callback to call this.
abbrev pub write_in : Verdict → State → Option ℕ → Connector → List Effect × Connector
write_in v connecting (some fd) c = conclude v fd (record c { queued_resets = c.queued_resets + 1 })
write_in v _ _ c = ([], c)

unfoldable pub handle_write : Verdict → Connector → List Effect × Connector
unfolding retry
handle_write v c = write_in v c.state c.channel c

-- The functors that were queued.
abbrev pub reset_if : ℕ → Connector → Connector
reset_if zero c = c
reset_if (suc n) c = record c { channel = none; queued_resets = 0 }

unfoldable pub reset_channel : Connector → Connector
reset_channel c = reset_if c.queued_resets c

pub data Step : Type 0 where
  starts : Outcome → Step
  stops : Step
  timer : Outcome → Step
  writable : Verdict → Step

unfoldable pub step : Step → Connector → List Effect × Connector
unfolding start stop start_in_loop handle_write
step (starts o) c = start o c
step stops c = stop c
step (timer o) c = start_in_loop o (record c { retry_timer = false })
step (writable v) c = handle_write v c

-- A step, and then the functors that it queued.
unfoldable pub turn : Step → Connector → List Effect × Connector
unfolding step reset_channel
turn s c = let (es, c') = step s c in (es, reset_channel c')

unfoldable pub run : List Step → Connector → List Effect × Connector
unfolding turn
run [] c = ([], c)
run (s ∷ ss) c = let (es, c') = turn s c in also es (run ss c')
