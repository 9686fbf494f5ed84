-- ===== src/Net/Connection/Closing.antt =====
-- The end of a connection: `close_callback`, on which its owner lets go of it, and the half-close.
pub mod Running
use mini_reactor.Base.{
  ℕ, ◌+◌, ◌≤◌, ◌==◌, if◌then◌else◌, ◌≡◌, refl, ap, Bool, true, false, not, ◌&&◌, List, [], ◌∷◌,
  ◌++◌, if_holds, arith, ltb, length, drop, zero, suc, take,
}
use mini_reactor.Net.Buffer.{Buffer, readable_bytes, ReadResult, received, failed}
use mini_reactor.Net.Connection.{
  Connection, Effect, requested, written, dropped, queue_write_complete, shutdown_write,
  close_callback, message_callback, WriteResult, accepted, would_block, write_error, effect_if,
  also, store, store_rest, direct, send_in_loop, wrote, wrote_result, shutdown, shutdown_from,
  handle_write, handle_close, close_from, connection_destroyed, StateE, connecting, connected,
  disconnecting, disconnected, Act, send, shut, start_reading, stop_reading, act, act_all, message,
  fill, handle_read, Step, owner, writable, readable, hung_up, destroyed, step, run,
  is_disconnected, is_disconnecting,
}

abbrev closes_of : Effect → ℕ
closes_of close_callback = 1
closes_of _ = 0

-- How often the close callback was called.
abbrev pub closes : List Effect → ℕ
closes [] = 0
closes (e ∷ es) = closes_of e + closes es

closes-append : (es fs : List Effect) → closes (es ++ fs) ≡ closes es + closes fs
closes-append [] fs = omega arith
closes-append (e ∷ es) fs = omega (arith, closes-append es fs)

-- How often it may still be called from a state.
abbrev pub closes_left : StateE → ℕ
closes_left connecting = 1
closes_left connected = 1
closes_left disconnecting = 0
closes_left disconnected = 0

abbrev pub Spends : StateE → List Effect × Connection → Type 0
Spends s (es, c) = closes es + closes_left c.state ≤ closes_left s

pub Spends-then :
    (s : StateE) (es : List Effect) (c : Connection) (next : List Effect × Connection)
    → Spends s (es, c)
    → Spends c.state next
    → Spends s (also es next)
Spends-then s es c (fs, d) h k = omega (arith, closes-append es fs)

pub effect_if-closes : (b : Bool) (e : Effect) → closes_of e ≡ 0 → closes (effect_if b e) ≡ 0
effect_if-closes true e h = omega arith
effect_if-closes false e h = refl

-- Steps that neither close nor change the state.
abbrev IsQuiet : StateE → List Effect × Connection → Type 0
IsQuiet s (es, c) = (closes es ≡ 0) × (c.state ≡ s)

pub IsQuiet-Spends : (s : StateE) (r : List Effect × Connection) → IsQuiet s r → Spends s r
IsQuiet-Spends s (es, c) (none, same) = omega (arith, none, ap closes_left same)

also-IsQuiet :
    (s : StateE) (es : List Effect) (r : List Effect × Connection)
    → closes es ≡ 0
    → IsQuiet s r
    → IsQuiet s (also es r)
also-IsQuiet s es (fs, c) h k = (omega (arith, closes-append es fs, k.0), k.1)

store_rest-IsQuiet : (rest : List ℕ) (c : Connection) → IsQuiet c.state (store_rest rest c)
unfolding store
store_rest-IsQuiet rest c =
    if_holds (IsQuiet c.state) (ltb 0 (length rest)) (store rest c) ([], c)
      (effect_if-closes _ _ refl, refl) (refl, refl)

direct-IsQuiet :
    (asked : List ℕ) (w : WriteResult) (c : Connection) → IsQuiet c.state (direct asked w c)
direct-IsQuiet asked (accepted n) c =
    also-IsQuiet c.state
      (written (take n asked)
        ∷ effect_if (length (drop n asked) == 0 && c.write_complete_callback) queue_write_complete)
      (store_rest (drop n asked) c)
      (omega (
        arith,
        effect_if-closes (length (drop n asked) == 0 && c.write_complete_callback)
            queue_write_complete refl,
      ))
      (store_rest-IsQuiet (drop n asked) c)
direct-IsQuiet asked would_block c = store_rest-IsQuiet asked c
direct-IsQuiet asked write_error c = (refl, refl)

pub send_in_loop-IsQuiet :
    (asked : List ℕ) (w : WriteResult) (c : Connection) → IsQuiet c.state (send_in_loop asked w c)
unfolding send_in_loop
send_in_loop-IsQuiet asked w c =
    also-IsQuiet c.state (requested asked ∷ [])
      (if is_disconnected c.state
        then (dropped asked ∷ [], c)
        else if readable_bytes c.output_buffer == 0
        then direct asked w c
        else store_rest asked c)
      refl
      (if_holds (IsQuiet c.state) (is_disconnected c.state) (dropped asked ∷ [], c)
        (if readable_bytes c.output_buffer == 0 then direct asked w c else store_rest asked c)
        (refl, refl)
        (if_holds (IsQuiet c.state) (readable_bytes c.output_buffer == 0) (direct asked w c)
          (store_rest asked c) (direct-IsQuiet asked w c) (store_rest-IsQuiet asked c)))

wrote-IsQuiet : (n : ℕ) (c : Connection) → IsQuiet c.state (wrote n c)
unfolding wrote
wrote-IsQuiet n c =
    if_holds (IsQuiet c.state) _ _ _
      (
        omega (
          arith,
          closes-append (effect_if c.write_complete_callback queue_write_complete)
              (effect_if (is_disconnecting c.state) shutdown_write),
          effect_if-closes c.write_complete_callback queue_write_complete refl,
          effect_if-closes (is_disconnecting c.state) shutdown_write refl,
        ),
        refl,
      )
      (refl, refl)

wrote_result-IsQuiet : (w : WriteResult) (c : Connection) → IsQuiet c.state (wrote_result w c)
wrote_result-IsQuiet (accepted zero) c = (refl, refl)
wrote_result-IsQuiet (accepted (suc n)) c = wrote-IsQuiet (suc n) c
wrote_result-IsQuiet would_block c = (refl, refl)
wrote_result-IsQuiet write_error c = (refl, refl)

pub handle_write-IsQuiet : (w : WriteResult) (c : Connection) → IsQuiet c.state (handle_write w c)
unfolding handle_write
handle_write-IsQuiet w c =
    if_holds (IsQuiet c.state) c.channel.writing (wrote_result w c) ([], c)
      (wrote_result-IsQuiet w c) (refl, refl)
