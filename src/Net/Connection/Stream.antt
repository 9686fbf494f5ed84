-- ===== src/Net/Connection/Stream.antt =====
-- The byte stream of a connection: what is sent leaves in order, once.
pub mod Sending
pub mod Running
use mini_reactor.Base.{
  ℕ, zero, suc, ◌+◌, ltb, leb, ◌==◌, if◌then◌else◌, ◌≡◌, ◌≢◌, refl, sym, ap, ap₂, ◌∙◌, subst, Bool,
  true, false, not, ◌&&◌, List, [], ◌∷◌, ◌++◌, length, take, drop, take-append-drop, All,
  append-nil, append_assoc, Bool-cases, inl, inr, arith,
}
use mini_reactor.Net.Buffer.{
  Buffer, readable_bytes, contents, append, retrieve, ReadResult, received, failed, read_fd,
}
use mini_reactor.Net.Buffer.Contents.{
  IsValid, contents-append, append-IsValid, retrieve-IsValid, contents-retrieve,
}
use mini_reactor.Net.Channel.{Events, set_events, enable_writing}
use mini_reactor.Net.Connection.{
  StateE, connecting, connected, disconnecting, disconnected, Connection, Effect, requested,
  written, dropped, queue_write_complete, high_water, shutdown_write, connection_callback,
  close_callback, message_callback, close_fd, WriteResult, accepted, would_block, write_error,
  effect_if, also, store, send_in_loop, wrote, handle_write, shutdown, handle_close,
  connection_destroyed, is_disconnected, is_disconnecting, Act, send, shut, start_reading,
  stop_reading, act, act_all, message, handle_read, Step, owner, writable, readable, hung_up,
  destroyed, step, run,
}

abbrev request_of : Effect → List ℕ
request_of (requested bytes) = bytes
request_of _ = []

abbrev write_of : Effect → List ℕ
write_of (written bytes) = bytes
write_of _ = []

abbrev IsKept : Effect → Type 0
IsKept (dropped bytes) = ⊥
IsKept _ = Unit

-- The bytes given to `Send`, and those that the kernel took.
abbrev pub requests : List Effect → List ℕ
requests [] = []
requests (e ∷ es) = request_of e ++ requests es

abbrev pub writes : List Effect → List ℕ
writes [] = []
writes (e ∷ es) = write_of e ++ writes es

-- No byte was dropped.
abbrev pub DropsNothing : List Effect → Type 0
DropsNothing es = All IsKept es

pub requests-append : (es fs : List Effect) → requests (es ++ fs) ≡ requests es ++ requests fs
requests-append [] fs = refl
requests-append (e ∷ es) fs =
    ap (λ l. request_of e ++ l) (requests-append es fs)
    ∙ sym (append_assoc (request_of e) (requests es) (requests fs))

pub writes-append : (es fs : List Effect) → writes (es ++ fs) ≡ writes es ++ writes fs
writes-append [] fs = refl
writes-append (e ∷ es) fs =
    ap (λ l. write_of e ++ l) (writes-append es fs)
    ∙ sym (append_assoc (write_of e) (writes es) (writes fs))

DropsNothing-split :
    (es fs : List Effect) → DropsNothing (es ++ fs) → DropsNothing es × DropsNothing fs
DropsNothing-split [] fs h = (tt, h)
DropsNothing-split (e ∷ es) fs h =
    let (left, right) = DropsNothing-split es fs h.1 in ((h.0, left), right)

-- What waited, and what was requested, left or waits, in this order.
pub record Carries (before : Buffer) (es : List Effect) (after : Buffer) : Type 0 where
  pub valid : IsValid after
  pub stream : DropsNothing es → writes es ++ contents after ≡ contents before ++ requests es

abbrev pub CarriesTo : Buffer → List Effect × Connection → Type 0
CarriesTo before (es, c) = Carries before es c.output_buffer

-- Effects that move no bytes.
abbrev pub IsStill : Effect → Type 0
IsStill e = (request_of e ≡ []) × (write_of e ≡ [])

pub still_moves : (es : List Effect) → All IsStill es → (requests es ≡ []) × (writes es ≡ [])
still_moves [] h = (refl, refl)
still_moves (e ∷ es) h = let (r, w) = still_moves es h.1 in rw (h.0.0, h.0.1, r, w) (refl, refl)

pub Carries-still : (b : Buffer) (es : List Effect) → IsValid b → All IsStill es → Carries b es b
Carries-still b es v h =
    let (r, w) = still_moves es h in
    record { valid = v; stream = λ k. rw (r, w) (sym (append-nil (contents b))) }

pub Carries-join :
    (a b c : Buffer) (es fs : List Effect)
    → Carries a es b
    → Carries b fs c
    → Carries a (es ++ fs) c
Carries-join a b c es fs h k = record {
  valid = k.valid;
  stream = λ kept.
      let (left, right) = DropsNothing-split es fs kept in
      ap (λ w. w ++ contents c) (writes-append es fs)
      ∙ append_assoc (writes es) (writes fs) (contents c)
      ∙ ap (λ l. writes es ++ l) (k.stream right)
      ∙ sym (append_assoc (writes es) (contents b) (requests fs))
      ∙ ap (λ l. l ++ requests fs) (h.stream left)
      ∙ append_assoc (contents a) (requests es) (requests fs)
      ∙ ap (λ l. contents a ++ l) (sym (requests-append es fs));
}

pub Carries-then :
    (a b : Buffer) (es : List Effect) (next : List Effect × Connection)
    → Carries a es b
    → CarriesTo b next
    → CarriesTo a (also es next)
Carries-then a b es (fs, c) h k = Carries-join a b c.output_buffer es fs h k

pub effect_if-IsStill : (b : Bool) (e : Effect) → IsStill e → All IsStill (effect_if b e)
effect_if-IsStill true e h = (h, tt)
effect_if-IsStill false e h = tt
