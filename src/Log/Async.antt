-- ===== src/Log/Async.antt =====
-- The asynchronous log: `LogBuffer` of include/reactor/log/LogStream.h and
-- include/reactor/log/AsyncLogging.h, src/log/AsyncLogging.cpp. The front end's `Append` and the
-- two parts of the back end's round (the swap under the lock, and the writing after it) are steps
-- that interleave. A null pointer is `none`; a buffer is the bytes in it.
pub mod Lossless
mod Examples
use mini_reactor.Base.{
  ℕ, zero, suc, ◌+◌, ◌-◌, ◌*◌, ltb, if◌then◌else◌, Bool, true, false, List, [], ◌∷◌, ◌++◌, Option,
  none, some, length, take,
}

abbrev pub Bytes : Type 0
Bytes = List ℕ

abbrev pub k_large_buffer : ℕ
k_large_buffer = 4000 * 1000

abbrev pub avail : Bytes → ℕ
avail buffer = k_large_buffer - length buffer

-- `LogBuffer::Append`: a line that does not fit is dropped.
unfoldable pub append_to : Bytes → Bytes → Bytes
append_to buffer line = if ltb (length line) (avail buffer) then buffer ++ line else buffer

-- The members, the back end's locals, and the file. `writing` says that the back end is between
-- the swap and the end of its round.
pub record Logging : Type 0 where
  pub current_buffer : Bytes
  pub next_buffer : Option Bytes
  pub buffers : List Bytes
  pub buffer1 : Option Bytes
  pub buffer2 : Option Bytes
  pub buffers_to_write : List Bytes
  pub file : Bytes
  pub writing : Bool

abbrev pub started : Logging
started = record {
  current_buffer = [];
  next_buffer = some [];
  buffers = [];
  buffer1 = some [];
  buffer2 = some [];
  buffers_to_write = [];
  file = [];
  writing = false;
}

abbrev pub or_new : Option Bytes → Bytes
or_new none = []
or_new (some buffer) = buffer

unfoldable pub append : Bytes → Logging → Logging
unfolding append_to
append line s =
    if ltb (length line) (avail s.current_buffer)
    then record s { current_buffer = append_to s.current_buffer line }
    else record s {
      buffers = s.buffers ++ (s.current_buffer ∷ []);
      current_buffer = append_to (or_new s.next_buffer) line;
      next_buffer = none;
    }

-- `if (!pointer) pointer = std::move(other)`: the two pointers after it.
abbrev pub fill_from : Option Bytes → Option Bytes → Option Bytes × Option Bytes
fill_from none other = (other, none)
fill_from (some buffer) other = (some buffer, other)

abbrev swap_with : Option Bytes → Logging → Option Logging
swap_with none s = none
swap_with (some empty) s =
    let (next, buffer2) = fill_from s.next_buffer s.buffer2 in
    some (record s {
      current_buffer = empty;
      next_buffer = next;
      buffers = s.buffers_to_write;
      buffer1 = none;
      buffer2 = buffer2;
      buffers_to_write = s.buffers ++ (s.current_buffer ∷ []);
      writing = true;
    })

-- What the back end does under the lock. The front end has no buffer if `buffer1` is null.
unfoldable pub swap : Logging → Option Logging
swap s = swap_with s.buffer1 s

-- `back` and `pop_back`; on an empty vector they are undefined.
abbrev pub pop_back : List Bytes → Option (Bytes × List Bytes)
pop_back [] = none
pop_back (b ∷ []) = some (b, [])
pop_back (b ∷ c ∷ bs) = elim (pop_back (c ∷ bs)) [
  | none ↦ none
  | some (last, rest) ↦ some (last, b ∷ rest)
]

-- A null pointer takes the last vector entry, which is reset.
abbrev pub refill : Option Bytes → List Bytes → Option (Bytes × List Bytes)
refill (some buffer) bs = some (buffer, bs)
refill none bs = elim (pop_back bs) [ none ↦ none | some (last, rest) ↦ some ([], rest) ]

abbrev pub concat : List Bytes → Bytes
concat [] = []
concat (b ∷ bs) = b ++ concat bs

-- At most two of the written buffers are kept.
abbrev pub keep_two : List Bytes → List Bytes
keep_two bs = if ltb 2 (length bs) then take 2 bs else bs

abbrev pub write_with : Option Bytes → Option Bytes → Logging → Option Logging
write_with buffer1 buffer2 s = elim (refill buffer1 (keep_two s.buffers_to_write)) [
  | none ↦ none
  | some (first, left) ↦ elim (refill buffer2 left) [
    | none ↦ none
    | some (second, rest) ↦ some (record s {
      buffer1 = some first;
      buffer2 = some second;
      buffers_to_write = [];
      file = s.file ++ concat s.buffers_to_write;
      writing = false;
    })
  ]
]

-- The round's writes, and the two buffers for the next round.
unfoldable pub write : Logging → Option Logging
write s = write_with s.buffer1 s.buffer2 s

abbrev pub next_part : Bool → Logging → Option Logging
next_part false s = swap s
next_part true s = write s

pub data Step : Type 0 where
  line : Bytes → Step
  backend : Step

unfoldable pub step : Step → Logging → Option Logging
unfolding append swap write
step (line bytes) s = some (append bytes s)
step backend s = next_part s.writing s

unfoldable pub run : List Step → Logging → Option Logging
unfolding step
run [] s = some s
run (a ∷ rest) s = elim (step a s) [ none ↦ none | some s' ↦ run rest s' ]

-- What is left behind: the current buffer is a null pointer, so that no line may follow.
pub record Swept : Type 0 where
  pub current_buffer : Option Bytes
  pub next_buffer : Option Bytes
  pub buffers : List Bytes
  pub buffers_to_write : List Bytes
  pub file : Bytes

-- The sweep after the loop: everything that is left goes to the file.
unfoldable pub sweep : Logging → Swept
sweep s = record {
  current_buffer = none;
  next_buffer = s.next_buffer;
  buffers = s.buffers_to_write;
  buffers_to_write = s.buffers ++ (s.current_buffer ∷ []);
  file = s.file ++ concat (s.buffers ++ (s.current_buffer ∷ []));
}

abbrev pub sweep_after : Bool → Logging → Option Swept
sweep_after false s = some (sweep s)
sweep_after true s = elim (write s) [ none ↦ none | some s' ↦ some (sweep s') ]

-- When `running_` is false the back end completes its round, if it is in one, and sweeps.
unfoldable pub finish : Logging → Option Swept
unfolding write sweep
finish s = sweep_after s.writing s
