-- ===== src/Net/Buffer.antt =====
-- The byte buffer: include/reactor/net/Buffer.h and src/net/Buffer.cpp. A pointer into the
-- readable bytes is its distance from `Peek()`. The vector's length bounds both cursors, and a
-- vector is shorter than 2^63, so no `size_t` sum of the code wraps.
pub mod Contents
pub mod Crlf
pub mod Reading
mod Examples
use mini_reactor.Base.{
  ℕ, zero, suc, ◌+◌, ◌-◌, ◌≤◌, ltb, leb, if◌then◌else◌, List, [], ◌∷◌, Option, none, some, slice,
  write_at, resize, replicate, length, take, drop, ◌==◌, ◌&&◌, arith,
}
use mathlib.Core.Option

pub record Buffer : Type 0 where
  pub buffer : List ℕ
  pub read_index : ℕ
  pub write_index : ℕ

abbrev pub k_init_buffer_size : ℕ
k_init_buffer_size = 1024

unfoldable pub init : ℕ → Buffer
init init_size = record { buffer = replicate init_size 0; read_index = 0; write_index = 0 }

abbrev pub readable_bytes : Buffer → ℕ
readable_bytes b = b.write_index - b.read_index

abbrev pub writable_bytes : Buffer → ℕ
writable_bytes b = length b.buffer - b.write_index

abbrev pub prependable_bytes : Buffer → ℕ
prependable_bytes b = b.read_index

-- The bytes from `Peek()` to `BeginWrite()`.
abbrev pub contents : Buffer → List ℕ
contents b = slice b.read_index b.write_index b.buffer

unfoldable pub retrieve_all : Buffer → Buffer
retrieve_all b = record b { read_index = 0; write_index = 0 }

unfoldable pub retrieve : ℕ → Buffer → Buffer
unfolding retrieve_all
retrieve len b =
    if ltb len (readable_bytes b)
    then record b { read_index = b.read_index + len }
    else retrieve_all b

unfoldable pub make_space : ℕ → Buffer → Buffer
make_space len b =
    if ltb (writable_bytes b + prependable_bytes b) len
    then record b { buffer = resize 0 (b.write_index + len) b.buffer }
    else record b {
      buffer = write_at b.buffer 0 (contents b);
      read_index = 0;
      write_index = readable_bytes b;
    }

unfoldable pub ensure_writable_bytes : ℕ → Buffer → Buffer
unfolding make_space
ensure_writable_bytes len b = if ltb (writable_bytes b) len then make_space len b else b

-- `std::copy(data, data + len, BeginWrite()); write_index_ += len`
abbrev copy_in : List ℕ → Buffer → Buffer
copy_in bytes b = record b {
  buffer = write_at b.buffer b.write_index bytes;
  write_index = b.write_index + length bytes;
}

unfoldable pub append : List ℕ → Buffer → Buffer
unfolding ensure_writable_bytes
append bytes b = copy_in bytes (ensure_writable_bytes (length bytes) b)

-- `RetrieveUntil(end)` for `end = Peek() + n`; `none` is a failed `assert`.
unfoldable pub retrieve_until : ℕ → Buffer → Option Buffer
unfolding retrieve
retrieve_until n b = if leb n (readable_bytes b) then some (retrieve n b) else none

-- `std::search` for "\r\n", as an offset into the bytes searched.
unfoldable pub search_crlf : List ℕ → Option ℕ
search_crlf [] = none
search_crlf (c ∷ []) = none
search_crlf (c ∷ d ∷ s) =
    if c == 13 && d == 10 then some 0 else Option.map suc (search_crlf (d ∷ s))

unfoldable pub find_crlf : Buffer → Option ℕ
unfolding search_crlf
find_crlf b = search_crlf (contents b)

-- What `readv` did: the bytes that it put through the vectors in order, or an error number.
pub data ReadResult : Type 0 where
  received : List ℕ → ReadResult
  failed : ℕ → ReadResult

abbrev pub extra_size : ℕ
extra_size = 65536

-- The room that `ReadFd` offers: the second vector is used if the first is the smaller.
unfoldable pub offered : Buffer → ℕ
offered b =
    let writable = writable_bytes b in
    if ltb writable extra_size then writable + extra_size else writable

-- The result is `n`, or the saved error number.
pub data ReadReturn : Type 0 where
  count : ℕ → ReadReturn
  errno : ℕ → ReadReturn

unfoldable pub read_fd : ReadResult → Buffer → ReadReturn × Buffer
unfolding append
read_fd (failed e) b = (errno e, b)
read_fd (received bytes) b =
    let n = length bytes in
    let writable = writable_bytes b in
    let stored = write_at b.buffer b.write_index (take writable bytes) in
    (
      count n,
      if leb n writable
          then record b { buffer = stored; write_index = b.write_index + n }
          else append (drop writable bytes)
              (record b { buffer = stored; write_index = length b.buffer }),
    )
